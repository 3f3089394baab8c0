-- ===== src/Oauth2/Laws.antt =====
-- Decoding the tokens that the program issues.
use mono_sso.Prelude.{
  String, Sum-cases, ap, ◌∙◌, ◌≡◌, inl, inr, some, arith, eq_iff, eq_refl, string_eq,
}
use mono_sso.Oauth2.{
  OAuth2Jose, TokenClaims, ReadsBack, claims_of, generate_jwt, decode_jwt, verified,
}

-- A token that `GenerateJWT` has signed decodes, under the same key, to the claims that it was
-- made from, with the key's fingerprint in `kid`.
pub decode_jwt-generate_jwt :
    (jose : OAuth2Jose) (claims : TokenClaims) (text : String)
    → ReadsBack jose
    → generate_jwt jose claims ≡ some text
    → decode_jwt jose text ≡ claims_of (record claims { kid = jose.fingerprint })
unfolding decode_jwt generate_jwt
decode_jwt-generate_jwt jose claims text back signed =
    let (token, parsed, checked) = back.parses _ text signed in
    rw (parsed, checked, verified, eq_refl jose.fingerprint)

-- Claims come only from a token that parses and whose signature verifies, and carry the key's
-- fingerprint.
pub decode_jwt-eq-claims_of :
    (jose : OAuth2Jose) (text : String) (claims : TokenClaims)
    → decode_jwt jose text ≡ claims_of claims
    → ((token : jose.Token) × (jose.parse_signed text ≡ inr token)
        × (jose.verify_claims token ≡ inr claims))
      × (claims.kid ≡ jose.fingerprint)
unfolding decode_jwt
decode_jwt-eq-claims_of jose text claims h = elim (Sum-cases (jose.parse_signed text)) [
  | inl (e, failed) ↦ absurd (ground arith)
  | inr (token, parsed) ↦ elim (Sum-cases (jose.verify_claims token)) [
    | inl (e, failed) ↦ absurd (ground arith)
    | inr (found, checked) ↦
        let e : found ≡ claims = ground arith in
        ((token, parsed, checked ∙ ap inr e), ground (arith, eq_iff claims.kid jose.fingerprint))
  ]
]
