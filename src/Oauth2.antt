-- ===== src/Oauth2.antt =====
-- pkg/oauth2/jose.go: access tokens. go-jose, which signs, parses and verifies, is a parameter.
pub mod Laws
pub mod Keys
use mono_sso.Prelude.{
  String, ◌≡◌, Bool, ◌⊎◌, inl, inr, Option, none, some, List, not, ◌==◌, string_eq, if◌then◌else◌,
}
use mono_sso.Prelude.Int.{ℤ}

-- The errors of go-jose/jwt that the validator tells apart, and any other, with its message.
pub data JoseError : Type 0 where
  err_expired err_invalid_audience err_invalid_claims err_invalid_id : JoseError
  err_invalid_issuer err_invalid_subject err_invalid_content_type : JoseError
  err_issued_in_the_future err_not_valid_yet : JoseError
  err_unmarshal_audience err_unmarshal_numeric_date : JoseError
  other_jose_error : String → JoseError

-- `TokenClaims`, with the registered claims of `jwt.Claims`; dates in seconds.
pub record TokenClaims : Type 0 where
  pub issuer : String
  pub subject : String
  pub audience : List String
  pub expiry : ℤ
  pub not_before : ℤ
  pub issued_at : ℤ
  pub id : String
  pub scope : String
  pub kid : String
  pub tenant : String

pub data Decoded : Type 0 where
  claims_of : TokenClaims → Decoded
  jose_error : JoseError → Decoded
  invalid_fingerprint : Decoded

-- go-jose with the key that `SetupOAuth2Jose` or `LoadOAuth2JoseFromURL` has set up: `ParseSigned`
-- and then `token.Claims`, which checks the signature, and `CompactSerialize`, which signs.
pub record OAuth2Jose : Type 1 where
  pub Token : Type 0
  pub fingerprint : String
  pub parse_signed : String → JoseError ⊎ Token
  pub verify_claims : Token → JoseError ⊎ TokenClaims
  pub compact_serialize : TokenClaims → Option String

-- go-jose reads back what it has signed with the same key.
pub record ReadsBack (jose : OAuth2Jose) : Type 0 where
  pub parses :
      (claims : TokenClaims) (text : String)
      → jose.compact_serialize claims ≡ some text
      → (token : jose.Token) × (jose.parse_signed text ≡ inr token)
        × (jose.verify_claims token ≡ inr claims)

-- `GenerateJWT` and the `CompactSerialize` that every caller makes of its result.
unfoldable pub generate_jwt : OAuth2Jose → TokenClaims → Option String
generate_jwt jose claims = jose.compact_serialize (record claims { kid = jose.fingerprint })

check_fingerprint : OAuth2Jose → TokenClaims → Decoded
check_fingerprint jose claims =
    if not (claims.kid == jose.fingerprint) then invalid_fingerprint else claims_of claims

verified : (jose : OAuth2Jose) → JoseError ⊎ jose.Token → Decoded
unfolding check_fingerprint
verified jose (inl e) = jose_error e
verified jose (inr token) = elim (jose.verify_claims token) [
  | inl e ↦ jose_error e
  | inr claims ↦ check_fingerprint jose claims
]

unfoldable pub decode_jwt : OAuth2Jose → String → Decoded
unfolding verified
decode_jwt jose text = verified jose (jose.parse_signed text)
