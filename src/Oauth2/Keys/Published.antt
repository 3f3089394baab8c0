-- ===== src/Oauth2/Keys/Published.antt =====
-- The key that one server signs with and publishes is the key that another loads and verifies with.
use mono_sso.Prelude.{String, ◌≡◌, refl, sym, inr, some, [], ◌∷◌, arith, eq_refl, string_eq}
use mono_sso.Oauth2.{TokenClaims, claims_of, generate_jwt, decode_jwt, verified}
use mono_sso.Provider.Static.{jwks_handler}
use mono_sso.Oauth2.Keys.{
  KeyOptions, Crypto, Jwk, SigningKey, GoJose, Keys, jwk_of, jwks_text, setup_jwk, load_key,
  temporary_key, setup_oauth2_jose, load_oauth2_jose_from_url, own_keys, loaded_key,
}

-- go-jose verifies with a public key what the private one has signed.
pub record Verifies (crypto : Crypto) (go : GoJose crypto) : Type 0 where
  pub verifies :
      (fingerprint : String) (key : SigningKey crypto) (claims : TokenClaims) (text : String)
      → go.sign key claims ≡ some text
      → (token : crypto.Token) × (crypto.parse_signed text ≡ inr token)
        × (go.verify (jwk_of crypto fingerprint key) token ≡ inr claims)

module _ (crypto : Crypto) (go : GoJose crypto) where
  -- Whatever key the set-up comes to, it publishes the key that it signs with.
  record IsPublished (keys : Keys crypto) : Type 0 where
    pub same_jwk : keys.jwk ≡ jwk_of crypto keys.fingerprint keys.signing_key
    pub same_jwks : keys.jwks ≡ jwks_text crypto (go.marshal_jwk keys.jwk)

  setup_oauth2_jose-IsPublished :
      (options : KeyOptions) (keys : Keys crypto)
      → setup_oauth2_jose crypto go options ≡ some (inr keys)
      → IsPublished keys
  unfolding setup_oauth2_jose load_key temporary_key setup_jwk
  setup_oauth2_jose-IsPublished options keys h = record {
    same_jwk = ground arith;
    same_jwks = ground arith;
  }

  -- A token that a server has signed after `SetupOAuth2Jose` decodes, at a server that has loaded the
  -- key from the body that `JWKSHandler` answers at the first one, to the claims that it was made from, with the
  -- fingerprint in `kid`; loading the key succeeds. go-jose reads back the set of the published key.
  pub decode_jwt-load_oauth2_jose_from_url :
      (laws : Verifies crypto go) (options remote : KeyOptions) (keys : Keys crypto)
      (claims : TokenClaims) (text served : String)
      → setup_oauth2_jose crypto go options ≡ some (inr keys)
      → go.unmarshal_jwks (jwks_text crypto (go.marshal_jwk keys.jwk)) ≡ some (keys.jwk ∷ [])
      → (jwks_handler (λ piece. piece) keys).body ≡ served ∷ []
      → crypto.fetch remote.jwks_url ≡ some served
      → generate_jwt (own_keys crypto go keys) claims ≡ some text
      → (jwk : Jwk crypto) × (load_oauth2_jose_from_url crypto go remote ≡ inr jwk)
        × (decode_jwt (loaded_key crypto go jwk) text
            ≡ claims_of (record claims { kid = keys.fingerprint }))
  unfolding jwks_handler load_oauth2_jose_from_url own_keys loaded_key generate_jwt decode_jwt
  decode_jwt-load_oauth2_jose_from_url laws options remote keys claims text served h reads serves
        fetched signed =
      let same_text : keys.jwks ≡ served = cc in
      let published = setup_oauth2_jose-IsPublished options keys h in
      let (token, parsed, checked) =
        laws.verifies keys.fingerprint keys.signing_key (record claims { kid = keys.fingerprint })
          text signed in
      (
        jwk_of crypto keys.fingerprint keys.signing_key,
        rw
            (
              load_oauth2_jose_from_url,
              fetched,
              sym same_text,
              published.same_jwks,
              reads,
              published.same_jwk,
            )
            refl,
        rw (parsed, checked, verified, eq_refl keys.fingerprint),
      )
