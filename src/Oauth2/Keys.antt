-- ===== src/Oauth2/Keys.antt =====
-- pkg/oauth2/jose.go: `SetupOAuth2Jose`, `setupJWK` and `LoadOAuth2JoseFromURL`.
pub mod Published
mod Tests
use Prim.Native.String.{◌++◌}
use mono_sso.Prelude.{
  String, len, Bool, true, false, ◌&&◌, not, ◌⊎◌, inl, inr, Option, none, some, List, [], ◌∷◌, ltb,
  ◌==◌, string_eq, if◌then◌else◌, ◌≡◌,
}
use mono_sso.Prelude.Flow.{Flow, return, next, ◌>>=◌, ◌>>◌, run, return_if}
use mono_sso.Oauth2.{OAuth2Jose, JoseError, TokenClaims}

-- Options
pub record KeyOptions : Type 0 where
  pub private_key_path : String
  pub private_key_password : String
  pub jwks_url : String

-- pem.Block
pub record PemBlock : Type 0 where
  pub block_type : String
  pub bytes : String

-- The files, the crypto packages of Go, encoding/json, net/http and go-jose; `none` is an error, or
-- for `pem_decode` the nil block.
pub record Crypto : Type 1 where
  pub Rsa : Type 0
  pub Ecdsa : Type 0
  pub Public : Type 0
  pub Token : Type 0
  pub read_file : String → Option String
  pub generate_rsa : Option Rsa
  pub marshal_pkcs1 : Rsa → String
  pub sha1_hex : String → String
  pub pem_decode : String → Option PemBlock
  pub decrypt_pem : PemBlock → String → Option String
  pub parse_pkcs1 : String → Option Rsa
  -- A key of PKCS #8, and whether it is an RSA key.
  pub parse_pkcs8 : String → Option (Option Rsa)
  pub parse_ec : String → Option Ecdsa
  pub rsa_public : Rsa → Public
  pub ecdsa_public : Ecdsa → Public
  pub fetch : String → Option String
  pub parse_signed : String → JoseError ⊎ Token

-- The errors of the set-up.
pub data KeyError : Type 0 where
  generating invalid_key_type decrypting parsing_rsa parsing_ec no_signer : KeyError
  fetching decoding_keys empty_jwks : KeyError

module _ (crypto : Crypto) where
  open crypto use {
    Rsa, Ecdsa, Public, Token, read_file, generate_rsa, marshal_pkcs1, sha1_hex, pem_decode,
    decrypt_pem, parse_pkcs1, parse_pkcs8, parse_ec, rsa_public, ecdsa_public, fetch, parse_signed,
  }

  -- jose.JSONWebKey
  pub record Jwk : Type 0 where
    pub key_id : String
    pub use_for : String
    pub algorithm : String
    pub key : Public

  -- jose.SigningKey: the private key with its algorithm.
  pub data SigningKey : Type 0 where
    rs256 : Rsa → SigningKey
    es256 : Ecdsa → SigningKey

  -- What go-jose does with these keys.
  pub record GoJose : Type 0 where
    pub marshal_jwk : Jwk → String
    pub unmarshal_jwks : String → Option (List Jwk)
    pub has_signer : SigningKey → Bool
    pub sign : SigningKey → TokenClaims → Option String
    pub verify : Jwk → Token → JoseError ⊎ TokenClaims

  -- OAuth2Jose after the set-up.
  pub record Keys : Type 0 where
    pub fingerprint : String
    pub jwk : Jwk
    pub jwks : String
    pub signing_key : SigningKey

  -- What a set-up comes to: `none` is a panic.
  abbrev Made : Type 0
  Made = Option (KeyError ⊎ Keys)

  abbrev or_error : {A : Type 0} → Option A → KeyError → Flow Made A
  or_error none e = return (some (inl e))
  or_error (some a) e = next a

  abbrev signing_public : SigningKey → Public
  signing_public (rs256 key) = rsa_public key
  signing_public (es256 key) = ecdsa_public key

  abbrev algorithm_of : SigningKey → String
  algorithm_of (rs256 key) = "RS256"
  algorithm_of (es256 key) = "ES256"

  abbrev pub jwk_of : String → SigningKey → Jwk
  jwk_of fingerprint key = record {
    key_id = fingerprint;
    use_for = "sig";
    algorithm = algorithm_of key;
    key = signing_public key;
  }

  -- The text that `setupJWK` writes.
  abbrev pub jwks_text : String → String
  jwks_text jwk = "{\"keys\":[" ++ (jwk ++ "]}")

  -- `setupJWK`, with the key that is set.
  unfoldable pub setup_jwk : GoJose → String → SigningKey → Made
  setup_jwk go fingerprint key = run do
    return_if (not (go.has_signer key)) (some (inl no_signer))
    next (
        some (
          inr (record {
            fingerprint = fingerprint;
            jwk = jwk_of fingerprint key;
            jwks = jwks_text (go.marshal_jwk (jwk_of fingerprint key));
            signing_key = key;
          })))

  -- A key of PKCS #1, or else of PKCS #8. With one of PKCS #8 that is not RSA no key is set, and
  -- `setupJWK` dereferences nil.
  abbrev rsa_key : String → Flow Made Rsa
  rsa_key bytes = elim (parse_pkcs1 bytes) [
    | some key ↦ next key
    | none ↦ elim (parse_pkcs8 bytes) [
      | none ↦ return (some (inl parsing_rsa))
      | some none ↦ return none
      | some (some key) ↦ next key
    ]
  ]

  abbrev key_of : PemBlock → String → Flow Made SigningKey
  key_of block bytes =
      if block.block_type == "RSA PRIVATE KEY"
      then (do key ← rsa_key bytes; next (rs256 key))
      else (do key ← or_error (parse_ec bytes) parsing_ec; next (es256 key))

  -- The bytes of the block, decrypted where there is a password.
  abbrev block_bytes : KeyOptions → PemBlock → Flow Made String
  block_bytes options block =
      if ltb 0 (len options.private_key_password)
      then or_error (decrypt_pem block options.private_key_password) decrypting
      else next block.bytes

  -- From the content of the key file.
  unfoldable pub load_key : GoJose → KeyOptions → String → Made
  unfolding setup_jwk
  load_key go options content = run do
    block ← elim (pem_decode content) [ none ↦ return none | some block ↦ next block ]
    return_if
        (not (block.block_type == "RSA PRIVATE KEY") && not (block.block_type == "EC PRIVATE KEY"))
        (some (inl invalid_key_type))
    bytes ← block_bytes options block
    key ← key_of block bytes
    next (setup_jwk go (sha1_hex bytes) key)

  -- Without a key file, a temporary key.
  unfoldable pub temporary_key : GoJose → Made
  unfolding setup_jwk
  temporary_key go = run do
    key ← or_error generate_rsa generating
    next (setup_jwk go (sha1_hex (marshal_pkcs1 key)) (rs256 key))

  -- `SetupOAuth2Jose`
  unfoldable pub setup_oauth2_jose : GoJose → KeyOptions → Made
  unfolding load_key temporary_key
  setup_oauth2_jose go options = elim (read_file options.private_key_path) [
    | none ↦ temporary_key go
    | some content ↦ load_key go options content
  ]

  abbrev first_key : List Jwk → KeyError ⊎ Jwk
  first_key [] = inl empty_jwks
  first_key (jwk ∷ jwks) = inr jwk

  -- `LoadOAuth2JoseFromURL`: the key to verify with, whose identifier is the fingerprint.
  unfoldable pub load_oauth2_jose_from_url : GoJose → KeyOptions → KeyError ⊎ Jwk
  load_oauth2_jose_from_url go options = elim (fetch options.jwks_url) [
    | none ↦ inl fetching
    | some body ↦ elim (go.unmarshal_jwks body) [
      | none ↦ inl decoding_keys
      | some jwks ↦ first_key jwks
    ]
  ]

  -- The use of the keys that has been set up, to sign and to verify.
  unfoldable pub own_keys : GoJose → Keys → OAuth2Jose
  own_keys go keys = record {
    Token = Token;
    fingerprint = keys.fingerprint;
    parse_signed = parse_signed;
    verify_claims = go.verify keys.jwk;
    compact_serialize = go.sign keys.signing_key;
  }

  -- The use of a key that has been loaded, which does not sign.
  unfoldable pub loaded_key : GoJose → Jwk → OAuth2Jose
  loaded_key go jwk = record {
    Token = Token;
    fingerprint = jwk.key_id;
    parse_signed = parse_signed;
    verify_claims = go.verify jwk;
    compact_serialize = λ claims. none;
  }
