-- ===== src/Oauth2/Keys/Tests.antt =====
-- A temporary key, with a go-jose that knows one token.
use Prim.Native.String.{String}
use mono_sso.Prelude.{
  ◌≡◌, refl, sym, ap, ◌∙◌, ◌↔◌, Bool, true, false, none, some, [], ◌∷◌, ◌==◌, string_eq, eq_iff,
  inr,
}
use mathlib.Core.Logic.{ite, if_pos, if_neg}
use native.Mathlib.Decide.{ℕ_discrete}
use mono_sso.Prelude.Int.{pos}
use mono_sso.Oauth2.{TokenClaims, claims_of, generate_jwt, decode_jwt}
use mono_sso.Provider.Static.{jwks_handler}
use mono_sso.Oauth2.Keys.{
  KeyOptions, Crypto, Jwk, rs256, GoJose, Keys, jwk_of, setup_jwk, temporary_key, setup_oauth2_jose,
  load_oauth2_jose_from_url, own_keys, loaded_key,
}
use mono_sso.Oauth2.Keys.Published.{Verifies, decode_jwt-load_oauth2_jose_from_url}

abbrev claims : TokenClaims
claims = record {
  issuer = "accounts";
  subject = "ann";
  audience = "web" ∷ [];
  expiry = pos 900;
  not_before = pos 100;
  issued_at = pos 100;
  id = "";
  scope = "read";
  kid = "key";
  tenant = "acme";
}

abbrev crypto : Crypto
crypto = record {
  Rsa = Unit {0};
  Ecdsa = Unit {0};
  Public = Unit {0};
  Token = Unit {0};
  read_file = λ path. none;
  generate_rsa = some tt;
  marshal_pkcs1 = λ key. "key";
  sha1_hex = λ s. s;
  pem_decode = λ s. none;
  decrypt_pem = λ block password. none;
  parse_pkcs1 = λ s. none;
  parse_pkcs8 = λ s. none;
  parse_ec = λ s. none;
  rsa_public = λ key. tt;
  ecdsa_public = λ key. tt;
  fetch = λ url. some "{\"keys\":[jwk]}";
  parse_signed = λ text. inr tt;
}

String-discrete : Discrete String
String-discrete s t = decided (s == t) (eq_iff s t)
  where
    decided : {P : Type 0} (b : Bool) → (b ≡ true) ↔ P → Dec P
    decided true e = yes (e.0 refl)
    decided false e = no (λ p. true≢false (sym (e.1 p)))
      where
        true≢false : true ≡ false → ⊥
        true≢false q = cc

claims-discrete : Discrete TokenClaims
claims-discrete = hlevel (ℕ_discrete, String-discrete)

abbrev go : GoJose crypto
go = record {
  marshal_jwk = λ jwk. "jwk";
  unmarshal_jwks = λ text. some (jwk_of crypto "key" (rs256 tt) ∷ []);
  has_signer = λ key. true;
  sign = λ key c. ite (claims-discrete c claims) (some "signed") none;
  verify = λ jwk token. inr claims;
}

go-Verifies : Verifies crypto go
go-Verifies = record {
  verifies = λ fingerprint key c text h. elim (claims-discrete c claims) [
    | yes e ↦ (tt, refl, ap inr (sym e))
    | no n ↦ absurd (none≢some (sym (if_neg (claims-discrete c claims) n (some "signed") none) ∙ h))
  ];
}
  where
    none≢some : {t : String} → none ≡ some t → ⊥
    none≢some e = cc

abbrev options : KeyOptions
options = record {
  private_key_path = "";
  private_key_password = "";
  jwks_url = "https://accounts/.well-known/jwks.json";
}

abbrev keys : Keys crypto
keys = record {
  fingerprint = "key";
  jwk = jwk_of crypto "key" (rs256 tt);
  jwks = "{\"keys\":[jwk]}";
  signing_key = rs256 tt;
}

sets_up : setup_oauth2_jose crypto go options ≡ some (inr keys)
unfolding setup_oauth2_jose temporary_key setup_jwk
sets_up = refl

decode_jwt-load_oauth2_jose_from_url_example :
    (jwk : Jwk crypto) × (load_oauth2_jose_from_url crypto go options ≡ inr jwk)
    × (decode_jwt (loaded_key crypto go jwk) "signed" ≡ claims_of claims)
unfolding generate_jwt own_keys jwks_handler
decode_jwt-load_oauth2_jose_from_url_example =
    decode_jwt-load_oauth2_jose_from_url crypto go go-Verifies options options keys claims "signed"
      "{\"keys\":[jwk]}" sets_up refl refl refl
      (if_pos (claims-discrete claims claims) refl (some "signed") none)
