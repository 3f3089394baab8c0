-- ===== src/Provider/Static.antt =====
-- pkg/handlers/static.go: the keys that sso-provider publishes.
use mono_sso.Prelude.{String}
use mono_sso.Oauth2.Keys.{Crypto, Keys}
use mono_sso.Provider.Http.{Response, fresh, as_json, answer}

-- `JWKSHandler`, where the literals are contents.
unfoldable pub jwks_handler :
    {C : Type 0} {crypto : Crypto} (literal : String → C) → Keys crypto → Response C
jwks_handler literal keys = answer 200 (literal keys.jwks) (as_json fresh)
