-- ===== src/Provider/Tests.antt =====
-- A provider with one client and one account, over a cache in memory.
mod Tokens
mod Claims
mod CodeFlow
mod Sessions
use Prim.Native.String.{String, ◌++◌}
use mono_sso.Prelude.{
  ℕ, ◌≡◌, refl, sym, ◌∙◌, ◌↔◌, Bool, true, false, ◌&&◌, Option, none, some, List, [], ◌∷◌, length,
  is_some, ◌==◌, string_eq, nat_eq, eq_iff, if◌then◌else◌, inl, inr,
}
use native.Mathlib.Decide.{ℕ_discrete}
use mono_sso.Prelude.Int.{ℤ, pos}
use mono_sso.Cache.Local.{local_redis}
use mono_sso.Datastore.{Db, AccountRow, ActivationMethod, ClientType}
use mono_sso.Oauth2.{OAuth2Jose, TokenClaims}
use mono_sso.Service.{Call, Platform}
use mono_sso.Service.Activation.{Codes, Cached}
use mono_sso.Service.Authorization.{AuthorizeClientRequest}
use mono_sso.Service.RefreshToken.{NewRefreshTokenRequest}
use mono_sso.Provider.Http.{HttpRequest, no_cookie, cookie_value}
use mono_sso.Provider.Messages.{Codec, SessionSubject}
use mono_sso.Provider.World.{
  Provider, Moment, answered, AuthorizationOptions, AuthenticationOptions,
}

abbrev client_id : String
client_id = "web-app-client-0123456789abc"

abbrev account_id : String
account_id = "ann-account-0123456789abcdef"

abbrev uri : String
uri = "https://web.example/cb"

abbrev ann : AccountRow
ann = record {
  id = account_id;
  name = "Ann";
  activation_method = ActivationMethod.email;
  password = some "hash";
  deleted_at = none;
}

-- Ann has granted the scope of the client.
abbrev tables : Db
tables = record {
  tenants = [];
  accounts = ann ∷ [];
  account_tenants = record { account_id = account_id; tenant_id = "acme"; deleted_at = none } ∷ [];
  account_identifiers = record { account_id = account_id; identifier = "ann@example.org" } ∷ [];
  clients =
      record {
        id = client_id;
        name = "Web app";
        client_type = ClientType.confidential;
        redirect_uris = uri ∷ [];
        secret = some "hash";
        created_at = pos 1;
        updated_at = pos 1;
        deleted_at = none;
      }
      ∷ [];
  scopes =
      record {
        id = "s1";
        client_id = client_id;
        scope = "read";
        created_at = pos 1;
        updated_at = pos 1;
        deleted_at = none;
      }
      ∷ [];
  scopes_i18n = [];
  grants =
      record {
        account_id = account_id;
        scope_id = "s1";
        created_at = pos 1;
        updated_at = pos 1;
        deleted_at = none;
      }
      ∷ [];
  tokens = [];
}

abbrev with_store : List (String × String) → Cached local_redis
with_store store = record { service = record { db = tables; events = [] }; store = store }

abbrev platform : Platform
platform = record {
  bcrypt_matches = λ hash raw. hash == "hash" && length raw == 5;
  parse_duration = λ s. some (pos 3600);
  format_time = λ t. "later";
}

-- Every token has the same text, and decodes to claims of Ann for the client.
abbrev claims : TokenClaims
claims = record {
  issuer = "accounts";
  subject = account_id;
  audience = client_id ∷ [];
  expiry = pos 3701;
  not_before = pos 101;
  issued_at = pos 101;
  id = "t1";
  scope = "read";
  kid = "f1";
  tenant = "acme";
}

abbrev jose : OAuth2Jose
jose = record {
  Token = Unit {0};
  fingerprint = "f1";
  parse_signed = λ text. inr tt;
  verify_claims = λ token. inr claims;
  compact_serialize = λ c. some "signed";
}

-- What is stored with a code.
abbrev stored : NewRefreshTokenRequest
stored = record {
  client_id = "";
  subject = account_id;
  session_id = "s1";
  authorization_code = "";
  duration = "";
  force_new = false;
  client_secret = "";
  redirect_uri = uri;
  scopes = "read" ∷ [];
}

abbrev asked : AuthorizeClientRequest
asked = record {
  subject = account_id;
  client_id = client_id;
  response_type = "code";
  redirect_uri = uri;
  scopes = "read" ∷ [];
  tenant_id = "acme";
}

abbrev subject : SessionSubject
subject = record { authenticated_at = pos 90; activated_at = pos 90; expires_at = pos 0 }

-- Equality of texts, which computes.
unfoldable pub decided : {P : Type 0} (b : Bool) → (b ≡ true) ↔ P → Dec P
decided true e = yes (e.0 refl)
decided false e = no (λ p. true≢false (sym (e.1 p)))
  where
    true≢false : true ≡ false → ⊥
    true≢false q = cc

unfoldable pub String-discrete : Discrete String
String-discrete s t = decided (s == t) (eq_iff s t)

-- A codec that writes every message in the same way, and reads one.
abbrev constant : {A : Type 0} → String → A → Codec A
constant text a = record { marshal = λ x. some text; unmarshal = λ t. (true, a) }

abbrev provider : Provider
provider = record {
  authz = record {
    grant_request_duration = pos 180;
    authorization_code_duration = pos 180;
    access_token_duration = pos 300;
    refresh_token_duration = pos 3600;
    issuer = "accounts";
  };
  authn = record {
    namespace = "SSO";
    remember_me_duration = pos 0;
    ephemeral_session_duration = pos 900;
    mfa_session_duration = pos 180;
    session_cookie_domain = "";
    session_cookie_path = "/";
    tenant_id = "acme";
  };
  prefix = "sso";
  jose = jose;
  platform = platform;
  sha1_hex = λ s. "x" ++ s;
  format_duration = λ d. "1h";
  is_url = λ s. true;
  subject_codec = constant "subject" subject;
  token_codec = constant "request" stored;
  client_codec = constant "grant" asked;
}

abbrev call : Call
call = record {
  outage = λ _. false;
  database_now = pos 100;
  process_now = pos 101;
  new_id = some "t1";
}

abbrev moment : Moment
moment = record {
  now = pos 101;
  later = pos 102;
  new_session_id = some "s1";
  new_challenge = some "c1";
  new_nonce = some "n1";
  salt = some "0123456789abcdef0123456789abcdef";
  recaptcha_confirms = λ ip response. true;
  call = call;
  codes = record { sha256_hex = λ s. s; prefix = "sso"; random = 41 };
  delivery = answered;
  event_delivery = answered;
}

abbrev code : String
code = "x0123456789abcdef0123456789abcdefBrowser"

-- The form of an exchange, or of a refresh; "aGVsbG8" is a secret of five bytes.
abbrev form : String → String → String
form grant name =
    if name == "client_id"
    then client_id
    else if name == "grant_type"
    then grant
    else if name == "redirect_uri"
    then uri
    else if name == "client_secret"
    then "aGVsbG8"
    else if name == "code"
    then code
    else if name == "refresh_token"
    then "signed"
    else ""

abbrev query : String → String
query name =
    if name == "client_id"
    then client_id
    else if name == "response_type"
    then "code"
    else if name == "redirect_uri"
    then uri
    else if name == "scopes"
    then "read"
    else ""

abbrev request : String → HttpRequest
request grant = record {
  query_value = query;
  form_value = form grant;
  header = λ name. if name == "User-Agent" then "Browser" else "";
  cookie = λ name.
      if name == "SSO_SESS"
      then cookie_value "s1"
      else if name == "SSO_SUB"
      then cookie_value account_id
      else no_cookie;
  remote_host = some "192.0.2.1";
}
