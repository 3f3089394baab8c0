-- ===== src/Provider/World.antt =====
-- pkg/session/authorization.go and authentication.go: the options of sso-provider, what one
-- request meets, and the calls of sso-service.
pub mod Laws
use Prim.Native.Nat.{◌-◌, ◌%◌, ◌^◌}
use Prim.Native.String.{◌++◌}
use mono_sso.Prelude.{
  ℕ, String, len, utf8, fields, Bool, true, false, ◌&&◌, ◌||◌, not, Option, none, some, List, [],
  ◌∷◌, ltb, leb, length, ◌==◌, nat_eq, string_eq, if◌then◌else◌,
}
use mono_sso.Prelude.Int.{ℤ, pos, negsuc, ltb_ℤ}
use mono_sso.Prelude.Flow.{Flow, return, next}
use mono_sso.Constants.{ResponseStatus, internal_error_response}
use mono_sso.Cache.Redis.{Redis, Reply, found, absent, failed}
use mono_sso.Cache.Ids.{str, rune, create_id}
use mono_sso.Oauth2.{OAuth2Jose}
use mono_sso.Service.{Call, Platform}
use mono_sso.Service.Activation.{Codes, Cached}
use mono_sso.Service.Authorization.{AuthorizeClientRequest}
use mono_sso.Service.RefreshToken.{NewRefreshTokenRequest}
use mono_sso.Provider.Http.{
  HttpRequest, Response, CookieReply, cookie_value, no_cookie, unreadable_cookie, answer,
}
use mono_sso.Provider.Messages.{
  AuthenticationRequest, OAuth2UrlQuery, OAuth2DataForm, SessionSubject, Content, literal, Codec,
}

-- AuthorizationOptions; durations in seconds.
pub record AuthorizationOptions : Type 0 where
  pub grant_request_duration : ℤ
  pub authorization_code_duration : ℤ
  pub access_token_duration : ℤ
  pub refresh_token_duration : ℤ
  pub issuer : String

-- AuthenticationOptions, less the template; durations in seconds.
pub record AuthenticationOptions : Type 0 where
  pub namespace : String
  pub remember_me_duration : ℤ
  pub ephemeral_session_duration : ℤ
  pub mfa_session_duration : ℤ
  pub session_cookie_domain : String
  pub session_cookie_path : String
  pub tenant_id : String

-- The server: its options, the prefix of the cache's keys, the signing key, the server that the
-- gRPC clients call, and SHA-1 in hexadecimal, `time.Duration.String`, whether `url.Parse`
-- succeeds, and protobuf.
pub record Provider : Type 1 where
  pub authz : AuthorizationOptions
  pub authn : AuthenticationOptions
  pub prefix : String
  pub jose : OAuth2Jose
  pub platform : Platform
  pub sha1_hex : String → String
  pub format_duration : ℤ → String
  pub is_url : String → Bool
  pub subject_codec : Codec SessionSubject
  pub token_codec : Codec NewRefreshTokenRequest
  pub client_codec : Codec AuthorizeClientRequest

-- A gRPC call is answered; or it is run and the answer is lost; or it does not arrive.
pub data Delivery : Type 0 where
  answered unanswered undelivered : Delivery

-- What one request meets: two readings of the clock, the generators and the random source (`none`
-- for an error), whether the recaptcha is confirmed, and what becomes of the calls of sso-service.
pub record Moment : Type 0 where
  pub now : ℤ
  pub later : ℤ
  pub new_session_id : Option String
  pub new_challenge : Option String
  pub new_nonce : Option String
  pub salt : Option String
  pub recaptcha_confirms : String → String → Bool
  pub call : Call
  pub codes : Codes
  pub delivery : Delivery
  pub event_delivery : Delivery

-- The cookie keys of `SetupAuthenticationModel`.
abbrev pub session_cookie_key : AuthenticationOptions → String
session_cookie_key options = options.namespace ++ "_SESS"

abbrev pub subject_cookie_key : AuthenticationOptions → String
subject_cookie_key options = options.namespace ++ "_SUB"

-- `IsOAuth2ValidResponseType`
abbrev pub is_oauth2_valid_response_type : String → Bool
is_oauth2_valid_response_type t = t == "code" || t == "token"

-- `NewOAuth2URLQuery`
unfoldable pub new_oauth2_url_query : HttpRequest → OAuth2UrlQuery
new_oauth2_url_query r = record {
  client_id = r.query_value "client_id";
  response_type = r.query_value "response_type";
  redirect_uri = r.query_value "redirect_uri";
  state = r.query_value "state";
  scopes = r.query_value "scopes";
  scopes_array = fields (r.query_value "scopes");
  subject_id = "";
  session_id = "";
}

-- `NewOAuth2DataForm`
unfoldable pub new_oauth2_data_form : HttpRequest → OAuth2DataForm
new_oauth2_data_form r = record {
  client_id = r.form_value "client_id";
  client_secret = r.form_value "client_secret";
  grant_type = r.form_value "grant_type";
  code = r.form_value "code";
  redirect_uri = r.form_value "redirect_uri";
  refresh_token = r.form_value "refresh_token";
}

-- `IsValidAuthorizationRequest`
unfoldable pub is_valid_authorization_request : OAuth2UrlQuery → Bool
is_valid_authorization_request q = not (
    len q.session_id == 0
    || not (len q.subject_id == 28)
    || not (len q.client_id == 28)
    || leb (len q.redirect_uri) 8
    || len q.scopes == 0
    || not (is_oauth2_valid_response_type q.response_type))

-- `GetExpirationFromAuthentication`
unfoldable pub get_expiration_from_authentication :
    AuthenticationOptions → AuthenticationRequest → ℤ × Bool
get_expiration_from_authentication options req =
    if ltb_ℤ (pos 0) options.remember_me_duration && req.remember_me
    then (options.remember_me_duration, true)
    else (options.ephemeral_session_duration, false)

-- `refreshTokenRes.Status != nil && len(refreshTokenRes.Status.Errors) > 0`
abbrev pub has_errors : Option ResponseStatus → Bool
has_errors none = false
has_errors (some status) = ltb 0 (length status.errors)

-- `uint32` of a number of seconds, as amd64 converts it.
abbrev pub to_uint32 : ℤ → ℕ
to_uint32 (pos n) = n % 2 ^ 32
to_uint32 (negsuc n) = 2 ^ 32 - 1 - n % 2 ^ 32

abbrev pub internal_error : Response Content → Response Content
internal_error w = answer 500 (literal internal_error_response) w

-- `CreateID(":sess:", sessionID, ':', subject)`
unfoldable pub session_key : Provider → String → String → Option String
session_key p session subject =
    create_id p.prefix (str ":sess:" ∷ str session ∷ rune ":" ∷ str subject ∷ [])

-- The key of a session's challenge.
unfoldable pub challenge_key : String → String
challenge_key session_key = session_key ++ ":clg"

-- The hash that is kept of a challenge.
unfoldable pub hash_challenge : Provider → String → String → String
hash_challenge p user_agent challenge = p.sha1_hex (user_agent ++ challenge)

-- `CreateID(":authc:", tenant, ':', clientID, ':', code)`
unfoldable pub code_key : Provider → String → String → Option String
code_key p client code =
    create_id p.prefix
      (str ":authc:" ∷ str p.authn.tenant_id ∷ rune ":" ∷ str client ∷ rune ":" ∷ str code ∷ [])

-- `GenerateTokenCacheID`
unfoldable pub generate_token_cache_id : Provider → OAuth2UrlQuery → Option String
generate_token_cache_id p q = create_id p.prefix (
    str ":tkn:"
    ∷ str q.client_id
    ∷ rune ":"
    ∷ str q.subject_id
    ∷ rune ":"
    ∷ str (p.sha1_hex q.scopes)
    ∷ [])

-- The two cookies of `GetSessionAndSubjectCookies`.
pub record SessionCookies : Type 0 where
  pub session : Option String
  pub subject : Option String

abbrev read_cookie : CookieReply → Option (Option String)
read_cookie (cookie_value value) = some (some value)
read_cookie no_cookie = some none
read_cookie unreadable_cookie = none

-- `GetSessionAndSubjectCookies`; `none` is its error.
unfoldable pub get_session_and_subject_cookies : Provider → HttpRequest → Option SessionCookies
get_session_and_subject_cookies p r = elim (read_cookie (r.cookie (subject_cookie_key p.authn))) [
  | none ↦ none
  | some subject ↦ elim (read_cookie (r.cookie (session_cookie_key p.authn))) [
    | none ↦ none
    | some session ↦ some (record { session = session; subject = subject })
  ]
]

module _ (redis : Redis) where
  open redis use {Store, Value, of_text, to_text, get, set}

  -- What a handler leaves: the response, and sso-service with the cache.
  abbrev pub Out : Type 0
  Out = Response Content × Cached redis

  -- What the client sees of a call, and the state that the call leaves.
  abbrev pub rpc :
      {A : Type 0} → Delivery → Cached redis → A × Cached redis → Option A × Cached redis
  rpc answered s (a, s') = (some a, s')
  rpc unanswered s (a, s') = (none, s')
  rpc undelivered s (a, s') = (none, s)

  abbrev pub or_stop : {A R : Type 0} → Option A → R → Flow R A
  or_stop none r = return r
  or_stop (some a) r = next a

  abbrev decode_subject : Bool × SessionSubject → Reply SessionSubject
  decode_subject (true, subject) = found subject
  decode_subject (false, subject) = failed

  -- `GetCachedSessionSubject`; `absent` is its nil result.
  unfoldable pub get_cached_session_subject : Provider → Store → String → Reply SessionSubject
  get_cached_session_subject p store key = elim (get store key) [
    | absent ↦ absent
    | failed ↦ failed
    | found value ↦ decode_subject (p.subject_codec.unmarshal (to_text value))
  ]

  -- `UpdateSessionSubject`: whether it returns without an error.
  unfoldable pub update_session_subject :
      Provider → Store → String → SessionSubject → ℤ → Bool × Store
  update_session_subject p store key subject expiration = elim (p.subject_codec.marshal subject) [
    | none ↦ (false, store)
    | some text ↦ set store key (of_text text) expiration
  ]
