-- ===== src/Provider/Authorization.antt =====
-- pkg/handlers/authorization.go: `AuthorizationHandler`, in the order of its steps, and the page of
-- `IndexHandler` in pkg/handlers/authentication.go.
pub mod Laws
pub mod Codes
use Prim.Native.String.{◌++◌}
use mono_sso.Prelude.{
  ℕ, String, len, Bool, true, false, not, Option, none, some, List, [], ◌∷◌, ltb, length, ◌==◌,
  nat_eq, string_eq, if◌then◌else◌,
}
use mono_sso.Prelude.Int.{ℤ, ◌+ℤ◌}
use mono_sso.Prelude.Flow.{Flow, return, next, ◌>>=◌, ◌>>◌, run, return_if}
use mono_sso.Constants.{
  StatusError, unknown_scopes_slg, invalid_client_slg, invalid_response_type_slg,
}
use mono_sso.Cache.Redis.{Redis, Reply, found, absent, failed}
use mono_sso.Oauth2.{TokenClaims, generate_jwt}
use mono_sso.Service.{Event, warning, register_event}
use mono_sso.Service.Activation.{Cached}
use mono_sso.Service.Authorization.{
  AuthorizeClientRequest, AuthorizeClientResponse, authorize_client,
}
use mono_sso.Service.RefreshToken.{NewRefreshTokenRequest}
use mono_sso.Provider.Http.{HttpRequest, Response, fresh, answer, write, redirect}
use mono_sso.Provider.Messages.{
  OAuth2UrlQuery, SessionSubject, SignInTemplateReplacers, Content, page,
}
use mono_sso.Provider.World.{
  Provider, Moment, SessionCookies, new_oauth2_url_query, get_session_and_subject_cookies,
  is_valid_authorization_request, session_key, code_key, generate_token_cache_id,
  get_cached_session_subject, has_errors, internal_error, Out, rpc, or_stop,
}

-- `&SignInTemplateReplacers{RequireSignIn: false}`
abbrev pub empty_page : SignInTemplateReplacers
empty_page = record { grant_nonce = ""; scopes = ""; client_name = ""; require_sign_in = false }

abbrev value_or : String → Option String → String
value_or default none = default
value_or default (some value) = value

-- The query with the values of the cookies; `none` is the exit of the process.
unfoldable pub authorization_query : Provider → HttpRequest → Option OAuth2UrlQuery
authorization_query p r = elim (get_session_and_subject_cookies p r) [
  | none ↦ none
  | some cookies ↦ some (record (new_oauth2_url_query r) {
    subject_id = value_or "" cookies.subject;
    session_id = value_or "" cookies.session;
  })
]

unfoldable pub authorize_client_request : Provider → OAuth2UrlQuery → AuthorizeClientRequest
authorize_client_request p q = record {
  subject = q.subject_id;
  client_id = q.client_id;
  response_type = q.response_type;
  redirect_uri = q.redirect_uri;
  scopes = q.scopes_array;
  tenant_id = p.authn.tenant_id;
}

-- The `error` of a redirect.
unfoldable pub oauth2_error : String → String
oauth2_error slug =
    if slug == unknown_scopes_slg
    then "invalid_scope"
    else if slug == invalid_client_slg
    then "unauthorized_client"
    else if slug == invalid_response_type_slg
    then "unsupported_response_type"
    else "server_error"

-- The parameters that the URL of a redirect has in every case.
abbrev pub state_parameters : OAuth2UrlQuery → List (String × String)
state_parameters q = if ltb 0 (len q.state) then ("state", q.state) ∷ [] else []

abbrev with_parameters :
    OAuth2UrlQuery → List (String × String) → Response Content → Response Content
with_parameters q parameters w =
    redirect q.redirect_uri (mathlib.Core.List.◌++◌ (state_parameters q) parameters) w

abbrev pub error_parameters : StatusError → List (String × String)
error_parameters e = ("error", oauth2_error e.slug) ∷ ("details", e.message) ∷ []

abbrev redirect_errors : OAuth2UrlQuery → List StatusError → Response Content → Response Content
redirect_errors q [] w = w
redirect_errors q (e ∷ es) w = with_parameters q (error_parameters e) w

abbrev pub authorization_event : OAuth2UrlQuery → String → String → Event
authorization_event q user_agent code = record {
  level = warning;
  is_sensitive = true;
  fields =
      ("user_agent", user_agent)
      ∷ ("authorization_code", code)
      ∷ ("session_id", q.session_id)
      ∷ ("account_id", q.subject_id)
      ∷ ("client_id", q.client_id)
      ∷ ("scopes", q.scopes)
      ∷ ("response_type", q.response_type)
      ∷ ("redirect_uri", q.redirect_uri)
      ∷ [];
}

-- What is stored with an authorization code.
unfoldable pub code_request : OAuth2UrlQuery → NewRefreshTokenRequest
code_request q = record {
  client_id = "";
  subject = q.subject_id;
  session_id = q.session_id;
  authorization_code = "";
  duration = "";
  force_new = false;
  client_secret = "";
  redirect_uri = q.redirect_uri;
  scopes = q.scopes_array;
}

-- The claims of an access token of the implicit flow.
unfoldable pub implicit_claims : Provider → Moment → OAuth2UrlQuery → TokenClaims
implicit_claims p m q = record {
  issuer = p.authz.issuer;
  subject = q.subject_id;
  audience = q.client_id ∷ [];
  expiry = m.later +ℤ p.authz.access_token_duration;
  not_before = m.now;
  issued_at = m.now;
  id = "";
  scope = q.scopes;
  kid = "";
  tenant = p.authn.tenant_id;
}

module _ (redis : Redis) where
  open redis use {Store, Value, of_text, exists, set}

  -- What the handler returns, which says whether the page is shown, with the replacers of the page
  -- and what it leaves.
  pub record Authorized : Type 0 where
    pub shows_page : Bool
    pub replacers : SignInTemplateReplacers
    pub response : Response Content
    pub state : Cached redis

  -- `none` is the exit of the process.
  abbrev Step : Type 0 → Type 0
  Step A = Flow (Option Authorized) A

  abbrev pub show : SignInTemplateReplacers → Cached redis → Option Authorized
  show replacers s =
      some (record { shows_page = true; replacers = replacers; response = fresh; state = s })

  abbrev pub finish : Response Content → Cached redis → Option Authorized
  finish w s = some (record { shows_page = false; replacers = empty_page; response = w; state = s })

  abbrev pub stop : Cached redis → Option Authorized
  stop s = finish (internal_error fresh) s

  abbrev checked_session : Reply SessionSubject → Cached redis → Step SessionSubject
  checked_session (found subject) s = next subject
  checked_session absent s = return (show (record empty_page { require_sign_in = true }) s)
  checked_session failed s = return (stop s)

  -- To the session in the cache, whose key is the result.
  unfoldable pub find_session : Provider → OAuth2UrlQuery → Cached redis → Step String
  find_session p q s = do
    return_if (not (is_valid_authorization_request q)) (show empty_page s)
    return_if (not (p.is_url q.redirect_uri)) (show empty_page s)
    key ← or_stop redis (session_key p q.session_id q.subject_id) (stop s)
    subject ← checked_session (get_cached_session_subject redis p s.store key) s
    next key

  -- For the implicit flow: the key of the cached token, and how many there are.
  unfoldable pub count_cached_tokens :
      Provider → OAuth2UrlQuery → Cached redis → Step (Option String × ℕ)
  count_cached_tokens p q s =
      if q.response_type == "token"
      then (do
        key ← or_stop redis (generate_token_cache_id p q) (stop s)
        count ← or_stop redis (exists s.store key) none
        next (some key, count))
      else next (none, 0)

  -- `if len(authCliRes.UnauthorizedScopes) > 0 { … }`
  unfoldable pub request_grant :
      Provider
      → Moment
      → OAuth2UrlQuery
      → String
      → AuthorizeClientResponse
      → Cached redis
      → Option Authorized
  request_grant p m q key res s = run do
    nonce ← or_stop redis m.new_nonce (stop s)
    let grant = value_or "" (p.client_codec.marshal (authorize_client_request p q))
    let stored =
        set s.store (key ++ (":grt:" ++ nonce)) (of_text grant) p.authz.grant_request_duration
    let after = record s { store = stored.1 }
    return_if (not stored.0) (stop after)
    next (
        show
          (record {
            grant_nonce = nonce;
            scopes = q.scopes;
            client_name = res.client_name;
            require_sign_in = false;
          })
          after)

  -- `if existsCacheCount == 0 { … }`
  unfoldable pub authorize :
      Provider → Moment → OAuth2UrlQuery → String → ℕ → Cached redis → Step (Unit {0})
  unfolding request_grant
  authorize p m q key count s = if not (count == 0) then next tt else (do
    let served = authorize_client m.call.outage s.service.db (authorize_client_request p q)
    res ← or_stop redis (rpc redis m.delivery s (served, s)).0 (stop s)
    return_if (has_errors res.status) (finish (redirect_errors q (errors_of res) fresh) s)
    return_if (ltb 0 (length res.unauthorized_scopes)) (request_grant p m q key res s))
    where
      errors_of : AuthorizeClientResponse → List StatusError
      errors_of res = elim res.status [ none ↦ [] | some status ↦ status.errors ]

  -- `query.ResponseType == "code"`: the parameters of the redirect, and the state.
  unfoldable pub issue_code :
      Provider
      → Moment
      → HttpRequest
      → OAuth2UrlQuery
      → Cached redis
      → Step (List (String × String) × Cached redis)
  issue_code p m r q s = do
    salt ← or_stop redis m.salt none
    let user_agent = r.header "User-Agent"
    let code = p.sha1_hex (salt ++ user_agent)
    key ← or_stop redis (code_key p q.client_id code) (stop s)
    request ← or_stop redis (p.token_codec.marshal (code_request q)) (stop s)
    let stored = set s.store key (of_text request) p.authz.authorization_code_duration
    let after = record s { store = stored.1 }
    return_if (not stored.0) (stop after)
    let logged = record after {
      service = register_event (authorization_event q user_agent code) after.service;
    }
    let seen = rpc redis m.event_delivery after (tt {0}, logged)
    done ← or_stop redis seen.0 (stop seen.1)
    next (("code", code) ∷ [], seen.1)

  -- The token is noted under its key where none is cached; the key is then never nil.
  unfoldable pub cache_token :
      Provider → OAuth2UrlQuery → Option String × ℕ → Cached redis → Step (Cached redis)
  cache_token p q cached s = if not (cached.1 == 0) then next s else (do
    key ← or_stop redis cached.0 none
    let stored = set s.store key (of_text q.session_id) p.authz.access_token_duration
    return_if (not stored.0) (stop (record s { store = stored.1 }))
    next (record s { store = stored.1 }))

  -- `query.ResponseType == "token"`.
  unfoldable pub issue_token :
      Provider
      → Moment
      → OAuth2UrlQuery
      → Option String × ℕ
      → Cached redis
      → Step (List (String × String) × Cached redis)
  unfolding cache_token
  issue_token p m q cached s = do
    token ← or_stop redis (generate_jwt p.jose (implicit_claims p m q)) (stop s)
    after ← cache_token p q cached s
    next (("access_token", token) ∷ ("token_type", "access_token") ∷ [], after)

  unfoldable pub issue :
      Provider
      → Moment
      → HttpRequest
      → OAuth2UrlQuery
      → Option String × ℕ
      → Cached redis
      → Step (List (String × String) × Cached redis)
  unfolding issue_code issue_token
  issue p m r q cached s =
      if q.response_type == "code"
      then issue_code p m r q s
      else if q.response_type == "token"
      then issue_token p m q cached s
      else next ([], s)

  -- `AuthorizationHandler`
  unfoldable pub authorization_handler :
      Provider → Moment → HttpRequest → Cached redis → Option Authorized
  unfolding find_session count_cached_tokens authorize issue
  authorization_handler p m r s = run do
    q ← or_stop redis (authorization_query p r) none
    key ← find_session p q s
    cached ← count_cached_tokens p q s
    authorize p m q key cached.1 s
    issued ← issue p m r q cached s
    next (finish (with_parameters q issued.0 fresh) issued.1)

  -- `IndexHandler`, where the template is executed without an error.
  unfoldable pub index_handler : Provider → Moment → HttpRequest → Cached redis → Option (Out redis)
  unfolding authorization_handler
  index_handler p m r s = elim (authorization_handler p m r s) [
    | none ↦ none
    | some a ↦
        some (if a.shows_page then write (page a.replacers) a.response else a.response, a.state)
  ]
