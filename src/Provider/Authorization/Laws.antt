-- ===== src/Provider/Authorization/Laws.antt =====
-- What the steps of `AuthorizationHandler` have checked when they go on.
use mono_sso.Prelude.{
  ℕ, String, ◌≡◌, ◌∙◌, ap, inl, inr, true, Option, none, some, List, [], ◌∷◌, arith, Option-cases,
  ◌==◌, nat_eq, string_eq, if◌then◌else◌,
}
use mono_sso.Prelude.Flow.{return, next}
use mono_sso.Cache.Redis.{Redis, Reply-cases, found}
use mono_sso.Service.Activation.{Cached}
use mono_sso.Service.Authorization.{authorize_client}
use mono_sso.Provider.Http.{HttpRequest}
use mono_sso.Provider.Messages.{OAuth2UrlQuery, SessionSubject}
use mono_sso.Provider.World.{
  Provider, Moment, is_valid_authorization_request, session_key, get_cached_session_subject,
}
use mono_sso.Provider.Authorization.{
  authorize_client_request, Authorized, find_session, count_cached_tokens, authorize, request_grant,
  issue_code, issue_token, issue,
}

-- A parameter of a redirect.
abbrev pub parameter : String → List (String × String) → Option String
parameter name [] = none
parameter name ((key, value) ∷ rest) = if key == name then some value else parameter name rest

abbrev pub parameter_of : String → Option (String × List (String × String)) → Option String
parameter_of name none = none
parameter_of name (some (url, parameters)) = parameter name parameters

module _ (redis : Redis) where
  -- The code that a response redirects with.
  abbrev pub code_of : Option (Authorized redis) → Option String
  code_of none = none
  code_of (some a) = parameter_of "code" a.response.location

  pub find_session-next :
      (p : Provider) (q : OAuth2UrlQuery) (s : Cached redis) (key : String)
      → find_session redis p q s ≡ next key
      → (is_valid_authorization_request q ≡ true)
        × (session_key p q.session_id q.subject_id ≡ some key)
        × ((subject : SessionSubject) × (get_cached_session_subject redis p s.store key
              ≡ found subject))
  unfolding find_session
  find_session-next p q s key h = elim (Option-cases (session_key p q.session_id q.subject_id)) [
    | inl e ↦ absurd (ground arith)
    | inr (k, e) ↦ elim (Reply-cases (get_cached_session_subject redis p s.store k)) [
      | inl (subject, there) ↦
          let same : k ≡ key = ground arith in
          (ground arith, e ∙ ap some same, (subject, rw same at there))
      | inr (inl missing) ↦ absurd (ground arith)
      | inr (inr missing) ↦ absurd (ground arith)
    ]
  ]

  pub find_session-return :
      (p : Provider) (q : OAuth2UrlQuery) (s : Cached redis) (a : Option (Authorized redis))
      → find_session redis p q s ≡ return a
      → code_of a ≡ none
  unfolding find_session
  find_session-return p q s a h = ground arith

  pub count_cached_tokens-return :
      (p : Provider) (q : OAuth2UrlQuery) (s : Cached redis) (a : Option (Authorized redis))
      → count_cached_tokens redis p q s ≡ return a
      → code_of a ≡ none
  unfolding count_cached_tokens
  count_cached_tokens-return p q s a h = ground arith

  request_grant-code_of :
      (p : Provider) (m : Moment) (q : OAuth2UrlQuery) (key : String)
      (res : mono_sso.Service.Authorization.AuthorizeClientResponse) (s : Cached redis)
      → code_of (request_grant redis p m q key res s) ≡ none
  unfolding request_grant
  request_grant-code_of p m q key res s = ground arith

  pub authorize-return :
      (p : Provider) (m : Moment) (q : OAuth2UrlQuery) (key : String) (n : ℕ) (s : Cached redis)
      (a : Option (Authorized redis))
      → authorize redis p m q key n s ≡ return a
      → code_of a ≡ none
  unfolding authorize
  authorize-return p m q key n s a h = ground arith

  -- The client is authorized where no token was found in the cache.
  pub authorize-next :
      (p : Provider) (m : Moment) (q : OAuth2UrlQuery) (key : String) (s : Cached redis)
      → authorize redis p m q key 0 s ≡ next tt
      → let res = authorize_client m.call.outage s.service.db (authorize_client_request p q) in
        (res.status ≡ none) × (res.unauthorized_scopes ≡ [])
  unfolding authorize authorize_client
  authorize-next p m q key s h = (ground arith, ground arith)

  issue_code-return :
      (p : Provider) (m : Moment) (r : HttpRequest) (q : OAuth2UrlQuery) (s : Cached redis)
      (a : Option (Authorized redis))
      → issue_code redis p m r q s ≡ return a
      → code_of a ≡ none
  unfolding issue_code
  issue_code-return p m r q s a h = ground arith

  issue_token-return :
      (p : Provider) (m : Moment) (q : OAuth2UrlQuery) (cached : Option String × ℕ)
      (s : Cached redis) (a : Option (Authorized redis))
      → issue_token redis p m q cached s ≡ return a
      → code_of a ≡ none
  unfolding issue_token
  issue_token-return p m q cached s a h = ground arith

  pub issue-return :
      (p : Provider) (m : Moment) (r : HttpRequest) (q : OAuth2UrlQuery)
      (cached : Option String × ℕ) (s : Cached redis) (a : Option (Authorized redis))
      → issue redis p m r q cached s ≡ return a
      → code_of a ≡ none
  unfolding issue
  issue-return p m r q cached s a h =
      ground (arith, issue_code-return p m r q s a, issue_token-return p m q cached s a)

  pub issue_token-next :
      (p : Provider) (m : Moment) (q : OAuth2UrlQuery) (cached : Option String × ℕ)
      (s : Cached redis) (out : List (String × String) × Cached redis)
      → issue_token redis p m q cached s ≡ next out
      → parameter "code" out.0 ≡ none
  unfolding issue_token
  issue_token-next p m q cached s out h = ground arith
