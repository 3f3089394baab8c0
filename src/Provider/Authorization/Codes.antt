-- ===== src/Provider/Authorization/Codes.antt =====
-- The authorization codes that `AuthorizationHandler` issues, and their exchange.
use Prim.Native.String.{◌++◌}
use mono_sso.Prelude.{
  ℕ, String, ◌≡◌, sym, ◌∙◌, ap, subst, inl, inr, true, Option, none, some, List, [], arith,
  Option-cases, Bool-cases, eq_iff, ◌==◌, nat_eq, string_eq,
}
use mono_sso.Prelude.Flow.{next, Flow-cases}
use mono_sso.Cache.Redis.{Redis, RedisLaws, found}
use mono_sso.Service.Activation.{Cached}
use mono_sso.Service.Authorization.{authorize_client}
use mono_sso.Provider.Http.{HttpRequest}
use mono_sso.Provider.Messages.{OAuth2UrlQuery, SessionSubject}
use mono_sso.Provider.World.{
  Provider, Moment, session_key, code_key, get_cached_session_subject,
  is_valid_authorization_request,
}
use mono_sso.Provider.Authorization.{
  authorization_query, authorize_client_request, code_request, Authorized, find_session,
  count_cached_tokens, authorize, issue_code, issue_token, issue, authorization_handler,
}
use mono_sso.Provider.Authorization.Laws.{
  parameter, code_of, find_session-next, find_session-return, count_cached_tokens-return,
  authorize-next, authorize-return, issue-return, issue_token-next,
}

module _ (redis : Redis) (laws : RedisLaws redis) where
  open redis use {of_text, set}
  open laws use {holds, set_done}

  -- A code that has been issued, and what is stored with it.
  pub record IssuedCode (p : Provider) (m : Moment) (r : HttpRequest) (q : OAuth2UrlQuery)
      (s' : Cached redis) (code : String) : Type 0 where
    pub key : String
    pub request : String
    pub named : code_key p q.client_id code ≡ some key
    pub encoded : p.token_codec.marshal (code_request q) ≡ some request
    pub held : holds s'.store key ≡ some (of_text request)

  issue_code-IssuedCode :
      (p : Provider) (m : Moment) (r : HttpRequest) (q : OAuth2UrlQuery) (s s' : Cached redis)
      (parameters : List (String × String)) (code : String)
      → issue_code redis p m r q s ≡ next (parameters, s')
      → parameter "code" parameters ≡ some code
      → IssuedCode p m r q s' code
  unfolding issue_code
  issue_code-IssuedCode p m r q s s' parameters code h c = elim (Option-cases m.salt) [
    | inl e ↦ absurd (ground arith)
    | inr (salt, e) ↦
        let made = p.sha1_hex (salt ++ r.header "User-Agent") in
        elim (Option-cases (code_key p q.client_id made)) [
          | inl f ↦ absurd (ground arith)
          | inr (key, f) ↦ elim (Option-cases (p.token_codec.marshal (code_request q))) [
            | inl g ↦ absurd (ground arith)
            | inr (request, g) ↦
                let same : made ≡ code = ground arith in
                let written : (set s.store key (of_text request)
                      p.authz.authorization_code_duration).0
                    ≡ true =
                  ground arith in
                let left : s'.store
                    ≡ (set s.store key (of_text request) p.authz.authorization_code_duration).1 =
                  ground arith in
                record {
                  key = key;
                  request = request;
                  named = rw same at f;
                  encoded = g;
                  held = rw left (set_done s.store key (of_text request) _ written);
                }
          ]
        ]
  ]

  issue-IssuedCode :
      (p : Provider) (m : Moment) (r : HttpRequest) (q : OAuth2UrlQuery)
      (cached : Option String × ℕ) (s : Cached redis) (out : List (String × String) × Cached redis)
      (code : String)
      → issue redis p m r q cached s ≡ next out
      → parameter "code" out.0 ≡ some code
      → (q.response_type ≡ "code") × IssuedCode p m r q out.1 code
  unfolding issue
  issue-IssuedCode p m r q cached s out code h c = elim (Bool-cases (q.response_type == "code")) [
    | inl t ↦ (
      (eq_iff q.response_type "code").0 t,
      issue_code-IssuedCode p m r q s out.1 out.0 code (ground arith) c,
    )
    | inr f ↦ absurd (ground (arith, issue_token-next redis p m q cached s out))
  ]

  count-code :
      (p : Provider) (q : OAuth2UrlQuery) (s : Cached redis) (cached : Option String × ℕ)
      → q.response_type ≡ "code"
      → count_cached_tokens redis p q s ≡ next cached
      → cached.1 ≡ 0
  unfolding count_cached_tokens
  count-code p q s cached t h = let h' = rw t at h in ground arith

  issue_code-db :
      (p : Provider) (m : Moment) (r : HttpRequest) (q : OAuth2UrlQuery) (s : Cached redis)
      (out : List (String × String) × Cached redis)
      → issue_code redis p m r q s ≡ next out
      → out.1.service.db ≡ s.service.db
  unfolding issue_code
  issue_code-db p m r q s out h = ground arith

  issue_token-db :
      (p : Provider) (m : Moment) (q : OAuth2UrlQuery) (cached : Option String × ℕ)
      (s : Cached redis) (out : List (String × String) × Cached redis)
      → issue_token redis p m q cached s ≡ next out
      → out.1.service.db ≡ s.service.db
  unfolding issue_token
  issue_token-db p m q cached s out h = ground arith

  issue-db :
      (p : Provider) (m : Moment) (r : HttpRequest) (q : OAuth2UrlQuery)
      (cached : Option String × ℕ) (s : Cached redis) (out : List (String × String) × Cached redis)
      → issue redis p m r q cached s ≡ next out
      → out.1.service.db ≡ s.service.db
  unfolding issue
  issue-db p m r q cached s out h =
      ground (arith, issue_code-db p m r q s out, issue_token-db p m q cached s out)

  -- What lies behind a redirect with a code.
  pub record Authorization (p : Provider) (m : Moment) (r : HttpRequest) (s : Cached redis)
      (a : Authorized redis) (code : String) : Type 0 where
    pub query : OAuth2UrlQuery
    pub session : String
    pub subject : SessionSubject
    pub asked : authorization_query p r ≡ some query
    pub valid : is_valid_authorization_request query ≡ true
    pub named : session_key p query.session_id query.subject_id ≡ some session
    pub signed_in : get_cached_session_subject redis p s.store session ≡ found subject
    pub accepted :
        (authorize_client m.call.outage s.service.db (authorize_client_request p query)).status
        ≡ none
    pub granted :
        (authorize_client m.call.outage s.service.db
          (authorize_client_request p query)).unauthorized_scopes
        ≡ []
    pub issued : IssuedCode p m r query a.state code
    pub same_tables : a.state.service.db ≡ s.service.db

  -- The steps that a redirect with a code has passed.
  record Passed (p : Provider) (m : Moment) (r : HttpRequest) (s : Cached redis)
      (a : Authorized redis) (code : String) : Type 0 where
    pub query : OAuth2UrlQuery
    pub key : String
    pub cached : Option String × ℕ
    pub out : List (String × String) × Cached redis
    pub asked : authorization_query p r ≡ some query
    pub found_session : find_session redis p query s ≡ next key
    pub counted : count_cached_tokens redis p query s ≡ next cached
    pub authorized : authorize redis p m query key cached.1 s ≡ next tt
    pub issued : issue redis p m r query cached s ≡ next out
    pub code_issued : parameter "code" out.0 ≡ some code
    pub left : a.state ≡ out.1

  authorization_handler-Passed :
      (p : Provider) (m : Moment) (r : HttpRequest) (s : Cached redis) (a : Authorized redis)
      (code : String)
      → authorization_handler redis p m r s ≡ some a
      → code_of redis (some a) ≡ some code
      → Passed p m r s a code
  unfolding authorization_handler
  authorization_handler-Passed p m r s a code h c = elim (Option-cases (authorization_query p r)) [
    | inl e ↦ absurd (ground arith)
    | inr (q, e) ↦ elim (Flow-cases (find_session redis p q s)) [
      | inl (x, f) ↦ absurd (ground (arith, find_session-return redis p q s x f))
      | inr (key, f) ↦ elim (Flow-cases (count_cached_tokens redis p q s)) [
        | inl (x, g) ↦ absurd (ground (arith, count_cached_tokens-return redis p q s x g))
        | inr (cached, g) ↦ elim (Flow-cases (authorize redis p m q key cached.1 s)) [
          | inl (x, k) ↦ absurd (ground (arith, authorize-return redis p m q key cached.1 s x k))
          | inr (tt, k) ↦ elim (Flow-cases (issue redis p m r q cached s)) [
            | inl (x, l) ↦ absurd (ground (arith, issue-return redis p m r q cached s x l))
            | inr (out, l) ↦ record {
              query = q;
              key = key;
              cached = cached;
              out = out;
              asked = e;
              found_session = f;
              counted = g;
              authorized = k;
              issued = l;
              code_issued = ground arith;
              left = ground arith;
            }
          ]
        ]
      ]
    ]
  ]

  -- A code is issued only to a browser whose cookies name a session of the subject in the cache, for
  -- a client that `AuthorizeClient` accepts, reporting no scope that is left to grant; it is then in
  -- the cache, under the tenant and the client, with the session, the subject, the scopes and the
  -- redirect URI of the request.
  pub authorization_handler-Authorization :
      (p : Provider) (m : Moment) (r : HttpRequest) (s : Cached redis) (a : Authorized redis)
      (code : String)
      → authorization_handler redis p m r s ≡ some a
      → code_of redis (some a) ≡ some code
      → Authorization p m r s a code
  authorization_handler-Authorization p m r s a code h c =
      let x = authorization_handler-Passed p m r s a code h c in
      let (valid, named, (subject, there)) =
        find_session-next redis p x.query s x.key x.found_session in
      let (is_code, issued) =
        issue-IssuedCode p m r x.query x.cached s x.out code x.issued x.code_issued in
      let none_cached = count-code p x.query s x.cached is_code x.counted in
      let (accepted, granted) =
        authorize-next redis p m x.query x.key s (rw none_cached at x.authorized) in
      record {
        query = x.query;
        session = x.key;
        subject = subject;
        asked = x.asked;
        valid = valid;
        named = named;
        signed_in = there;
        accepted = accepted;
        granted = granted;
        issued = subst (λ t. IssuedCode p m r x.query t code) (sym x.left) issued;
        same_tables =
            ap (λ t. t.service.db) x.left ∙ issue-db p m r x.query x.cached s x.out x.issued;
      }
