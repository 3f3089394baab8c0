-- ===== src/Provider/Grants.antt =====
-- pkg/handlers/authorization.go: `GrantScopesHandler`.
pub mod Laws
use mono_sso.Prelude.{
  String, Bool, true, false, not, Option, none, some, List, [], ◌∷◌, if◌then◌else◌,
}
use mono_sso.Prelude.Flow.{Flow, return, next, ◌>>=◌, ◌>>◌, run, return_if}
use mono_sso.Constants.{unauthorized_response, ok_response}
use mono_sso.Cache.Redis.{Redis, Reply, found, absent, failed}
use mono_sso.Cache.Ids.{str, rune, create_id}
use mono_sso.Service.Activation.{Cached}
use mono_sso.Service.Authorization.{AuthorizeClientRequest, GrantScopesRequest, grant_scopes}
use mono_sso.Provider.Http.{
  HttpRequest, Response, CookieReply, cookie_value, no_cookie, unreadable_cookie, JsonBody, fresh,
  answer, read_json_request_body,
}
use mono_sso.Provider.Messages.{GrantRequest, Content, literal, refused_status}
use mono_sso.Provider.World.{
  Provider, Moment, session_cookie_key, has_errors, internal_error, Out, rpc, or_stop,
}

-- `CreateID(":sess:", sessID, ':', subject, ":grt:", nonce)`
unfoldable pub grant_key : Provider → String → String → String → Option String
grant_key p session subject nonce =
    create_id p.prefix
      (str ":sess:" ∷ str session ∷ rune ":" ∷ str subject ∷ str ":grt:" ∷ str nonce ∷ [])

unfoldable pub grant_scopes_request :
    Provider → GrantRequest → AuthorizeClientRequest → GrantScopesRequest
grant_scopes_request p req stored = record {
  client_id = stored.client_id;
  subject = req.subject;
  scopes = stored.scopes;
  tenant_id = p.authn.tenant_id;
}

abbrev pub unauthorized : Response Content → Response Content
unauthorized w = answer 401 (literal unauthorized_response) w

module _ (redis : Redis) where
  open redis use {Store, Value, to_text, take}

  -- `return` where a step has returned, with the state.
  abbrev pub with_state :
      {A : Type 0} → Flow (Response Content) A → Cached redis → Flow (Out redis) A
  with_state (return w) s = return (w, s)
  with_state (next a) s = next a

  -- The value of the session cookie.
  abbrev pub session_cookie :
      Provider → HttpRequest → Response Content → Cached redis → Flow (Out redis) String
  session_cookie p r w s = elim (r.cookie (session_cookie_key p.authn)) [
    | cookie_value value ↦ next value
    | no_cookie ↦ return (unauthorized w, s)
    | unreadable_cookie ↦ return (unauthorized w, s)
  ]

  abbrev taken_grant : Reply Value → Response Content → Cached redis → Flow (Out redis) Value
  taken_grant (found value) w s = next value
  taken_grant absent w s = return (unauthorized w, s)
  taken_grant failed w s = return (unauthorized w, s)

  abbrev decoded_grant :
      Bool × AuthorizeClientRequest
      → Response Content
      → Cached redis
      → Flow (Out redis) AuthorizeClientRequest
  decoded_grant (true, stored) w s = next stored
  decoded_grant (false, stored) w s = return (internal_error w, s)

  -- The request that was stored under the nonce, which is used up.
  unfoldable pub take_grant :
      Provider
      → String
      → GrantRequest
      → Response Content
      → Cached redis
      → Flow (Out redis) (AuthorizeClientRequest × Cached redis)
  take_grant p session req w s = do
    key ← or_stop redis (grant_key p session req.subject req.nonce) (internal_error w, s)
    let after = record s { store = (take s.store key).1 }
    value ← taken_grant (take s.store key).0 w after
    stored ← decoded_grant (p.client_codec.unmarshal (to_text value)) w after
    next (stored, after)

  -- The call of sso-service.
  unfoldable pub ask_grant :
      Provider → Moment → GrantScopesRequest → Response Content → Cached redis → Out redis
  ask_grant p m req w s = run do
    let served = grant_scopes m.call req s.service
    let seen = rpc redis m.delivery s (served.0, record s { service = served.1 })
    status ← or_stop redis seen.0 (internal_error w, seen.1)
    return_if (has_errors status) (answer 403 (refused_status status) w, seen.1)
    next (answer 200 (literal ok_response) w, seen.1)

  -- `GrantScopesHandler`; whether the user has granted the scopes is not looked at.
  unfoldable pub grant_scopes_handler :
      Provider → Moment → JsonBody GrantRequest → HttpRequest → Cached redis → Out redis
  unfolding take_grant ask_grant
  grant_scopes_handler p m body r s = run do
    read ← with_state (read_json_request_body literal body fresh) s
    session ← session_cookie p r read.1 s
    grant ← take_grant p session read.0 read.1 s
    next (ask_grant p m (grant_scopes_request p read.0 grant.0) read.1 grant.1)
