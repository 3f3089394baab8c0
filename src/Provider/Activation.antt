-- ===== src/Provider/Activation.antt =====
-- pkg/handlers/authentication.go: `ActivateSessionHandler`.
pub mod Laws
use mono_sso.Prelude.{
  String, Bool, true, false, not, Option, none, some, List, [], ◌∷◌, ◌==◌, string_eq, if◌then◌else◌,
}
use mono_sso.Prelude.Int.{ℤ, pos, ◌+ℤ◌, negate, ltb_ℤ}
use mono_sso.Prelude.Flow.{Flow, return, next, ◌>>=◌, ◌>>◌, run, return_if}
use mono_sso.Constants.{ResponseStatus, invalid_activation_response}
use mono_sso.Cache.Redis.{Redis, Reply, found, absent, failed}
use mono_sso.Service.Activation.{Cached, ActivateSessionRequest, activation_key}
use mono_sso.Service.Account.{activate_session}
use mono_sso.Provider.Http.{
  HttpRequest, Response, JsonBody, fresh, answer, write, read_json_request_body,
}
use mono_sso.Provider.Messages.{
  ActivationRequest, SessionSubject, Content, literal, refused_status, activated,
}
use mono_sso.Provider.World.{
  Provider, Moment, hash_challenge, challenge_key, Delivery, answered, unanswered, undelivered,
  session_key, update_session_subject, has_errors, internal_error, Out, rpc, or_stop,
}
use mono_sso.Provider.Grants.{unauthorized, with_state, session_cookie}

unfoldable pub activate_session_request :
    HttpRequest → ActivationRequest → String → ActivateSessionRequest
activate_session_request r req session = record {
  activation_code = req.activation_code;
  subject = req.subject;
  user_agent = r.header "User-Agent";
  session_id = session;
}

-- `time.Since` of the expiry: the time that has passed since then.
unfoldable pub since_expiry : ℤ → SessionSubject → ℤ
since_expiry now subject =
    if ltb_ℤ (pos 0) subject.expires_at then now +ℤ negate subject.expires_at else pos 0

module _ (redis : Redis) where
  open redis use {Store, Value, to_text, get, take}

  -- `getClg.Val()`, the empty string where there is no value.
  abbrev text_of : Reply Value → String
  text_of (found value) = to_text value
  text_of absent = ""
  text_of failed = ""

  -- The challenge is used up, whether it is the right one or not.
  unfoldable pub take_challenge :
      Provider
      → HttpRequest
      → ActivationRequest
      → String
      → Response Content
      → Cached redis
      → Flow (Out redis) (Cached redis)
  take_challenge p r req key w s = do
    let taken = take s.store (challenge_key key)
    let after = record s { store = taken.1 }
    return_if (not (text_of taken.0 == hash_challenge p (r.header "User-Agent") req.challenge))
        (answer 403 (literal invalid_activation_response) w, after)
    next after

  -- The session in the cache; the error of `proto.Unmarshal` is not looked at.
  unfoldable pub current_session :
      Provider → String → Response Content → Cached redis → Flow (Out redis) SessionSubject
  current_session p key w s = elim (get s.store key) [
    | found value ↦ next (p.subject_codec.unmarshal (to_text value)).1
    | absent ↦ return (unauthorized w, s)
    | failed ↦ return (internal_error w, s)
  ]

  -- Where sso-service exits, the call fails; its transaction on the code has then been sent.
  abbrev exited : Moment → ActivateSessionRequest → Cached redis → Cached redis
  exited m req s = elim (activation_key m.codes req.session_id req.activation_code req.user_agent) [
    | none ↦ s
    | some key ↦ record s { store = (take s.store key).1 }
  ]

  abbrev lost : Delivery → Delivery
  lost undelivered = undelivered
  lost answered = unanswered
  lost unanswered = unanswered

  abbrev served :
      Moment
      → ActivateSessionRequest
      → Cached redis
      → Option (Option ResponseStatus × Cached redis)
      → Option (Option ResponseStatus) × Cached redis
  served m req s none = rpc redis (lost m.delivery) s (none, exited m req s)
  served m req s (some done) = rpc redis m.delivery s done

  -- The call of sso-service.
  unfoldable pub ask_activation :
      Moment
      → ActivateSessionRequest
      → Response Content
      → Cached redis
      → Flow (Out redis) (Cached redis)
  ask_activation m req w s = do
    let seen = served m req s (activate_session redis m.codes req s)
    status ← or_stop redis seen.0 (internal_error w, seen.1)
    return_if (has_errors status) (answer 403 (refused_status status) w, seen.1)
    next seen.1

  -- From the answer of sso-service to the end; the error of `UpdateSessionSubject` is not looked at.
  unfoldable pub renew_session :
      Provider → Moment → String → SessionSubject → Response Content → Cached redis → Out redis
  renew_session p m key subject w s =
      let saved =
        update_session_subject redis p s.store key (record subject { activated_at = m.now })
          (since_expiry m.later subject) in
      (write (activated subject.expires_at) w, record s { store = saved.1 })

  -- `ActivateSessionHandler`
  unfoldable pub activate_session_handler :
      Provider → Moment → JsonBody ActivationRequest → HttpRequest → Cached redis → Out redis
  unfolding take_challenge current_session ask_activation renew_session
  activate_session_handler p m body r s = run do
    read ← with_state redis (read_json_request_body literal body fresh) s
    session ← session_cookie redis p r read.1 s
    key ← or_stop redis (session_key p session read.0.subject) (internal_error read.1, s)
    after ← take_challenge p r read.0 key read.1 s
    subject ← current_session p key read.1 after
    served ← ask_activation m (activate_session_request r read.0 session) read.1 after
    next (renew_session p m key subject read.1 served)
