-- ===== src/Provider/Authentication.antt =====
-- pkg/handlers/authentication.go: `AuthenticateHandler`.
pub mod Laws
pub mod Opened
use Prim.Native.String.{◌++◌}
use mono_sso.Prelude.{
  ℕ, String, Bool, true, false, ◌&&◌, not, Option, none, some, List, [], ◌∷◌, ◌==◌, nat_eq,
  string_eq, if◌then◌else◌,
}
use mono_sso.Prelude.Int.{ℤ, pos, negsuc, ◌+ℤ◌}
use mono_sso.Prelude.Flow.{Flow, return, next, ◌>>=◌, ◌>>◌, run, return_if}
use mono_sso.Constants.{invalid_recaptcha_response}
use mono_sso.Cache.Redis.{Redis, Reply, found, absent, failed}
use mono_sso.Datastore.{ActivationMethod}
use mono_sso.Service.Activation.{Cached, SignInRequest}
use mono_sso.Service.Account.{SignInResponse, sign_in}
use mono_sso.Provider.Http.{
  HttpRequest, HttpClientIps, client_ips_from_request, Response, CookieReply, cookie_value,
  no_cookie, unreadable_cookie, Cookie, JsonBody, fresh, answer, write, set_cookie,
  read_json_request_body,
}
use mono_sso.Provider.Messages.{
  AuthenticationRequest, SessionSubject, Content, literal, refused_sign_in, authenticated,
}
use mono_sso.Provider.World.{
  Provider, Moment, session_cookie_key, subject_cookie_key, get_expiration_from_authentication,
  session_key, hash_challenge, challenge_key, get_cached_session_subject, update_session_subject,
  has_errors, internal_error, Out, rpc, or_stop,
}
use mono_sso.Provider.Grants.{with_state}

unfoldable pub sign_in_request :
    Provider → HttpRequest → HttpClientIps → AuthenticationRequest → String → SignInRequest
sign_in_request p r ips req session = record {
  identifier = req.identifier;
  password = req.password;
  user_agent = r.header "User-Agent";
  source_ip = ips.source_ip;
  client_ip = ips.client_ip;
  forwarded_ips = ips.forwarded_ips;
  session_id = session;
  activation_code_duration = p.format_duration p.authn.mfa_session_duration;
  tenant_id = p.authn.tenant_id;
}

-- A method for which the session is active at once.
abbrev pub is_single_factor : ActivationMethod → Bool
is_single_factor ActivationMethod.none_method = true
is_single_factor _ = false

abbrev pub is_inactive : SessionSubject → Bool
is_inactive subject = is_zero subject.activated_at
  where
    is_zero : ℤ → Bool
    is_zero (pos n) = n == 0
    is_zero (negsuc n) = false

abbrev expires_if : Bool → ℤ → Option ℤ
expires_if true t = some t
expires_if false t = none

abbrev sent_session : Provider → String → Option ℤ → Cookie
sent_session p session expires = record {
  name = session_cookie_key p.authn;
  value = session;
  domain = p.authn.session_cookie_domain;
  path = p.authn.session_cookie_path;
  http_only = true;
  expires = expires;
}

abbrev sent_subject : Provider → String → Cookie
sent_subject p subject = record {
  name = subject_cookie_key p.authn;
  value = subject;
  domain = p.authn.session_cookie_domain;
  path = p.authn.session_cookie_path;
  http_only = false;
  expires = none;
}

abbrev session_cookies : Provider → String → String → Option ℤ → Response Content → Response Content
session_cookies p session subject expires w =
    set_cookie (sent_subject p subject) (set_cookie (sent_session p session expires) w)

abbrev name_of : Option String → String
name_of none = ""
name_of (some name) = name

module _ (redis : Redis) where
  open redis use {Store, of_text, set}

  -- The session of the cookie, or a new one. After an error of the generator the handler writes its
  -- response and goes on, with the text of an empty identifier.
  unfoldable pub session_of :
      Provider
      → Moment
      → HttpRequest
      → Response Content
      → Cached redis
      → String
      → Flow (Out redis) (String × Response Content)
  session_of p m r w s empty_id = elim (r.cookie (session_cookie_key p.authn)) [
    | cookie_value value ↦ next (value, w)
    | unreadable_cookie ↦ return (internal_error w, s)
    | no_cookie ↦ elim m.new_session_id [
      | some id ↦ next (id, w)
      | none ↦ next (empty_id, internal_error w)
    ]
  ]

  -- The subject of the session in the cache, or a new one.
  abbrev subject_or_new :
      Moment
      → Reply SessionSubject
      → Response Content
      → Cached redis
      → Flow (Out redis) SessionSubject
  subject_or_new m (found subject) w s = next subject
  subject_or_new m failed w s = return (internal_error w, s)
  subject_or_new m absent w s =
      next (record { authenticated_at = m.now; activated_at = pos 0; expires_at = pos 0 })

  -- To the answer of sso-service: the session, the response so far, the answer and the state.
  pub record SignedIn : Type 0 where
    pub session : String
    pub writer : Response Content
    pub answer : SignInResponse
    pub state : Cached redis

  unfoldable pub ask_sign_in :
      Provider
      → Moment
      → String
      → AuthenticationRequest
      → Response Content
      → HttpRequest
      → Cached redis
      → Flow (Out redis) SignedIn
  unfolding session_of
  ask_sign_in p m empty_id req w r s = do
    ips ← or_stop redis (client_ips_from_request r) (internal_error w, s)
    return_if (not (m.recaptcha_confirms ips.source_ip req.recaptcha_response))
        (mono_sso.Provider.Http.answer 403 (literal invalid_recaptcha_response) w, s)
    session ← session_of p m r w s empty_id
    let served = sign_in redis p.platform m.codes m.call (sign_in_request p r ips req session.0) s
    let seen = rpc redis m.delivery s served
    res ← or_stop redis seen.0 (internal_error session.1, seen.1)
    return_if (has_errors res.status)
        (mono_sso.Provider.Http.answer 403 (refused_sign_in res) session.1, seen.1)
    next (record { session = session.0; writer = session.1; answer = res; state = seen.1 })

  -- What the second half of the handler has in its variables.
  pub record Signing : Type 0 where
    pub writer : Response Content
    pub subject : SessionSubject
    pub challenge : String
    pub expiration : ℤ
    pub state : Cached redis

  -- The two branches on the activation method. After an error of the generator the handler writes
  -- its response and goes on, as above.
  unfoldable pub challenge_session :
      Provider
      → Moment
      → String
      → HttpRequest
      → String
      → ActivationMethod
      → Signing
      → Flow (Out redis) Signing
  challenge_session p m empty_id r key method g =
      if is_single_factor method
      then next
          (record g { subject = record g.subject { activated_at = g.subject.authenticated_at } })
      else (do
        let challenge = id_or m.new_challenge
        let w = written m.new_challenge
        let stored =
            set g.state.store (challenge_key key)
              (of_text (hash_challenge p (r.header "User-Agent") challenge))
              p.authn.mfa_session_duration
        let after = record g.state { store = stored.1 }
        return_if (not stored.0) (internal_error w, after)
        next (record {
          writer = w;
          subject = g.subject;
          challenge = challenge;
          expiration = if is_inactive g.subject then p.authn.mfa_session_duration else g.expiration;
          state = after;
        }))
    where
      id_or : Option String → String
      id_or none = empty_id
      id_or (some id) = id

      written : Option String → Response Content
      written none = internal_error g.writer
      written (some id) = g.writer

  -- `UpdateSessionSubject` and the answer.
  unfoldable pub save_session :
      Provider → String → SignedIn → ℤ → Signing → Flow (Out redis) (Out redis)
  save_session p key signed expires_at g = do
    let saved = update_session_subject redis p g.state.store key g.subject g.expiration
    let after = record g.state { store = saved.1 }
    return_if (not saved.0) (internal_error g.writer, after)
    next (
      write
          (authenticated (record {
            challenge = g.challenge;
            activation_method = signed.answer.activation_method;
            subject = signed.answer.subject;
            expiration = expires_at;
            name = name_of signed.answer.profile;
          }))
          g.writer,
      after,
    )

  -- From the answer of sso-service to the end.
  unfoldable pub open_session :
      Provider
      → Moment
      → String
      → HttpRequest
      → AuthenticationRequest
      → SignedIn
      → Flow (Out redis) (Out redis)
  unfolding challenge_session save_session
  open_session p m empty_id r req signed = do
    let s = signed.state
    let subject_id = signed.answer.subject
    key ← or_stop redis (session_key p signed.session subject_id) (internal_error signed.writer, s)
    subject ← subject_or_new m (get_cached_session_subject redis p s.store key) signed.writer s
    let chosen = get_expiration_from_authentication p.authn req
    let expires = m.later +ℤ chosen.0
    let remembered = if chosen.1 then record subject { expires_at = expires } else subject
    g ← challenge_session p m empty_id r key signed.answer.activation_method (record {
      writer =
          session_cookies p signed.session subject_id (expires_if chosen.1 expires) signed.writer;
      subject = remembered;
      challenge = "";
      expiration = chosen.0;
      state = s;
    })
    save_session p key signed remembered.expires_at g

  -- `AuthenticateHandler`; `empty_id` is what `Base32` makes of the result of a generator that has
  -- failed.
  unfoldable pub authenticate_handler :
      Provider
      → Moment
      → String
      → JsonBody AuthenticationRequest
      → HttpRequest
      → Cached redis
      → Out redis
  unfolding ask_sign_in open_session
  authenticate_handler p m empty_id body r s = run do
    read ← with_state redis (read_json_request_body literal body fresh) s
    signed ← ask_sign_in p m empty_id read.0 read.1 r s
    open_session p m empty_id r read.0 signed
