-- ===== src/Provider/Authentication/Opened.antt =====
-- What a sign-in that goes through leaves in the cache.
use mono_sso.Prelude.{
  String, utf8, ◌≡◌, ◌≢◌, refl, sym, ◌∙◌, ap, inl, inr, true, false, some, [], ◌∷◌, ◌++◌, In,
  In-append_right, arith, Option-cases, if◌then◌else◌, nat_eq, string_eq,
}
use mono_sso.Prelude.Int.{ℤ, ◌+ℤ◌}
use mono_sso.Prelude.Flow.{next, Flow-cases}
use mono_sso.Cache.Redis.{Redis, RedisLaws}
use mono_sso.Datastore.{ActivationMethod, AccountRow, ok}
use mono_sso.Service.{Call, Platform}
use mono_sso.Service.Activation.{Cached, SignInRequest, Codes}
use mono_sso.Service.Account.{sign_in, select_account}
use mono_sso.Service.Account.Laws.{sign_in_checks}
use mono_sso.Provider.Http.{HttpRequest, decoded, read_json_request_body, as_json, fresh}
use mono_sso.Provider.Messages.{
  AuthenticationRequest, AuthenticationResponse, SessionSubject, authenticated,
}
use mono_sso.Provider.World.{
  Provider, Moment, hash_challenge, challenge_key, session_key, get_cached_session_subject,
  update_session_subject, get_expiration_from_authentication, has_errors, Out,
}
use mono_sso.Provider.World.Laws.{
  challenge_key-differs, update_session_subject-keeps, update_session_subject-holds,
}
use mono_sso.Provider.Authentication.{
  SignedIn, Signing, sign_in_request, is_single_factor, ask_sign_in, subject_or_new,
  session_cookies, expires_if, challenge_session, save_session, name_of, open_session,
  authenticate_handler,
}
use mono_sso.Provider.Authentication.Laws.{
  sign_in-profile, ask_sign_in-Asked, not_asked, asked_writer, open_session-return, IsSessionOf,
  SendsSession, open_session-clean, open_session-SendsSession,
}

module _ (redis : Redis) (laws : RedisLaws redis) (p : Provider) where
  open redis use {of_text, set}
  open laws use {holds, set_done}

  challenge_session-single :
      (m : Moment) (empty_id : String) (r : HttpRequest) (key : String) (method : ActivationMethod)
      (g g' : Signing redis)
      → is_single_factor method ≡ true
      → challenge_session redis p m empty_id r key method g ≡ next g'
      → g'.subject.activated_at ≡ g'.subject.authenticated_at
  unfolding challenge_session
  challenge_session-single m empty_id r key method g g' single h = ground arith

  challenge_session-second :
      (m : Moment) (empty_id : String) (r : HttpRequest) (key : String) (method : ActivationMethod)
      (g g' : Signing redis)
      → is_single_factor method ≡ false
      → challenge_session redis p m empty_id r key method g ≡ next g'
      → holds g'.state.store (challenge_key key)
        ≡ some (of_text (hash_challenge p (r.header "User-Agent") g'.challenge))
  unfolding challenge_session
  challenge_session-second m empty_id r key method g g' second h =
      let text = of_text (hash_challenge p (r.header "User-Agent") g'.challenge) in
      let written : (set g.state.store (challenge_key key) text p.authn.mfa_session_duration).0
          ≡ true =
        ground arith in
      let left : g'.state.store
          ≡ (set g.state.store (challenge_key key) text p.authn.mfa_session_duration).1 =
        ground arith in
      rw left (set_done g.state.store (challenge_key key) text _ written)

  -- The answer, and the subject in the cache, with all else in it kept.
  save_session-next :
      (key : String) (signed : SignedIn redis) (expires_at : ℤ) (g : Signing redis)
      (out : Out redis)
      → save_session redis p key signed expires_at g ≡ next out
      → (answer : AuthenticationResponse) × (text : String) × In (authenticated answer) out.0.body
        × (answer.subject ≡ signed.answer.subject)
        × (answer.challenge ≡ g.challenge)
        × (p.subject_codec.marshal g.subject ≡ some text)
        × (holds out.1.store key ≡ some (of_text text))
        × ((j : String) → j ≢ key → holds out.1.store j ≡ holds g.state.store j)
  unfolding save_session
  save_session-next key signed expires_at g out h =
      let saved = update_session_subject redis p g.state.store key g.subject g.expiration in
      let done : saved.0 ≡ true = ground arith in
      let left : out.1.store ≡ saved.1 = ground arith in
      let (text, encoded, held) =
        update_session_subject-holds redis laws p g.state.store key g.subject g.expiration done in
      let answer : AuthenticationResponse = record {
        challenge = g.challenge;
        activation_method = signed.answer.activation_method;
        subject = signed.answer.subject;
        expiration = expires_at;
        name = name_of signed.answer.profile;
      } in
      let body : out.0.body ≡ g.writer.body ++ authenticated answer ∷ [] = ground arith in
      (
        answer,
        text,
        rw body (In-append_right (authenticated answer) g.writer.body _ (inl refl)),
        refl,
        refl,
        encoded,
        rw left held,
        λ j other. rw left (
            update_session_subject-keeps redis laws p g.state.store key g.subject g.expiration j
              other),
      )

  -- The session of a sign-in: the subject is in the cache, active at once where the account has no
  -- second factor; otherwise the hash of the challenge in the answer is in the cache too.
  pub record Opened (r : HttpRequest) (g : SignedIn redis) (out : Out redis) : Type 0 where
    pub key : String
    pub subject : SessionSubject
    pub text : String
    pub answer : AuthenticationResponse
    pub named : session_key p g.session g.answer.subject ≡ some key
    pub told : In (authenticated answer) out.0.body
    pub same_subject : answer.subject ≡ g.answer.subject
    pub encoded : p.subject_codec.marshal subject ≡ some text
    pub held : holds out.1.store key ≡ some (of_text text)
    pub single :
        is_single_factor g.answer.activation_method ≡ true
        → subject.activated_at ≡ subject.authenticated_at
    pub second :
        is_single_factor g.answer.activation_method ≡ false
        → holds out.1.store (challenge_key key)
          ≡ some (of_text (hash_challenge p (r.header "User-Agent") answer.challenge))

  opened :
      (m : Moment) (empty_id : String) (r : HttpRequest) (key : String) (signed : SignedIn redis)
      (g g' : Signing redis) (expires_at : ℤ) (out : Out redis)
      → session_key p signed.session signed.answer.subject ≡ some key
      → challenge_session redis p m empty_id r key signed.answer.activation_method g ≡ next g'
      → save_session redis p key signed expires_at g' ≡ next out
      → Opened r signed out
  opened m empty_id r key signed g g' expires_at out named challenged saved =
      let (answer, text, told, same, challenge, encoded, held, kept) =
        save_session-next key signed expires_at g' out saved in
      let method = signed.answer.activation_method in
      record {
        key = key;
        subject = g'.subject;
        text = text;
        answer = answer;
        named = named;
        told = told;
        same_subject = same;
        encoded = encoded;
        held = held;
        single = λ one. challenge_session-single m empty_id r key method g g' one challenged;
        second = λ two.
            kept (challenge_key key) (challenge_key-differs key)
            ∙ challenge_session-second m empty_id r key method g g' two challenged
            ∙ ap (λ c. some (of_text (hash_challenge p (r.header "User-Agent") c))) (sym challenge);
      }

  open_session-Opened :
      (m : Moment) (empty_id : String) (req : AuthenticationRequest) (r : HttpRequest)
      (g : SignedIn redis) (out : Out redis)
      → open_session redis p m empty_id r req g ≡ next out
      → Opened r g out
  unfolding open_session
  open_session-Opened m empty_id req r g out h =
      let chosen = get_expiration_from_authentication p.authn req in
      let expires = m.later +ℤ chosen.0 in
      elim (Option-cases (session_key p g.session g.answer.subject)) [
        | inl e ↦ absurd (ground arith)
        | inr (key, e) ↦
            elim (Flow-cases (
              subject_or_new redis m (get_cached_session_subject redis p g.state.store key) g.writer
                g.state)) [
                  | inl (x, f) ↦ absurd (ground arith)
                  | inr (subject, f) ↦
                      let remembered =
                        if chosen.1 then record subject { expires_at = expires } else subject in
                      let start : Signing redis = record {
                        writer =
                            session_cookies p g.session g.answer.subject
                              (expires_if chosen.1 expires) g.writer;
                        subject = remembered;
                        challenge = "";
                        expiration = chosen.0;
                        state = g.state;
                      } in
                      elim (Flow-cases (
                        challenge_session redis p m empty_id r key g.answer.activation_method
                          start)) [
                            | inl (x, k) ↦ absurd (ground arith)
                            | inr (g', k) ↦
                                let saved : save_session redis p key g remembered.expires_at g'
                                    ≡ next out =
                                  rw (e, f, k) at h in
                                opened m empty_id r key g start g' remembered.expires_at out e k
                                  saved
                          ]
                ]
      ]

  sign_in-method :
      (platform : Platform) (codes : Codes) (call : Call) (req : SignInRequest) (s : Cached redis)
      (acc : AccountRow) (hash : String)
      → select_account call.outage s.service.db req.identifier req.tenant_id ≡ ok (acc, hash)
      → platform.bcrypt_matches hash (utf8 req.password) ≡ true
      → (sign_in redis platform codes call req s).0.activation_method ≡ acc.activation_method
  unfolding sign_in
  sign_in-method platform codes call req s acc hash there matches = rw (there, matches) refl

  -- Whoever is answered with 200 has given the password of the live account that is found for the
  -- identifier in the tenant of the server. The session is the one of the cookie of the request, or,
  -- without such a cookie, the one that has just been generated; the response sets it as its cookie.
  -- The session and the subject are then in the cache: active
  -- at once where the account has no second factor; otherwise the hash of the challenge in the answer
  -- is in the cache too, for the session and the user agent.
  pub authenticate_handler_opens :
      (m : Moment) (empty_id : String) (req : AuthenticationRequest) (r : HttpRequest)
      (s : Cached redis)
      → let out = authenticate_handler redis p m empty_id (decoded req) r s in
        out.0.status ≡ some 200
        → (g : SignedIn redis) × (acc : AccountRow) × (hash : String) × (select_account
              m.call.outage s.service.db req.identifier p.authn.tenant_id
            ≡ ok (acc, hash))
          × (p.platform.bcrypt_matches hash (utf8 req.password) ≡ true)
          × (g.answer.subject ≡ acc.id)
          × (g.answer.activation_method ≡ acc.activation_method)
          × IsSessionOf redis p m r g.session
          × SendsSession redis p g.session out.0
          × Opened r g out
  unfolding authenticate_handler read_json_request_body sign_in_request
  authenticate_handler_opens m empty_id req r s h =
      elim (Flow-cases (ask_sign_in redis p m empty_id req (as_json fresh) r s)) [
        | inl (out, e) ↦ absurd (not_asked redis p m empty_id req r s out e (rw e at h))
        | inr (g, e) ↦ elim (Flow-cases (open_session redis p m empty_id r req g)) [
          | inl (out, f) ↦ absurd (
              open_session-return redis p m empty_id req r g out f
                (asked_writer redis p m empty_id req r s g e) (rw (e, f) at h))
          | inr (out, f) ↦
              let x = ask_sign_in-Asked redis p m empty_id req (as_json fresh) r s g refl e in
              let asks = sign_in_request p r x.ips req g.session in
              let (answer, state) = x.answered_by in
              let (name, profile) =
                sign_in-profile redis p p.platform m.codes m.call asks s
                  (ap (λ a. has_errors a.status) (sym answer) ∙ x.fine) in
              let (acc, hash, there, matches, subject) =
                sign_in_checks redis p.platform m.codes m.call asks s profile in
              let clean =
                open_session-clean redis p m empty_id req r g out f (rw (e, f) at h)
                  (asked_writer redis p m empty_id req r s g e) in
              (
                g,
                acc,
                hash,
                there,
                matches,
                ap (λ a. a.subject) answer ∙ subject,
                ap (λ a. a.activation_method) answer
                    ∙ sign_in-method p.platform m.codes m.call asks s acc hash there matches,
                x.session clean,
                rw (e, f) (open_session-SendsSession redis p m empty_id req r g out f clean),
                rw (e, f) (open_session-Opened m empty_id req r g out f),
              )
        ]
      ]
