-- ===== src/Provider/Activation/Laws.antt =====
-- What activating a session takes: the challenge of the browser and the activation code.
use Prim.Native.String.{◌++◌}
use mono_sso.Prelude.{
  String, ◌≡◌, ◌≢◌, refl, sym, ◌∙◌, ap, inl, inr, false, Option, none, some, arith, Option-cases,
  eq_iff, nat_eq, string_eq,
}
use mono_sso.Prelude.Flow.{return, next, Flow-cases}
use mono_sso.Cache.Redis.{Redis, RedisLaws, Reply-cases}
use mono_sso.Service.Activation.{
  Cached, ActivateSessionRequest, activation_key, validate_activation_code,
}
use mono_sso.Constants.{ResponseStatus}
use mono_sso.Service.Activation.Laws.{validate_activation_code-keeps}
use mono_sso.Service.Account.{activate_session}
use mono_sso.Service.Account.Laws.{activate_session_consumes}
use mono_sso.Provider.Http.{
  HttpRequest, Response, decoded, cookie_value, read_json_request_body, as_json, fresh,
}
use mono_sso.Provider.Messages.{ActivationRequest, SessionSubject, Content}
use mono_sso.Provider.World.{
  Provider, Moment, hash_challenge, challenge_key, session_cookie_key, session_key, has_errors, Out,
}
use mono_sso.Provider.World.Laws.{challenge_key-differs, update_session_subject-keeps}
use mono_sso.Provider.Grants.{session_cookie}
use mono_sso.Provider.Grants.Laws.{session_cookie-next, session_cookie-return}
use mono_sso.Provider.Activation.{
  take_challenge, current_session, activate_session_request, ask_activation, renew_session,
  since_expiry, activate_session_handler,
}

module _ (redis : Redis) (laws : RedisLaws redis) (p : Provider) where
  open redis use {Value, to_text, take}
  open laws use {holds, take_found, set_others}

  take_challenge-next :
      (r : HttpRequest) (req : ActivationRequest) (key : String) (w : Response Content)
      (s s' : Cached redis)
      → ((text : String) → p.sha1_hex text ≢ "")
      → take_challenge redis p r req key w s ≡ next s'
      → (value : Value) × (holds s.store (challenge_key key) ≡ some value)
        × (to_text value ≡ hash_challenge p (r.header "User-Agent") req.challenge)
        × (holds s'.store (challenge_key key) ≡ none)
        × (s' ≡ record s { store = (take s.store (challenge_key key)).1 })
  unfolding take_challenge hash_challenge
  take_challenge-next r req key w s s' hashes h =
      let hash = p.sha1_hex (r.header "User-Agent" ++ req.challenge) in
      elim (Reply-cases (take s.store (challenge_key key)).0) [
        | inl (value, there) ↦
            let (held, gone) = take_found s.store (challenge_key key) value there in
            let left : s' ≡ record s { store = (take s.store (challenge_key key)).1 } =
              ground arith in
            (value, held, ground (arith, eq_iff (to_text value) hash), rw left gone, left)
        | inr (inl missing) ↦
            absurd (ground (arith, eq_iff "" hash, hashes (r.header "User-Agent" ++ req.challenge)))
        | inr (inr missing) ↦
            absurd (ground (arith, eq_iff "" hash, hashes (r.header "User-Agent" ++ req.challenge)))
      ]

  take_challenge-return :
      (r : HttpRequest) (req : ActivationRequest) (key : String) (w : Response Content)
      (s : Cached redis) (out : Out redis)
      → w.status ≡ none
      → take_challenge redis p r req key w s ≡ return out
      → out.0.status ≡ some 403
  unfolding take_challenge
  take_challenge-return r req key w s out f h = ground arith

  current_session-return :
      (key : String) (w : Response Content) (s : Cached redis) (out : Out redis)
      → w.status ≡ none
      → current_session redis p key w s ≡ return out
      → (out.0.status ≡ some 200 → ⊥)
  unfolding current_session
  current_session-return key w s out f h = ground arith

  ask_activation-return :
      (m : Moment) (req : ActivateSessionRequest) (w : Response Content) (s : Cached redis)
      (out : Out redis)
      → w.status ≡ none
      → ask_activation redis m req w s ≡ return out
      → (out.0.status ≡ some 200 → ⊥)
  unfolding ask_activation
  ask_activation-return m req w s out f h = ground arith

  activate_session-status :
      (m : Moment) (req : ActivateSessionRequest) (s s' : Cached redis)
      (status : Option ResponseStatus)
      → activate_session redis m.codes req s ≡ some (status, s')
      → has_errors status ≡ false
      → status ≡ none
  unfolding activate_session
  activate_session-status m req s s' status h fine = ground arith

  ask_activation-next :
      (m : Moment) (req : ActivateSessionRequest) (w : Response Content) (s s' : Cached redis)
      → ask_activation redis m req w s ≡ next s'
      → activate_session redis m.codes req s ≡ some (none, s')
  unfolding ask_activation
  ask_activation-next m req w s s' h = elim (Option-cases (activate_session redis m.codes req s)) [
    | inl e ↦ absurd (ground arith)
    | inr ((status, t), e) ↦
        let same : t ≡ s' = ground arith in
        let fine : status ≡ none = activate_session-status m req s t status e (ground arith) in
        rw (same, fine) at e
  ]

  activate_session-keeps :
      (m : Moment) (req : ActivateSessionRequest) (s s' : Cached redis) (j : String)
      → activate_session redis m.codes req s ≡ some (none, s')
      → holds s.store j ≡ none
      → holds s'.store j ≡ none
  unfolding activate_session
  activate_session-keeps m req s s' j h missing =
      elim (Option-cases (validate_activation_code redis m.codes req s)) [
        | inl e ↦ absurd (ground arith)
        | inr ((v, t), e) ↦
            let same : t ≡ s' = ground arith in
            validate_activation_code-keeps redis laws m.codes req s s' v j (rw same at e) missing
      ]

  renew_session-keeps :
      (m : Moment) (key : String) (subject : SessionSubject) (w : Response Content)
      (s : Cached redis)
      → holds s.store (challenge_key key) ≡ none
      → holds (renew_session redis p m key subject w s).1.store (challenge_key key) ≡ none
  unfolding renew_session
  renew_session-keeps m key subject w s missing =
      update_session_subject-keeps redis laws p s.store key
        (record subject { activated_at = m.now }) (since_expiry m.later subject) (challenge_key key)
        (challenge_key-differs key)
      ∙ missing

  -- The steps of an activation that succeeds, from the key of the session on.
  record Activated (m : Moment) (req : ActivationRequest) (r : HttpRequest) (s : Cached redis)
      (session key : String) (out : Out redis) : Type 0 where
    pub subject : SessionSubject
    pub after : Cached redis
    pub served : Cached redis
    pub taken : take_challenge redis p r req key (as_json fresh) s ≡ next after
    pub asked :
        ask_activation redis m (activate_session_request r req session) (as_json fresh) after
        ≡ next served
    pub left : out ≡ renew_session redis p m key subject (as_json fresh) served

  activate_session_handler-Activated :
      (m : Moment) (req : ActivationRequest) (r : HttpRequest) (s : Cached redis)
      (session key : String)
      → session_cookie redis p r (as_json fresh) s ≡ next session
      → session_key p session req.subject ≡ some key
      → (activate_session_handler redis p m (decoded req) r s).0.status ≡ some 200
      → Activated m req r s session key (activate_session_handler redis p m (decoded req) r s)
  unfolding activate_session_handler read_json_request_body
  activate_session_handler-Activated m req r s session key e f h =
      let w : Response Content = as_json fresh in
      let asks = activate_session_request r req session in
      elim (Flow-cases (take_challenge redis p r req key w s)) [
        | inl (out, c) ↦ absurd (ground (arith, take_challenge-return r req key w s out refl c))
        | inr (after, c) ↦ elim (Flow-cases (current_session redis p key w after)) [
          | inl (out, d) ↦ absurd (ground (arith, current_session-return key w after out refl d))
          | inr (subject, d) ↦ elim (Flow-cases (ask_activation redis m asks w after)) [
            | inl (out, g) ↦
                absurd (ground (arith, ask_activation-return m asks w after out refl g))
            | inr (served, g) ↦ record {
              subject = subject;
              after = after;
              served = served;
              taken = c;
              asked = g;
              left = rw (e, f, c, d, g) refl;
            }
          ]
        ]
      ]

  -- A session is activated only with its challenge and an activation code: the hash of the challenge
  -- in the body and the user agent is in the cache for the session of the cookie and the subject,
  -- and is gone afterwards, and an activation code of the session, for that user agent, is held for
  -- the subject when sso-service is called. SHA-1 is never the empty text.
  pub activate_session_handler_checks :
      (m : Moment) (req : ActivationRequest) (r : HttpRequest) (s : Cached redis)
      → ((text : String) → p.sha1_hex text ≢ "")
      → let out = activate_session_handler redis p m (decoded req) r s in
        let user_agent = r.header "User-Agent" in
        out.0.status ≡ some 200
        → (session : String) × (key : String) × (challenge : Value) × (code_key : String)
          × (code : Value) × (r.cookie (session_cookie_key p.authn) ≡ cookie_value session)
          × (session_key p session req.subject ≡ some key)
          × (holds s.store (challenge_key key) ≡ some challenge)
          × (to_text challenge ≡ hash_challenge p user_agent req.challenge)
          × (holds out.1.store (challenge_key key) ≡ none)
          × (activation_key m.codes session req.activation_code user_agent ≡ some code_key)
          × (holds (take s.store (challenge_key key)).1 code_key ≡ some code)
          × (to_text code ≡ req.subject)
  unfolding activate_session_handler read_json_request_body activate_session_request
  activate_session_handler_checks m req r s hashes h =
      elim (Flow-cases (session_cookie redis p r (as_json fresh) s)) [
        | inl (out, e) ↦
            absurd
              (ground (arith, session_cookie-return redis laws p r (as_json fresh) s out refl e))
        | inr (session, e) ↦ elim (Option-cases (session_key p session req.subject)) [
          | inl f ↦ absurd (ground arith)
          | inr (key, f) ↦
              let x = activate_session_handler-Activated m req r s session key e f h in
              let asks = activate_session_request r req session in
              let (challenge, held, same, gone, after) =
                take_challenge-next r req key (as_json fresh) s x.after hashes x.taken in
              let activates = ask_activation-next m asks (as_json fresh) x.after x.served x.asked in
              let (code_key, code, named, code_held, subject, used) =
                activate_session_consumes redis laws m.codes asks x.after x.served activates in
              (
                session,
                key,
                challenge,
                code_key,
                code,
                session_cookie-next redis laws p r (as_json fresh) s session e,
                f,
                held,
                same,
                ap (λ o. holds o.1.store (challenge_key key)) x.left
                    ∙ renew_session-keeps m key x.subject (as_json fresh) x.served (
                        activate_session-keeps m asks x.after x.served (challenge_key key) activates
                          gone),
                named,
                ap (λ t. holds t.store code_key) (sym after) ∙ code_held,
                subject,
              )
        ]
      ]
