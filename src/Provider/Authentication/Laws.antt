-- ===== src/Provider/Authentication/Laws.antt =====
-- What signing in checks, and the session and the challenge that it leaves in the cache.
use mono_sso.Prelude.{
  String, ◌≡◌, ◌⊎◌, inl, inr, true, false, none, some, [], ◌∷◌, ◌++◌, refl, In, In-append_left,
  In-append_right, arith, Option-cases, nat_eq, string_eq,
}
use mono_sso.Prelude.Flow.{return, next, Flow-cases}
use mono_sso.Cache.Redis.{Redis}
use mono_sso.Datastore.{ActivationMethod}
use mono_sso.Service.Activation.{Cached, SignInRequest, Codes}
use mono_sso.Service.{Call, Platform}
use mono_sso.Service.Account.{sign_in}
use mono_sso.Provider.Http.{
  Cookie, cookie_value, no_cookie, CookieReply-cases, HttpRequest, HttpClientIps,
  client_ips_from_request, Response, as_json, fresh,
}
use mono_sso.Provider.Messages.{AuthenticationRequest, Content}
use mono_sso.Provider.World.{
  Provider, Moment, session_cookie_key, get_expiration_from_authentication, has_errors, Out,
}
use mono_sso.Prelude.Int.{◌+ℤ◌}
use mono_sso.Provider.Authentication.{
  sent_session, sent_subject, expires_if, SignedIn, Signing, sign_in_request, session_of,
  ask_sign_in, challenge_session, save_session, open_session,
}

module _ (redis : Redis) (p : Provider) where
  pub sign_in-profile :
      (platform : Platform) (codes : Codes) (call : Call) (req : SignInRequest) (s : Cached redis)
      → has_errors (sign_in redis platform codes call req s).0.status ≡ false
      → (name : String) × ((sign_in redis platform codes call req s).0.profile ≡ some name)
  unfolding sign_in
  sign_in-profile platform codes call req s h =
      elim (Option-cases (sign_in redis platform codes call req s).0.profile) [
        | inl e ↦ absurd (ground arith)
        | inr found_name ↦ found_name
      ]

  -- The session is that of the cookie; without the cookie, it is new.
  abbrev pub IsSessionOf : Moment → HttpRequest → String → Type 0
  IsSessionOf m r session =
      (r.cookie (session_cookie_key p.authn) ≡ cookie_value session)
      ⊎ ((r.cookie (session_cookie_key p.authn) ≡ no_cookie) × (m.new_session_id ≡ some session))

  session_of-IsSessionOf :
      (m : Moment) (r : HttpRequest) (w : Response Content) (s : Cached redis) (empty_id : String)
      (session : String × Response Content)
      → w.status ≡ none
      → session_of redis p m r w s empty_id ≡ next session
      → session.1.status ≡ none
      → IsSessionOf m r session.0
  unfolding session_of
  session_of-IsSessionOf m r w s empty_id session clean h kept =
      elim (CookieReply-cases (r.cookie (session_cookie_key p.authn))) [
        | inl (value, e) ↦ inl (ground arith)
        | inr (inl e) ↦ elim (Option-cases m.new_session_id) [
          | inl failed ↦ absurd (ground arith)
          | inr (id, given) ↦ inr (e, ground arith)
        ]
        | inr (inr e) ↦ absurd (ground arith)
      ]

  -- What a sign-in that sso-service has answered has passed.
  pub record Asked (m : Moment) (req : AuthenticationRequest) (r : HttpRequest) (s : Cached redis)
      (g : SignedIn redis) : Type 0 where
    pub ips : HttpClientIps
    pub from : client_ips_from_request r ≡ some ips
    pub confirmed : m.recaptcha_confirms ips.source_ip req.recaptcha_response ≡ true
    pub answered_by :
        let asks = sign_in_request p r ips req g.session in
        (g.answer ≡ (sign_in redis p.platform m.codes m.call asks s).0)
        × (g.state ≡ (sign_in redis p.platform m.codes m.call asks s).1)
    pub fine : has_errors g.answer.status ≡ false
    pub session : g.writer.status ≡ none → IsSessionOf m r g.session

  pub ask_sign_in-Asked :
      (m : Moment) (empty_id : String) (req : AuthenticationRequest) (w : Response Content)
      (r : HttpRequest) (s : Cached redis) (g : SignedIn redis)
      → w.status ≡ none
      → ask_sign_in redis p m empty_id req w r s ≡ next g
      → Asked m req r s g
  unfolding ask_sign_in
  ask_sign_in-Asked m empty_id req w r s g clean h =
      elim (Option-cases (client_ips_from_request r)) [
        | inl e ↦ absurd (ground arith)
        | inr (ips, e) ↦ elim (Flow-cases (session_of redis p m r w s empty_id)) [
          | inl (out, f) ↦ absurd (ground arith)
          | inr (session, f) ↦
              let asks = sign_in_request p r ips req session.0 in
              let answer : g.answer ≡ (sign_in redis p.platform m.codes m.call asks s).0 =
                ground arith in
              let state : g.state ≡ (sign_in redis p.platform m.codes m.call asks s).1 =
                ground arith in
              let name : session.0 ≡ g.session = ground arith in
              let writer : g.writer ≡ session.1 = ground arith in
              record {
                ips = ips;
                from = e;
                confirmed = ground arith;
                answered_by = (rw name at answer, rw name at state);
                fine = ground arith;
                session = λ kept.
                    rw (← name) (
                      session_of-IsSessionOf m r w s empty_id session clean f (rw (← writer) kept));
              }
        ]
      ]

  pub not_asked :
      (m : Moment) (empty_id : String) (req : AuthenticationRequest) (r : HttpRequest)
      (s : Cached redis) (out : Out redis)
      → ask_sign_in redis p m empty_id req (as_json fresh) r s ≡ return out
      → (out.0.status ≡ some 200 → ⊥)
  unfolding ask_sign_in session_of
  not_asked m empty_id req r s out h = ground arith

  pub asked_writer :
      (m : Moment) (empty_id : String) (req : AuthenticationRequest) (r : HttpRequest)
      (s : Cached redis) (g : SignedIn redis)
      → ask_sign_in redis p m empty_id req (as_json fresh) r s ≡ next g
      → (g.writer.status ≡ some 200 → ⊥)
  unfolding ask_sign_in session_of
  asked_writer m empty_id req r s g h = ground arith

  challenge_session-return :
      (m : Moment) (empty_id : String) (r : HttpRequest) (key : String) (method : ActivationMethod)
      (g : Signing redis) (out : Out redis)
      → challenge_session redis p m empty_id r key method g ≡ return out
      → (g.writer.status ≡ some 200 → ⊥)
      → (out.0.status ≡ some 200 → ⊥)
  unfolding challenge_session
  challenge_session-return m empty_id r key method g out h fine = ground arith

  pub open_session-return :
      (m : Moment) (empty_id : String) (req : AuthenticationRequest) (r : HttpRequest)
      (g : SignedIn redis) (out : Out redis)
      → open_session redis p m empty_id r req g ≡ return out
      → (g.writer.status ≡ some 200 → ⊥)
      → (out.0.status ≡ some 200 → ⊥)
  unfolding open_session challenge_session save_session
  open_session-return m empty_id req r g out h fine = ground arith

  -- A sign-in that is answered with 200 had no status before.
  pub open_session-clean :
      (m : Moment) (empty_id : String) (req : AuthenticationRequest) (r : HttpRequest)
      (g : SignedIn redis) (out : Out redis)
      → open_session redis p m empty_id r req g ≡ next out
      → out.0.status ≡ some 200
      → (g.writer.status ≡ some 200 → ⊥)
      → g.writer.status ≡ none
  unfolding open_session challenge_session save_session
  open_session-clean m empty_id req r g out h fine before = ground arith

  -- The response carries the session in its cookie.
  abbrev pub SendsSession : String → Response Content → Type 0
  SendsSession session w =
      (c : Cookie) × In c w.cookies × (c.name ≡ session_cookie_key p.authn) × (c.value ≡ session)

  pub open_session-SendsSession :
      (m : Moment) (empty_id : String) (req : AuthenticationRequest) (r : HttpRequest)
      (g : SignedIn redis) (out : Out redis)
      → open_session redis p m empty_id r req g ≡ next out
      → g.writer.status ≡ none
      → SendsSession g.session out.0
  unfolding open_session challenge_session save_session
  open_session-SendsSession m empty_id req r g out h clean =
      let chosen = get_expiration_from_authentication p.authn req in
      let expires = expires_if chosen.1 (m.later +ℤ chosen.0) in
      let sent : out.0.cookies
          ≡ (g.writer.cookies ++ sent_session p g.session expires ∷ [])
            ++ sent_subject p g.answer.subject ∷ [] =
        ground arith in
      (
        sent_session p g.session expires,
        rw sent (In-append_left _ _ _ (In-append_right _ g.writer.cookies _ (inl refl))),
        refl,
        refl,
      )
