-- ===== src/Provider/Grants/Laws.antt =====
-- What a grant uses up, and what it grants.
use mono_sso.Prelude.{
  ℕ, false, String, ◌≡◌, refl, sym, ◌∙◌, ap, inl, inr, true, none, some, [], arith, Option-cases,
  nat_eq, string_eq,
}
use mono_sso.Prelude.Flow.{return, next, Flow-cases}
use mono_sso.Datastore.{Statement}
use mono_sso.Cache.Redis.{Redis, RedisLaws, Reply-cases}
use mono_sso.Service.Activation.{Cached}
use mono_sso.Service.Authorization.{AuthorizeClientRequest, GrantScopesRequest, grant_scopes}
use mono_sso.Service.Scopes.{unauthorized_rows}
use mono_sso.Service.Authorization.Grants.{grant_scopes_authorizes}
use mono_sso.Provider.Http.{
  HttpRequest, Response, decoded, cookie_value, read_json_request_body, as_json, fresh,
}
use mono_sso.Provider.Messages.{GrantRequest, Content}
use mono_sso.Provider.World.{Provider, Moment, session_cookie_key, Out}
use mono_sso.Provider.Grants.{
  grant_key, grant_scopes_request, take_grant, ask_grant, grant_scopes_handler, session_cookie,
}

module _ (redis : Redis) (laws : RedisLaws redis) (p : Provider) where
  open redis use {to_text, take}
  open laws use {holds, take_found}

  take_grant-next :
      (session : String) (req : GrantRequest) (w : Response Content) (s s' : Cached redis)
      (stored : AuthorizeClientRequest)
      → take_grant redis p session req w s ≡ next (stored, s')
      → (key : String) × (value : redis.Value) × (grant_key p session req.subject req.nonce
          ≡ some key)
        × (holds s.store key ≡ some value)
        × (holds s'.store key ≡ none)
        × (p.client_codec.unmarshal (to_text value) ≡ (true, stored))
        × (s'.service ≡ s.service)
  unfolding take_grant
  take_grant-next session req w s s' stored h =
      elim (Option-cases (grant_key p session req.subject req.nonce)) [
        | inl e ↦ absurd (ground arith)
        | inr (key, e) ↦ elim (Reply-cases (take s.store key).0) [
          | inr (inl missing) ↦ absurd (ground arith)
          | inr (inr missing) ↦ absurd (ground arith)
          | inl (value, there) ↦
              let (held, gone) = take_found s.store key value there in
              let left : s'.store ≡ (take s.store key).1 = ground arith in
              (key, value, e, held, rw left gone, ground arith, ground arith)
        ]
      ]

  take_grant-return :
      (session : String) (req : GrantRequest) (w : Response Content) (s : Cached redis)
      (out : Out redis)
      → w.status ≡ none
      → take_grant redis p session req w s ≡ return out
      → (out.0.status ≡ some 200 → ⊥)
  unfolding take_grant
  take_grant-return session req w s out f h = ground arith

  ask_grant-status :
      (m : Moment) (req : GrantScopesRequest) (w : Response Content) (s : Cached redis)
      → w.status ≡ none
      → (ask_grant redis p m req w s).0.status ≡ some 200
      → ((grant_scopes m.call req s.service).0 ≡ none)
        × ((ask_grant redis p m req w s).1.service ≡ (grant_scopes m.call req s.service).1)
        × ((ask_grant redis p m req w s).1.store ≡ s.store)
  unfolding ask_grant grant_scopes
  ask_grant-status m req w s f h = (ground arith, ground arith, ground arith)

  pub session_cookie-next :
      (r : HttpRequest) (w : Response Content) (s : Cached redis) (session : String)
      → session_cookie redis p r w s ≡ next session
      → r.cookie (session_cookie_key p.authn) ≡ cookie_value session
  session_cookie-next r w s session h = ground arith

  pub session_cookie-return :
      (r : HttpRequest) (w : Response Content) (s : Cached redis) (out : Out redis)
      → w.status ≡ none
      → session_cookie redis p r w s ≡ return out
      → out.0.status ≡ some 401
  session_cookie-return r w s out f h = ground arith

  -- The scopes are granted only under a nonce that is in the cache for the session of the cookie
  -- and the subject of the body, and is gone afterwards; then no scope of the authorization request
  -- that was stored with it is unauthorized any more, where sso-service could fetch every row of its
  -- two queries. It does not matter whether the body says that
  -- the user has granted them.
  pub grant_scopes_handler_grants :
      (m : Moment) (req : GrantRequest) (r : HttpRequest) (s : Cached redis)
      → let out = grant_scopes_handler redis p m (decoded req) r s in
        ((i : ℕ) → m.call.outage (Statement.next_unauthorized_scope i) ≡ false)
        → ((i : ℕ) → m.call.outage (Statement.next_scope_id i) ≡ false)
        → out.0.status ≡ some 200
        → (session : String) × (key : String) × (value : redis.Value)
          × (stored : AuthorizeClientRequest) × (r.cookie (session_cookie_key p.authn)
              ≡ cookie_value session)
          × (grant_key p session req.subject req.nonce ≡ some key)
          × (holds s.store key ≡ some value)
          × (holds out.1.store key ≡ none)
          × (p.client_codec.unmarshal (to_text value) ≡ (true, stored))
          × (unauthorized_rows stored.client_id req.subject out.1.service.db stored.scopes ≡ [])
  unfolding grant_scopes_handler read_json_request_body grant_scopes_request
  grant_scopes_handler_grants m req r s whole whole_ids h =
      elim (Flow-cases (session_cookie redis p r (as_json fresh) s)) [
        | inl (out, e) ↦
            absurd (ground (arith, session_cookie-return r (as_json fresh) s out refl e))
        | inr (session, e) ↦ elim (Flow-cases (take_grant redis p session req (as_json fresh) s)) [
          | inl (out, f) ↦
              absurd (ground (arith, take_grant-return session req (as_json fresh) s out refl f))
          | inr ((stored, s'), f) ↦
              let (key, value, named, held, gone, read, same) =
                take_grant-next session req (as_json fresh) s s' stored f in
              let asks = grant_scopes_request p req stored in
              let left : grant_scopes_handler redis p m (decoded req) r s
                  ≡ ask_grant redis p m asks (as_json fresh) s' =
                rw (e, f) refl in
              let (done, service, store) =
                ask_grant-status m asks (as_json fresh) s' refl
                  (ap (λ o. o.0.status) (sym left) ∙ h) in
              (
                session,
                key,
                value,
                stored,
                session_cookie-next r (as_json fresh) s session e,
                named,
                held,
                ap (λ o. holds o.1.store key) left ∙ ap (λ t. holds t key) store ∙ gone,
                read,
                rw (left, service)
                    (grant_scopes_authorizes m.call asks s'.service whole whole_ids done),
              )
        ]
      ]
