-- ===== src/Service/Activation/Laws.antt =====
-- What an activation code is good for.
use mono_sso.Prelude.{
  String, ◌≡◌, refl, sym, ◌∙◌, ap, ◌⊎◌, inl, inr, true, false, Bool, ◌&&◌, not, Option, none, some,
  arith, Option-cases, Bool-cases, ◌==◌, eq_iff, nat_eq, string_eq,
}
use mono_sso.Cache.Redis.{Redis, RedisLaws, Reply-cases, found, absent, failed}
use mono_sso.Cache.Ids.{create_id}
use mono_sso.Datastore.{ActivationMethod}
use mono_sso.Service.State.{Platform}
use mono_sso.Service.Activation.{
  SignInRequest, ActivateSessionRequest, Codes, Cached, Validity, has_no_code, activation_key,
  new_activation_code, generate_activation_code, validate_activation_code,
}

-- The key of an activation code is never an error.
activation_key-some :
    (codes : Codes) (session code user_agent : String)
    → (key : String) × (activation_key codes session code user_agent ≡ some key)
unfolding activation_key create_id
activation_key-some codes session code user_agent = (_, refl)

module _ (redis : Redis) (laws : RedisLaws redis) where
  open redis use {Value, of_text, to_text, take, exec_fails, set}
  open laws use {holds, take_none, take_others, take_found, set_done, text_of_text, exec_absent}

  taken :
      (codes : Codes) (req : ActivateSessionRequest) (s s' : Cached redis) (v : Validity redis)
      (key : String) (value : Value)
      → activation_key codes req.session_id req.activation_code req.user_agent ≡ some key
      → (take s.store key).0 ≡ found value
      → validate_activation_code redis codes req s ≡ some (v, s')
      → v.valid ≡ true
      → (to_text value ≡ req.subject) × (s'.store ≡ (take s.store key).1)
  unfolding validate_activation_code
  taken codes req s s' v key value named there h valid =
      (ground (arith, eq_iff (to_text value) req.subject), ground arith)

  not_taken :
      (codes : Codes) (req : ActivateSessionRequest) (s s' : Cached redis) (v : Validity redis)
      (key : String)
      → activation_key codes req.session_id req.activation_code req.user_agent ≡ some key
      → ((take s.store key).0 ≡ absent) ⊎ ((take s.store key).0 ≡ failed)
      → validate_activation_code redis codes req s ≡ some (v, s')
      → v.valid ≡ false
  unfolding validate_activation_code
  not_taken codes req s s' v key named (inl e) h = ground arith
  not_taken codes req s s' v key named (inr e) h = ground arith

  -- A code that `validateActivationCode` finds valid was held for the subject of the request, at
  -- the key of its session, code and user agent, and is gone afterwards.
  pub validate_activation_code_consumes :
      (codes : Codes) (req : ActivateSessionRequest) (s s' : Cached redis) (v : Validity redis)
      → validate_activation_code redis codes req s ≡ some (v, s')
      → v.valid ≡ true
      → (key : String) × (value : Value) × (activation_key codes req.session_id req.activation_code
            req.user_agent
          ≡ some key)
        × (holds s.store key ≡ some value)
        × (to_text value ≡ req.subject)
        × (holds s'.store key ≡ none)
  validate_activation_code_consumes codes req s s' v h valid =
      let (key, named) =
        activation_key-some codes req.session_id req.activation_code req.user_agent in
      elim (Reply-cases (take s.store key).0) [
        | inr other ↦ absurd (true≢false (sym valid ∙ not_taken codes req s s' v key named other h))
        | inl (value, there) ↦
            let (same, store) = taken codes req s s' v key value named there h valid in
            let (held, gone) = take_found s.store key value there in
            (key, value, named, held, same, rw store gone)
      ]
    where
      true≢false : true ≡ false → ⊥
      true≢false e = cc

  -- A code that the cache does not hold, because it is wrong, expired or used, ends the process:
  -- the transaction reports the missing value as an error, and the code takes this for a failure
  -- of Redis.
  pub validate_activation_code_exits :
      (codes : Codes) (req : ActivateSessionRequest) (s : Cached redis) (key : String)
      → activation_key codes req.session_id req.activation_code req.user_agent ≡ some key
      → holds s.store key ≡ none
      → validate_activation_code redis codes req s ≡ none
  unfolding validate_activation_code
  validate_activation_code_exits codes req s key named gone =
      rw (named, exec_absent s.store key gone)

  -- The call returns, with a valid code and no error.
  abbrev pub is_valid : Option (Validity redis × Cached redis) → Bool
  is_valid none = false
  is_valid (some (v, s)) = v.valid && not v.is_error

  generated :
      (platform : Platform) (codes : Codes) (method : ActivationMethod) (subject : String)
      (req : SignInRequest) (s : Cached redis) (key : String)
      → activation_key codes req.session_id (new_activation_code codes) req.user_agent ≡ some key
      → has_no_code method ≡ false
      → (generate_activation_code redis platform codes method subject req s).0 ≡ true
      → holds (generate_activation_code redis platform codes method subject req s).1.store key
        ≡ some (of_text subject)
  unfolding generate_activation_code
  generated platform codes method subject req s key named coded h =
      elim (Option-cases (platform.parse_duration req.activation_code_duration)) [
        | inl e ↦ absurd (ground arith)
        | inr (d, e) ↦
            rw (coded, named, e)
              (set_done s.store key (of_text subject) d (rw (coded, named, e) at h))
      ]

  -- The code that `generateActivationCode` has stored for an account activates the session: a
  -- request with that code for the same account, session and user agent is valid, where the
  -- transaction of the check succeeds and finds a value.
  pub validate_activation_code-generate_activation_code :
      (platform : Platform) (codes : Codes) (method : ActivationMethod) (subject : String)
      (req : SignInRequest) (s : Cached redis) (key : String) (value : Value)
      → has_no_code method ≡ false
      → activation_key codes req.session_id (new_activation_code codes) req.user_agent ≡ some key
      → (generate_activation_code redis platform codes method subject req s).0 ≡ true
      → let s' = (generate_activation_code redis platform codes method subject req s).1 in
        exec_fails s'.store key ≡ false
        → (take s'.store key).0 ≡ found value
        → is_valid (
            validate_activation_code redis codes
              (record {
                activation_code = new_activation_code codes;
                subject = subject;
                user_agent = req.user_agent;
                session_id = req.session_id;
              })
              s')
          ≡ true
  unfolding validate_activation_code
  validate_activation_code-generate_activation_code platform codes method subject req s key value
        coded named h works there =
      let s' = (generate_activation_code redis platform codes method subject req s).1 in
      let held = generated platform codes method subject req s key named coded h in
      let same : to_text value ≡ subject =
        ap to_text (some-injective (sym (take_found s'.store key value there).0 ∙ held))
        ∙ text_of_text subject in
      rw (named, works, there, same, (eq_iff subject subject).1 refl)
    where
      some-injective : {x y : Value} → some x ≡ some y → x ≡ y
      some-injective e = cc

  take-keeps : (s : redis.Store) (k j : String) → holds s j ≡ none → holds (take s k).1 j ≡ none
  take-keeps s k j h = elim (Bool-cases (j == k)) [
    | inl t ↦ let e = (eq_iff j k).0 t in rw e (take_none s k (rw e at h))
    | inr f ↦ take_others s k j (λ e. true≢false (sym ((eq_iff j k).1 e) ∙ f)) ∙ h
  ]
    where
      true≢false : true ≡ false → ⊥
      true≢false e = cc

  -- What was not in the cache before `validateActivationCode` is not in it afterwards.
  pub validate_activation_code-keeps :
      (codes : Codes) (req : ActivateSessionRequest) (s s' : Cached redis) (v : Validity redis)
      (j : String)
      → validate_activation_code redis codes req s ≡ some (v, s')
      → holds s.store j ≡ none
      → holds s'.store j ≡ none
  unfolding validate_activation_code
  validate_activation_code-keeps codes req s s' v j h missing =
      let (key, named) =
        activation_key-some codes req.session_id req.activation_code req.user_agent in
      let left : s'.store ≡ (take s.store key).1 = ground arith in
      rw left (take-keeps s.store key j missing)
