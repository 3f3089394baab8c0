-- ===== src/Cache/Purge/Laws.antt =====
-- Which keys the purges remove, and which they leave.
use mono_sso.Prelude.{
  ℕ, String, ◌≡◌, ◌≢◌, refl, sym, ◌∙◌, inl, inr, Bool, true, false, not, Option, none, some, List,
  [], ◌∷◌, In, eq_iff, arith, Option-cases, Bool-cases, ◌==◌, nat_eq, string_eq,
}
use mono_sso.Prelude.Int.{ℤ, pos}
use mono_sso.Cache.Redis.{Redis, RedisLaws}
use mono_sso.Cache.Purge.{
  Purged, Round, broken, nothing, deleted, round, del_found, code_pattern, purge_client_cache,
  session_or_any, session_pattern, subject_token_pattern, activation_pattern, purge_subject_cache,
  go_on, add_round, after_codes,
}

module _ (redis : Redis) (laws : RedisLaws redis) where
  open redis use {Store, Value, keys, del}
  open laws use {holds, matches, keys_sound, keys_complete, del_done, del_none, del_others}

  -- The store that a round leaves.
  abbrev after : Store → Round redis → Store
  after s (broken s') = s'
  after s nothing = s
  after s (deleted n s') = s'

  abbrev succeeds : Round redis → Bool
  succeeds (broken s') = false
  succeeds nothing = true
  succeeds (deleted n s') = true

  -- A key at which the store holds nothing that the pattern matches.
  abbrev pub Cleared : Store → String → Type 0
  Cleared s pattern = (k : String) → matches pattern k ≡ true → holds s k ≡ none

  -- Deleting what KEYS has found leaves nothing that the pattern matches.
  del_clears :
      (s : Store) (pattern : String) (ks : List String) (n : ℕ)
      → keys s pattern ≡ some ks
      → (del s ks).0 ≡ some n
      → Cleared (del s ks).1 pattern
  del_clears s pattern ks n found done k m = elim (Option-cases (holds s k)) [
    | inl e ↦ del_none s ks k e
    | inr (v, e) ↦ del_done s ks n k done (keys_complete s pattern ks k v found m e)
  ]

  del_found_clears :
      (s : Store) (pattern : String) (ks : List String)
      → keys s pattern ≡ some ks
      → succeeds (del_found redis s ks) ≡ true
      → Cleared (after s (del_found redis s ks)) pattern
  del_found_clears s pattern [] found done k m = elim (Option-cases (holds s k)) [
    | inl e ↦ e
    | inr (v, e) ↦ absurd (keys_complete s pattern [] k v found m e)
  ]
  del_found_clears s pattern (j ∷ ks) found done k m = elim (Option-cases (del s (j ∷ ks)).0) [
    | inl e ↦ absurd (ground arith)
    | inr (n, e) ↦ rw (e, after) (del_clears s pattern (j ∷ ks) n found e k m)
  ]

  -- A round that succeeds leaves nothing that its pattern matches.
  round_clears :
      (s : Store) (pattern : String)
      → succeeds (round redis s (some pattern)) ≡ true
      → Cleared (after s (round redis s (some pattern))) pattern
  unfolding round
  round_clears s pattern done k m = elim (Option-cases (keys s pattern)) [
    | inl e ↦ absurd (ground arith)
    | inr (ks, e) ↦ rw (e, after) (del_found_clears s pattern ks e (rw (e, succeeds) at done) k m)
  ]

  del_found-none :
      (s : Store) (ks : List String) (k : String)
      → holds s k ≡ none
      → holds (after s (del_found redis s ks)) k ≡ none
  del_found-none s [] k h = h
  del_found-none s (j ∷ ks) k h = elim (Option-cases (del s (j ∷ ks)).0) [
    | inl e ↦ rw (e, after) (del_none s (j ∷ ks) k h)
    | inr (n, e) ↦ rw (e, after) (del_none s (j ∷ ks) k h)
  ]

  -- No round brings a key back.
  round-none :
      (s : Store) (pattern : Option String) (k : String)
      → holds s k ≡ none
      → holds (after s (round redis s pattern)) k ≡ none
  unfolding round
  round-none s none k h = h
  round-none s (some pattern) k h = elim (Option-cases (keys s pattern)) [
    | inl e ↦ rw (e, after) h
    | inr (ks, e) ↦ rw (e, after) (del_found-none s ks k h)
  ]

  del_found_others :
      (s : Store) (ks : List String) (k : String)
      → (In k ks → ⊥)
      → holds (after s (del_found redis s ks)) k ≡ holds s k
  del_found_others s [] k h = refl
  del_found_others s (j ∷ ks) k h = elim (Option-cases (del s (j ∷ ks)).0) [
    | inl e ↦ rw (e, after) (del_others s (j ∷ ks) k h)
    | inr (n, e) ↦ rw (e, after) (del_others s (j ∷ ks) k h)
  ]

  -- A round leaves the keys that its pattern does not match.
  round_others :
      (s : Store) (pattern : String) (k : String)
      → matches pattern k ≡ false
      → holds (after s (round redis s (some pattern))) k ≡ holds s k
  unfolding round
  round_others s pattern k h = elim (Option-cases (keys s pattern)) [
    | inl e ↦ rw (e, after)
    | inr (ks, e) ↦
        rw (e, after)
          (del_found_others s ks k
            (λ m. absurd (true≢false (sym (keys_sound s pattern ks k e m) ∙ h))))
  ]
    where
      true≢false : true ≡ false → ⊥
      true≢false e = cc

  store-add_round :
      (count : ℤ) (s : Store) (r : Round redis)
      → ((add_round redis count s r).store ≡ after s r)
        × ((add_round redis count s r).is_error ≡ not (succeeds r))
  unfolding add_round
  store-add_round count s (broken s') = (refl, refl)
  store-add_round count s nothing = (refl, refl)
  store-add_round count s (deleted n s') = (refl, refl)

  -- After a round without an error: there was none before, and the pattern is cleared.
  go_on_clears :
      (p : Purged redis) (pattern : String)
      → (go_on redis p (some pattern)).is_error ≡ false
      → (p.is_error ≡ false) × Cleared (go_on redis p (some pattern)).store pattern
  unfolding go_on
  go_on_clears p pattern h = elim (Bool-cases p.is_error) [
    | inl bad ↦ absurd (ground arith)
    | inr fine ↦
        let r = round redis p.store (some pattern) in
        let (same, flag) = store-add_round p.count p.store r in
        let done : succeeds r ≡ true = ground arith in
        (fine, λ k m. rw (fine, same) (round_clears p.store pattern done k m))
  ]

  -- What a round leaves at a key that was empty.
  go_on-none :
      (p : Purged redis) (pattern : Option String) (k : String)
      → holds p.store k ≡ none
      → holds (go_on redis p pattern).store k ≡ none
  unfolding go_on
  go_on-none p pattern k h = elim (Bool-cases p.is_error) [
    | inl bad ↦ rw bad h
    | inr fine ↦
        rw (fine, (store-add_round p.count p.store (round redis p.store pattern)).0)
          (round-none p.store pattern k h)
  ]

  go_on-Cleared :
      (p : Purged redis) (pattern : Option String) (q : String)
      → Cleared p.store q
      → Cleared (go_on redis p pattern).store q
  go_on-Cleared p pattern q h k m = go_on-none p pattern k (h k m)

  -- The first two rounds of `PurgeSubjectCache`.
  subject_rounds :
      (p : Purged redis) (sessions tokens : String)
      → (go_on redis (go_on redis p (some sessions)) (some tokens)).is_error ≡ false
      → let q = go_on redis (go_on redis p (some sessions)) (some tokens) in
        Cleared q.store sessions × Cleared q.store tokens
  subject_rounds p sessions tokens h =
      let (fine, second) = go_on_clears (go_on redis p (some sessions)) tokens h in
      let (_, first) = go_on_clears p sessions fine in
      (go_on-Cleared (go_on redis p (some sessions)) (some tokens) sessions first, second)

  -- `PurgeSubjectCache`, when it reports no error, has left no session and no token of the subject
  -- and, where one session was named, no activation code of that session: nothing is held at a key
  -- that one of its patterns matches.
  pub purge_subject_cache_clears :
      (prefix : String) (s : Store) (subject session sessions tokens activations : String)
      → session_pattern redis prefix (session_or_any redis session) subject ≡ some sessions
      → subject_token_pattern redis prefix subject ≡ some tokens
      → activation_pattern redis prefix (session_or_any redis session) ≡ some activations
      → (purge_subject_cache redis prefix s subject session).is_error ≡ false
      → let q = purge_subject_cache redis prefix s subject session in
        Cleared q.store sessions
        × Cleared q.store tokens
        × (session_or_any redis session ≢ "*" → Cleared q.store activations)
  unfolding purge_subject_cache
  purge_subject_cache_clears prefix s subject session sessions tokens activations es et ea h =
      elim (Bool-cases (session_or_any redis session == "*")) [
        | inl any_session ↦
            let (first, second) =
              subject_rounds start sessions tokens (rw (es, et, any_session) at h) in
            (
              rw (es, et, any_session) first,
              rw (es, et, any_session) second,
              λ ne. absurd (ne ((eq_iff _ _).0 any_session)),
            )
        | inr one_session ↦
            let rounds = go_on redis (go_on redis start (some sessions)) (some tokens) in
            let (fine, third) =
              go_on_clears rounds activations (rw (es, et, ea, one_session) at h) in
            let (first, second) = subject_rounds start sessions tokens fine in
            (
              rw (es, et, ea, one_session) (go_on-Cleared rounds (some activations) sessions first),
              rw (es, et, ea, one_session) (go_on-Cleared rounds (some activations) tokens second),
              λ ne. rw (es, et, ea, one_session) third,
            )
      ]
    where
      start : Purged redis
      start = record { count = pos 0; is_error = false; store = s }

  store-after_codes :
      (prefix client : String) (s : Store) (r : Round redis)
      → r ≢ nothing
      → ((after_codes redis prefix client s r).store ≡ after s r)
        × ((after_codes redis prefix client s r).is_error ≡ not (succeeds r))
  unfolding after_codes
  store-after_codes prefix client s (broken s') h = (refl, refl)
  store-after_codes prefix client s nothing h = absurd (h refl)
  store-after_codes prefix client s (deleted n s') h = (refl, refl)

  -- A round that finds a key does something.
  round-ne-nothing :
      (s : Store) (pattern k : String) (v : Value)
      → matches pattern k ≡ true
      → holds s k ≡ some v
      → round redis s (some pattern) ≢ nothing
  unfolding round
  round-ne-nothing s pattern k v m h = elim (Option-cases (keys s pattern)) [
    | inl e ↦ rw (e, round) (λ x. cc)
    | inr (ks, e) ↦ rw (e, round) (found ks (keys_complete s pattern ks k v e m h))
  ]
    where
      found : (ks : List String) → In k ks → del_found redis s ks ≢ nothing
      found [] i = absurd i
      found (j ∷ ks) i = elim (Option-cases (del s (j ∷ ks)).0) [
        | inl e ↦ rw (e, del_found) (λ x. cc)
        | inr (n, e) ↦ rw (e, del_found) (λ x. cc)
      ]

  -- `PurgeClientCache` stops at the first of its two patterns that finds a key: while the client
  -- has an authorization code, the call leaves every key that is no authorization code of the
  -- client as it was, the client's cached tokens included.
  pub purge_client_cache_stops :
      (prefix : String) (s : Store) (client codes k token : String) (v : Value)
      → code_pattern redis prefix client ≡ some codes
      → matches codes k ≡ true
      → holds s k ≡ some v
      → matches codes token ≡ false
      → holds (purge_client_cache redis prefix s client).store token ≡ holds s token
  unfolding purge_client_cache
  purge_client_cache_stops prefix s client codes k token v e m h other =
      rw
        (
          e,
          (store-after_codes prefix client s (round redis s (some codes))
              (round-ne-nothing s codes k v m h)).0,
        )
        (round_others s codes token other)
