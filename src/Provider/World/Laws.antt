-- ===== src/Provider/World/Laws.antt =====
-- Writing the subject of a session to the cache.
use Prim.Native.String.{◌++◌}
use mono_sso.Prelude.{String, len, ◌≡◌, ◌≢◌, refl, ap, inl, inr, true, some, arith, Option-cases}
use text.Mathlib.TextPositions.{len-append}
use mono_sso.Prelude.Int.{ℤ}
use mono_sso.Cache.Redis.{Redis, RedisLaws}
use mono_sso.Provider.Messages.{SessionSubject}
use mono_sso.Provider.World.{Provider, challenge_key, update_session_subject}

pub challenge_key-differs : (key : String) → challenge_key key ≢ key
unfolding challenge_key
challenge_key-differs key e =
    let longer : len (key ++ ":clg") ≡ len key = ap len e in
    let sum = len-append key ":clg" in ground arith

module _ (redis : Redis) (laws : RedisLaws redis) (p : Provider) where
  open redis use {of_text}
  open laws use {holds, set_done, set_others}

  pub update_session_subject-keeps :
      (store : redis.Store) (key : String) (subject : SessionSubject) (expiration : ℤ) (j : String)
      → j ≢ key
      → holds (update_session_subject redis p store key subject expiration).1 j ≡ holds store j
  unfolding update_session_subject
  update_session_subject-keeps store key subject expiration j other =
      elim (Option-cases (p.subject_codec.marshal subject)) [
        | inl e ↦ rw (update_session_subject, e) refl
        | inr (text, e) ↦
            rw (update_session_subject, e) (set_others store key (of_text text) expiration j other)
      ]

  -- Once it succeeds, the subject is in the cache.
  pub update_session_subject-holds :
      (store : redis.Store) (key : String) (subject : SessionSubject) (expiration : ℤ)
      → (update_session_subject redis p store key subject expiration).0 ≡ true
      → (text : String) × (p.subject_codec.marshal subject ≡ some text)
        × (holds (update_session_subject redis p store key subject expiration).1 key
            ≡ some (of_text text))
  unfolding update_session_subject
  update_session_subject-holds store key subject expiration h =
      elim (Option-cases (p.subject_codec.marshal subject)) [
        | inl e ↦ absurd (ground arith)
        | inr (text, e) ↦ (
          text,
          e,
          rw (update_session_subject, e)
              (set_done store key (of_text text) expiration (rw (update_session_subject, e) at h)),
        )
      ]
