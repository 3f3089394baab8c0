-- ===== src/Service/Sessions.antt =====
-- cmd/sso-service/session-server.go: `SessionServer`.
use mono_sso.Prelude.{String, true, false, Option, none, some, [], ◌∷◌, if◌then◌else◌}
use mono_sso.Prelude.Int.{ℤ, pos}
use mono_sso.Constants.{ResponseStatus, internal_error_status}
use mono_sso.Cache.Redis.{Redis}
use mono_sso.Cache.Purge.{Purged, purge_client_cache, purge_subject_cache}
use mono_sso.Service.State.{Event, warning, State, register_event}
use mono_sso.Service.Activation.{Cached}

-- sso.PurgeClientCacheResponse and sso.PurgeAccountCacheResponse
pub record PurgeResponse : Type 0 where
  pub status : Option ResponseStatus
  pub deleted_count : ℤ

-- `format` is `strconv.FormatInt` to base 10.
abbrev client_event : (ℤ → String) → String → ℤ → Event
client_event format client count = record {
  level = warning;
  is_sensitive = false;
  fields = ("client_id", client) ∷ ("count", format count) ∷ [];
}

abbrev subject_event : (ℤ → String) → String → String → ℤ → Event
subject_event format subject session count = record {
  level = warning;
  is_sensitive = true;
  fields = ("account_id", subject) ∷ ("session", session) ∷ ("count", format count) ∷ [];
}

module _ (redis : Redis) where
  -- The response, and the event unless the purge failed.
  answer_purge : (ℤ → Event) → State → Purged redis → PurgeResponse × Cached redis
  answer_purge event s p =
      if p.is_error
      then (
        record { status = some internal_error_status; deleted_count = pos 0 },
        record { service = s; store = p.store },
      )
      else (
        record { status = none; deleted_count = p.count },
        record { service = register_event (event p.count) s; store = p.store },
      )

  -- `SessionServer.PurgeClientCache`
  unfoldable pub handle_purge_client_cache :
      (ℤ → String) → String → String → Cached redis → PurgeResponse × Cached redis
  unfolding answer_purge
  handle_purge_client_cache format prefix client s =
      answer_purge (client_event format client) s.service
        (purge_client_cache redis prefix s.store client)

  -- `SessionServer.PurgeAccountCache`
  unfoldable pub handle_purge_account_cache :
      (ℤ → String) → String → String → String → Cached redis → PurgeResponse × Cached redis
  unfolding answer_purge
  handle_purge_account_cache format prefix subject session s =
      answer_purge (subject_event format subject session) s.service
        (purge_subject_cache redis prefix s.store subject session)
