-- ===== src/Service/State.antt =====
-- What the handlers of sso-service share: the state, the audit events, what the environment
-- supplies to one call, and the standard library and bcrypt as parameters.
use mono_sso.Prelude.{ℕ, String, Bool, Option, List, [], ◌∷◌, ◌++◌}
use mono_sso.Prelude.Int.{ℤ}
use mono_sso.Prelude.Flow.{Flow, return, next}
use mono_sso.Datastore.{Db, Outage, Result, ok, err}

-- sso.EventLevel
pub data EventLevel : Type 0 where
  info warning : EventLevel

-- sso.RegisterEventRequest, without the message, which repeats the fields for a reader of the log.
pub record Event : Type 0 where
  pub level : EventLevel
  pub is_sensitive : Bool
  pub fields : List (String × String)

-- The tables, and the audit log that `Datastore.RegisterEvent` writes, the newest event last.
pub record State : Type 0 where
  pub db : Db
  pub events : List Event

-- `ServiceDatastore.RegisterEvent`
abbrev pub register_event : Event → State → State
register_event e s = record s { events = s.events ++ e ∷ [] }

-- What one call meets: the statements that fail, the clocks of Postgres (`now()`) and of the
-- process (`time.Now()`), in seconds, and what the ID generator yields, `none` for an error.
pub record Call : Type 0 where
  pub outage : Outage
  pub database_now : ℤ
  pub process_now : ℤ
  pub new_id : Option String

-- bcrypt, and the functions of Go's package time that the handlers call; durations in seconds.
pub record Platform : Type 0 where
  pub bcrypt_matches : String → List ℕ → Bool
  pub parse_duration : String → Option ℤ
  pub format_time : ℤ → String

-- `if err != nil { return … }` after a call of the data-access code.
abbrev pub or_return {ℓ} : {A R : Type ℓ} → Result A → R → Flow R A
or_return (ok a) r = next a
or_return (err e) r = return r
