-- ===== src/Service/Tests/Refinement.antt =====
-- The token table of the tests and what it represents.
use mono_sso.Prelude.{refl, none, [], ◌∷◌}
use mono_sso.Cache.Local.{local_redis}
use mono_sso.Datastore.Account.{revoke_token}
use mono_sso.Service.Account.{handle_revoke_token}
use mono_sso.Service.Reachable.{start, then_step, issues, revokes_token}
use mono_sso.Service.Runs.{Runs, asks, revokes, Reaches-Runs}
use mono_sso.Service.RefreshToken.{new_refresh_token}
use mono_sso.Service.RefreshToken.Refinement.{Held, Represents, Answers, new_refresh_token_refines}
use mono_sso.Service.Tests.{platform, call, exchange, ready, session, after_issue}

abbrev nothing_held : Held
nothing_held account client = none

ready-Represents : Represents nothing_held ready.db
ready-Represents = record { rows = λ account client. refl }

new_refresh_token_refines_example :
    (held' : Held) × Answers call.database_now exchange nothing_held
      (new_refresh_token platform call exchange ready).0
      held'
    × Represents held' (new_refresh_token platform call exchange ready).1.db
new_refresh_token_refines_example =
    new_refresh_token_refines platform call exchange ready nothing_held ready-Represents

Reaches-Runs_example :
    (held' : Held) × Runs nothing_held
      (revokes (record { subject = "ann"; client_id = "web" }) none
        ∷ asks call.database_now exchange (new_refresh_token platform call exchange ready).0
        ∷ [])
      held'
    × Represents held'
        (handle_revoke_token call
          (record { subject = "ann"; client_id = "web" })
          after_issue.service).1.db
unfolding handle_revoke_token revoke_token
Reaches-Runs_example =
    Reaches-Runs local_redis platform nothing_held session
      (record after_issue {
        service =
            (handle_revoke_token call (record { subject = "ann"; client_id = "web" })
              after_issue.service).1;
      })
      (then_step (then_step start (issues call exchange))
        (revokes_token call (record { subject = "ann"; client_id = "web" })))
      ready-Represents
