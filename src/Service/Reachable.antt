-- ===== src/Service/Reachable.antt =====
-- The RPCs of sso-service as the steps of one state machine, and the states that these reach.
use mono_sso.Prelude.{
  String, ◌≡◌, Option, some, List, [], ◌∷◌, map, arith, length, select, nat_eq, string_eq, ◌≤◌,
}
use mono_sso.Prelude.Int.{ℤ}
use mono_sso.Constants.{ResponseStatus}
use mono_sso.Cache.Redis.{Redis}
use mono_sso.Datastore.{Db, TokenRow}
use mono_sso.Datastore.Account.{
  RevokeScopesRequest, revoke_scopes, RevokeTokenRequest, revoked, revoke_token,
}
use mono_sso.Service.State.{Event, State, Call, Platform}
use mono_sso.Service.Authorization.{GrantScopesRequest, grant_scopes}
use mono_sso.Service.RefreshToken.{NewRefreshTokenRequest, new_refresh_token, is_token_of}
use mono_sso.Service.RefreshToken.Rotation.{IsSingle, new_refresh_token-IsSingle}
use mono_sso.Service.Activation.{
  SignInRequest, ActivateSessionRequest, Codes, Cached, generate_activation_code,
  validate_activation_code,
}
use mono_sso.Service.Account.{
  handle_register_event, sign_in, activate_session, handle_revoke_scopes, handle_revoke_token,
}
use mono_sso.Service.Sessions.{handle_purge_client_cache, handle_purge_account_cache}

-- Revoking makes no token live.
live-revoked :
    (account client : String) (req : RevokeTokenRequest) (now : ℤ) (rows : List TokenRow)
    → length (select (is_token_of account client) (map (revoked req now) rows))
      ≤ length (select (is_token_of account client) rows)
unfolding revoked
live-revoked account client req now [] = omega arith
live-revoked account client req now (r ∷ rows) =
    ground (arith, live-revoked account client req now rows)

pub tokens-grant_scopes :
    (call : Call) (req : GrantScopesRequest) (s : State)
    → (grant_scopes call req s).1.db.tokens ≡ s.db.tokens
unfolding grant_scopes
tokens-grant_scopes call req s = ground arith

pub tokens-handle_revoke_scopes :
    (call : Call) (req : RevokeScopesRequest) (s : State)
    → (handle_revoke_scopes call req s).1.db.tokens ≡ s.db.tokens
unfolding handle_revoke_scopes revoke_scopes
tokens-handle_revoke_scopes call req s = ground arith

same_tokens : {db db' : Db} → db'.tokens ≡ db.tokens → IsSingle db → IsSingle db'
same_tokens e single = record { at_most_one = λ a c. rw e (single.at_most_one a c) }

handle_revoke_token-IsSingle :
    (call : Call) (req : RevokeTokenRequest) (s : State)
    → IsSingle s.db
    → IsSingle (handle_revoke_token call req s).1.db
unfolding handle_revoke_token revoke_token
handle_revoke_token-IsSingle call req s single = record {
  at_most_one = λ a c.
      ground (arith, live-revoked a c req call.database_now s.db.tokens, single.at_most_one a c);
}

module _ (redis : Redis) (platform : Platform) where
  -- One RPC, on any request, whatever fails meanwhile. `AuthorizeClient` changes nothing.
  pub data Step (s : Cached redis) : Cached redis → Type 0 where
    grants :
        (call : Call) (req : GrantScopesRequest)
        → Step s (record s { service = (grant_scopes call req s.service).1 })
    issues :
        (call : Call) (req : NewRefreshTokenRequest)
        → Step s (record s { service = (new_refresh_token platform call req s.service).1 })
    revokes_scopes :
        (call : Call) (req : RevokeScopesRequest)
        → Step s (record s { service = (handle_revoke_scopes call req s.service).1 })
    revokes_token :
        (call : Call) (req : RevokeTokenRequest)
        → Step s (record s { service = (handle_revoke_token call req s.service).1 })
    signs_in :
        (codes : Codes) (call : Call) (req : SignInRequest)
        → Step s (sign_in redis platform codes call req s).1
    activates :
        {s' : Cached redis} {status : Option ResponseStatus} (codes : Codes)
        (req : ActivateSessionRequest)
        → activate_session redis codes req s ≡ some (status, s')
        → Step s s'
    registers :
        (event : Event) → Step s (record s { service = handle_register_event event s.service })
    purges_client :
        (format : ℤ → String) (prefix client : String)
        → Step s (handle_purge_client_cache redis format prefix client s).1
    purges_account :
        (format : ℤ → String) (prefix subject session : String)
        → Step s (handle_purge_account_cache redis format prefix subject session s).1

  -- The states that any number of RPCs, one after the other, can lead to.
  pub data Reaches (s : Cached redis) : Cached redis → Type 0 where
    start : Reaches s s
    then_step : {s' s'' : Cached redis} → Reaches s s' → Step s' s'' → Reaches s s''

  pub db-sign_in :
      (codes : Codes) (call : Call) (req : SignInRequest) (s : Cached redis)
      → (sign_in redis platform codes call req s).1.service.db ≡ s.service.db
  unfolding sign_in generate_activation_code
  db-sign_in codes call req s = ground arith

  pub db-activate_session :
      (codes : Codes) (req : ActivateSessionRequest) (s s' : Cached redis)
      {status : Option ResponseStatus}
      → activate_session redis codes req s ≡ some (status, s')
      → s'.service.db ≡ s.service.db
  unfolding activate_session validate_activation_code
  db-activate_session codes req s s' h = ground arith

  pub db-handle_purge_client_cache :
      (format : ℤ → String) (prefix client : String) (s : Cached redis)
      → (handle_purge_client_cache redis format prefix client s).1.service.db ≡ s.service.db
  unfolding handle_purge_client_cache
  db-handle_purge_client_cache format prefix client s = ground arith

  pub db-handle_purge_account_cache :
      (format : ℤ → String) (prefix subject session : String) (s : Cached redis)
      → (handle_purge_account_cache redis format prefix subject session s).1.service.db
        ≡ s.service.db
  unfolding handle_purge_account_cache
  db-handle_purge_account_cache format prefix subject session s = ground arith

  Step-IsSingle : (s s' : Cached redis) → Step s s' → IsSingle s.service.db → IsSingle s'.service.db
  Step-IsSingle s s' (grants call req) single =
      same_tokens (tokens-grant_scopes call req s.service) single
  Step-IsSingle s s' (issues call req) single =
      new_refresh_token-IsSingle platform call req s.service single
  Step-IsSingle s s' (revokes_scopes call req) single =
      same_tokens (tokens-handle_revoke_scopes call req s.service) single
  Step-IsSingle s s' (revokes_token call req) single =
      handle_revoke_token-IsSingle call req s.service single
  Step-IsSingle s s' (signs_in codes call req) single = rw (db-sign_in codes call req s) single
  Step-IsSingle s s' (activates codes req h) single =
      rw (db-activate_session codes req s s' h) single
  Step-IsSingle s s' (registers event) single = single
  Step-IsSingle s s' (purges_client format prefix client) single =
      rw (db-handle_purge_client_cache format prefix client s) single
  Step-IsSingle s s' (purges_account format prefix subject session) single =
      rw (db-handle_purge_account_cache format prefix subject session s) single

  -- Whatever RPCs of sso-service run, one after the other: where no account had two live refresh
  -- tokens for one client before them, none has afterwards.
  pub Reaches-IsSingle :
      (s s' : Cached redis) → Reaches s s' → IsSingle s.service.db → IsSingle s'.service.db
  Reaches-IsSingle s s' start single = single
  Reaches-IsSingle s s'' (then_step {s'} run last) single =
      Step-IsSingle s' s'' last (Reaches-IsSingle s s' run single)
