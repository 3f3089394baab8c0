-- ===== src/Service/Runs.antt =====
-- The runs of sso-service as runs of the specification of its refresh tokens.
use mono_sso.Prelude.{
  String, ◌≡◌, refl, ap, inl, inr, true, false, ◌&&◌, none, some, List, [], ◌∷◌, map, arith, select,
  Bool-cases, eq_iff, ◌==◌, nat_eq, string_eq, if◌then◌else◌,
}
use mono_sso.Prelude.Int.{ℤ}
use mono_sso.Cache.Redis.{Redis}
use mono_sso.Datastore.{Db, TokenRow, Statement}
use mono_sso.Datastore.Account.{RevokeTokenRequest, revoked, revoke_token}
use mono_sso.Service.State.{State, Call, Platform}
use mono_sso.Service.RefreshToken.{
  NewRefreshTokenRequest, NewRefreshTokenResponse, new_refresh_token, is_token_of,
}
use mono_sso.Service.RefreshToken.Reuse.{revoked-select}
use mono_sso.Service.RefreshToken.Refinement.{Held, Represents, Answers, new_refresh_token_refines}
use mono_sso.Service.Activation.{Cached}
use mono_sso.Service.Account.{RevokeResponse, handle_revoke_token}
use mono_sso.Constants.{ResponseStatus, internal_error_status}
use mono_sso.Service.Reachable.{
  Step, grants, issues, revokes_scopes, revokes_token, signs_in, activates, registers,
  purges_client, purges_account, Reaches, start, then_step, tokens-grant_scopes,
  tokens-handle_revoke_scopes, db-sign_in, db-activate_session, db-handle_purge_client_cache,
  db-handle_purge_account_cache,
}

-- The account holds nothing for the client any more.
abbrev pub give_up : String → String → Held → Held
give_up account client held a c = if a == account && c == client then none else held a c

-- What the specification knows of an RPC: for the two that concern refresh tokens, the request and
-- the response, and the clock of the database where a token is asked for.
pub data Action : Type 0 where
  asks : ℤ → NewRefreshTokenRequest → NewRefreshTokenResponse → Action
  revokes : RevokeTokenRequest → RevokeResponse → Action
  other_rpc : Action

-- The transitions of the specification: a request for a token is answered; a revocation takes the
-- token of its pair exactly when it reports no error; nothing else changes what is held.
pub data Moves (held : Held) : Action → Held → Type 0 where
  answers :
      {held' : Held} {now : ℤ} {req : NewRefreshTokenRequest} {res : NewRefreshTokenResponse}
      → Answers now req held res held'
      → Moves held (asks now req res) held'
  gives_up :
      {req : RevokeTokenRequest} {res : RevokeResponse}
      → res ≡ none
      → Moves held (revokes req res) (give_up req.subject req.client_id held)
  fails :
      {req : RevokeTokenRequest} {res : RevokeResponse} (status : ResponseStatus)
      → res ≡ some status
      → Moves held (revokes req res) held
  stays : Moves held other_rpc held

-- The transitions for these actions, the last one first.
pub data Runs (held : Held) : List Action → Held → Type 0 where
  begin : Runs held [] held
  then_move :
      {held' held'' : Held} {action : Action} {done : List Action}
      → Runs held done held'
      → Moves held' action held''
      → Runs held (action ∷ done) held''

module _ (req : RevokeTokenRequest) (now : ℤ) (a c : String)
    (other : (a == req.subject && c == req.client_id) ≡ false) where
  revoked_keeps : (r : TokenRow) → is_token_of a c r ≡ true → revoked req now r ≡ r
  unfolding revoked
  revoked_keeps r t = ground (
    arith,
    eq_iff a req.subject,
    eq_iff c req.client_id,
    eq_iff r.account_id a,
    eq_iff r.account_id req.subject,
    eq_iff r.client_id c,
    eq_iff r.client_id req.client_id,
  )

  revoked_miss :
      (r : TokenRow) → is_token_of a c r ≡ false → is_token_of a c (revoked req now r) ≡ false
  unfolding revoked
  revoked_miss r f = ground arith

  revoked-select_others :
      (rows : List TokenRow)
      → select (is_token_of a c) (map (revoked req now) rows) ≡ select (is_token_of a c) rows
  revoked-select_others [] = refl
  revoked-select_others (r ∷ rows) = elim (Bool-cases (is_token_of a c r)) [
    | inl t ↦ rw (revoked_keeps r t, t, revoked-select_others rows)
    | inr f ↦ rw (revoked_miss r f, f, revoked-select_others rows)
  ]

revoked-Represents :
    (req : RevokeTokenRequest) (now : ℤ) (held : Held) (db : Db)
    → Represents held db
    → Represents
        (give_up req.subject req.client_id held)
        (record db { tokens = map (revoked req now) db.tokens })
revoked-Represents req now held db same = record {
  rows = λ a c. elim (Bool-cases (a == req.subject && c == req.client_id)) [
    | inl hit ↦
        let e : a ≡ req.subject = ground (arith, eq_iff a req.subject) in
        let f : c ≡ req.client_id = ground (arith, eq_iff c req.client_id) in
        rw (hit, e, f, revoked-select req.subject req.client_id now db.tokens) refl
    | inr other ↦ rw (other, revoked-select_others req now a c other db.tokens) (same.rows a c)
  ];
}

same_tokens :
    {held : Held} {db db' : Db} → db'.tokens ≡ db.tokens → Represents held db → Represents held db'
same_tokens e same = record { rows = λ a c. rw e (same.rows a c) }

-- `RevokeToken` either fails, and changes no token, or revokes the tokens of the account for the
-- client.
data Revoked (call : Call) (req : RevokeTokenRequest) (s : State)
    : RevokeResponse × State → Type 0 where
  refused :
      {r : RevokeResponse × State} (status : ResponseStatus)
      → r.0 ≡ some status
      → r.1.db.tokens ≡ s.db.tokens
      → Revoked call req s r
  done :
      {r : RevokeResponse × State}
      → r.0 ≡ none
      → r.1.db.tokens ≡ map (revoked req call.database_now) s.db.tokens
      → Revoked call req s r

handle_revoke_token-Revoked :
    (call : Call) (req : RevokeTokenRequest) (s : State)
    → Revoked call req s (handle_revoke_token call req s)
unfolding handle_revoke_token revoke_token
handle_revoke_token-Revoked call req s = elim (Bool-cases (call.outage Statement.delete_tokens)) [
  | inl broken ↦ refused internal_error_status (ground arith) (ground arith)
  | inr healthy ↦ done (ground arith) (ground arith)
]

module _ (redis : Redis) (platform : Platform) where
  -- The action that a step is.
  abbrev pub action_of : {s s' : Cached redis} → Step redis platform s s' → Action
  action_of {s} (issues call req) =
      asks call.database_now req (new_refresh_token platform call req s.service).0
  action_of {s} (revokes_token call req) = revokes req (handle_revoke_token call req s.service).0
  action_of (grants call req) = other_rpc
  action_of (revokes_scopes call req) = other_rpc
  action_of (signs_in codes call req) = other_rpc
  action_of (activates codes req h) = other_rpc
  action_of (registers event) = other_rpc
  action_of (purges_client format prefix client) = other_rpc
  action_of (purges_account format prefix subject session) = other_rpc

  abbrev pub actions_of : {s s' : Cached redis} → Reaches redis platform s s' → List Action
  actions_of start = []
  actions_of (then_step run last) = action_of last ∷ actions_of run

  -- What a step of the service comes to in the specification.
  abbrev Simulated : Held → Action → Db → Type 0
  Simulated held action db = (held' : Held) × Moves held action held' × Represents held' db

  unchanged :
      {held : Held} {db db' : Db}
      → db'.tokens ≡ db.tokens
      → Represents held db
      → Simulated held other_rpc db'
  unchanged {held} e same = (held, stays, same_tokens e same)

  Step-Moves :
      (held : Held) (s s' : Cached redis) (step : Step redis platform s s')
      → Represents held s.service.db
      → Simulated held (action_of step) s'.service.db
  Step-Moves held s s' (grants call req) same =
      unchanged (tokens-grant_scopes call req s.service) same
  Step-Moves held s s' (issues call req) same =
      let (held', answer, same') =
        new_refresh_token_refines platform call req s.service held same in
      (held', answers answer, same')
  Step-Moves held s s' (registers event) same = unchanged refl same
  Step-Moves held s s' (revokes_scopes call req) same =
      unchanged (tokens-handle_revoke_scopes call req s.service) same
  Step-Moves held s s' (revokes_token call req) same =
      revocation _ (handle_revoke_token-Revoked call req s.service)
    where
      revocation :
          (r : RevokeResponse × State)
          → Revoked call req s.service r
          → Simulated held (revokes req r.0) r.1.db
      revocation r (refused status e f) = (held, fails status e, same_tokens f same)
      revocation r (done e f) = (
        give_up req.subject req.client_id held,
        gives_up e,
        same_tokens f (revoked-Represents req call.database_now held s.service.db same),
      )
  Step-Moves held s s' (signs_in codes call req) same =
      unchanged (ap (λ db. db.tokens) (db-sign_in redis platform codes call req s)) same
  Step-Moves held s s' (activates codes req h) same =
      unchanged (ap (λ db. db.tokens) (db-activate_session redis platform codes req s s' h)) same
  Step-Moves held s s' (purges_client format prefix client) same =
      unchanged
        (ap (λ db. db.tokens) (db-handle_purge_client_cache redis platform format prefix client s))
        same
  Step-Moves held s s' (purges_account format prefix subject session) same =
      unchanged
        (ap (λ db. db.tokens)
          (db-handle_purge_account_cache redis platform format prefix subject session s))
        same

  -- Every run of the RPCs of sso-service is a run of the specification of its refresh tokens on the
  -- same requests and responses: where a map of accounts and clients to at most one token represents
  -- the token table at the start, the transitions of the specification for what was asked and
  -- answered, in that order, lead from it to a map that represents the table at the end. A revocation
  -- that reports no error takes the token of its account and client, and no other; an RPC that
  -- neither asks for a refresh token nor revokes one changes nothing.
  pub Reaches-Runs :
      (held : Held) (s s' : Cached redis) (run : Reaches redis platform s s')
      → Represents held s.service.db
      → (held' : Held) × Runs held (actions_of run) held' × Represents held' s'.service.db
  Reaches-Runs held s s' start same = (held, begin, same)
  Reaches-Runs held s s'' (then_step {s'} run last) same =
      let (held', moved, same') = Reaches-Runs held s s' run same in
      let (held'', move, same'') = Step-Moves held' s' s'' last same' in
      (held'', then_move moved move, same'')
