-- ===== src/Service/RefreshToken/Reuse.antt =====
-- When `NewRefreshToken` hands out the current token again, and what it answers after a revocation.
use mono_sso.Prelude.{
  String, len, ◌≡◌, refl, ◌≢◌, inl, inr, true, false, none, some, List, [], ◌∷◌, map, arith, select,
  Bool-cases, nat_eq, string_eq,
}
use mono_sso.Prelude.Int.{ℤ, ltb_ℤ}
use mono_sso.Constants.{no_valid_refresh_token_status}
use mono_sso.Datastore.{Db, TokenRow, Outage, ok}
use mono_sso.Datastore.Account.{revoked, revoke_token}
use mono_sso.Service.State.{State, Call, Platform}
use mono_sso.Service.Scopes.{get_unauthorized_scopes}
use mono_sso.Service.RefreshToken.{
  NewRefreshTokenRequest, new_refresh_token, is_client_secret, select_secret, is_token_of,
  is_current, refuse_token, select_refresh_token,
}
use mono_sso.Service.RefreshToken.Rotation.{live_tokens}

-- The current tokens are those of the live ones that have not run out.
pub current-select :
    (account client : String) (now : ℤ) (rows : List TokenRow)
    → select (is_current account client now) rows
      ≡ select (λ r. ltb_ℤ now r.expires_at) (select (is_token_of account client) rows)
current-select account client now [] = refl
current-select account client now (r ∷ rows) = elim (Bool-cases (is_token_of account client r)) [
  | inl t ↦ rw (t, current-select account client now rows)
  | inr f ↦ rw (f, current-select account client now rows)
]

-- What a client needs for a token: its secret, and the subject's grants of the scopes.
pub record IsEntitled (platform : Platform) (req : NewRefreshTokenRequest) (db : Db) : Type 0 where
  pub secret : String
  pub stored : select_secret (λ _. false) db req.client_id ≡ ok secret
  pub matching : is_client_secret platform secret req.client_secret ≡ true
  pub granted : get_unauthorized_scopes (λ _. false) db req.client_id req.subject req.scopes ≡ ok []

-- Without database faults, an entitled client with an authorization code gets a token.
pub new_refresh_token_accepts :
    (platform : Platform) (call : Call) (req : NewRefreshTokenRequest) (s : State) (id : String)
    → call.outage ≡ (λ _. false)
    → call.new_id ≡ some id
    → IsEntitled platform req s.db
    → len req.authorization_code ≢ 0
    → (new_refresh_token platform call req s).0.status ≡ none
unfolding new_refresh_token select_refresh_token
new_refresh_token_accepts platform call req s id healthy fresh entitled coded =
    rw (healthy, entitled.stored, entitled.matching, entitled.granted, fresh) (ground arith)

-- Without database faults, an entitled client that does not force a new token gets the subject's
-- only live token while it has not run out, and nothing changes.
pub new_refresh_token_reuses :
    (platform : Platform) (call : Call) (req : NewRefreshTokenRequest) (s : State) (row : TokenRow)
    → call.outage ≡ (λ _. false)
    → IsEntitled platform req s.db
    → req.force_new ≡ false
    → live_tokens req.subject req.client_id s.db ≡ row ∷ []
    → ltb_ℤ call.database_now row.expires_at ≡ true
    → new_refresh_token platform call req s
      ≡ (record { status = none; refresh_token_id = row.id; expires_at = row.expires_at }, s)
unfolding new_refresh_token select_refresh_token
new_refresh_token_reuses platform call req s row healthy entitled keep live fresh = rw (
  healthy,
  entitled.stored,
  entitled.matching,
  entitled.granted,
  keep,
  current-select req.subject req.client_id call.database_now s.db.tokens,
  live,
  fresh,
)

module _ (account client : String) (now : ℤ) where
  revoked_hit :
      (r : TokenRow)
      → is_token_of account client
          (revoked (record { subject = account; client_id = client }) now r)
        ≡ false
  unfolding revoked
  revoked_hit r = ground arith

  pub revoked-select :
      (rows : List TokenRow)
      → select
          (is_token_of account client)
          (map (revoked (record { subject = account; client_id = client }) now) rows)
        ≡ []
  revoked-select [] = refl
  revoked-select (r ∷ rows) = rw (revoked_hit r) (revoked-select rows)

  -- `RevokeToken` leaves the account no live refresh token for the client.
  pub live_tokens-revoke_token :
      (outage : Outage) (db db' : Db)
      → revoke_token outage now db (record { subject = account; client_id = client }) ≡ ok db'
      → live_tokens account client db' ≡ []
  unfolding revoke_token
  live_tokens-revoke_token outage db db' h =
      let e : map (revoked (record { subject = account; client_id = client }) now) db.tokens
          ≡ db'.tokens =
        ground arith in
      rw (← e) (revoked-select db.tokens)

-- Once `RevokeToken` has succeeded, an entitled client that asks again, without an authorization
-- code and without forcing a new token, is told that there is no valid refresh token, and nothing
-- changes. No statement of that call fails.
pub new_refresh_token_revoked :
    (platform : Platform) (call : Call) (req : NewRefreshTokenRequest) (s : State) (outage : Outage)
    (now : ℤ) (db : Db)
    → revoke_token outage now db (record { subject = req.subject; client_id = req.client_id })
      ≡ ok s.db
    → call.outage ≡ (λ _. false)
    → IsEntitled platform req s.db
    → req.force_new ≡ false
    → len req.authorization_code ≡ 0
    → new_refresh_token platform call req s ≡ (refuse_token no_valid_refresh_token_status, s)
unfolding new_refresh_token select_refresh_token
new_refresh_token_revoked platform call req s outage now db done healthy entitled keep no_code =
    rw (
      healthy,
      entitled.stored,
      entitled.matching,
      entitled.granted,
      keep,
      current-select req.subject req.client_id call.database_now s.db.tokens,
      live_tokens-revoke_token req.subject req.client_id now outage db s.db done,
      no_code,
    )
