-- ===== src/Service/RefreshToken/Checks.antt =====
-- What `NewRefreshToken` checks before it hands out a token, and its two outcomes.
use mono_sso.Prelude.{
  String, len, ◌≡◌, ◌≢◌, refl, ◌⊎◌, inl, inr, true, false, Option, none, some, [], map, arith,
  head?, select, In, head?-select, In-append_right, Option-cases, Bool-cases, eq_iff, nat_eq,
  string_eq,
}
use mono_sso.Constants.{ResponseStatus}
use mono_sso.Datastore.{TokenRow, Statement, ok, Result-cases}
use mono_sso.Service.State.{State, Call, Platform}
use mono_sso.Service.Scopes.{get_unauthorized_scopes, unauthorized_rows}
use mono_sso.Service.Scopes.Laws.{get_unauthorized_scopes-nil}
use mono_sso.Service.RefreshToken.{
  NewRefreshTokenRequest, new_refresh_token, is_client_secret, select_secret, expiry,
  NewRefreshTokenResponse, is_token_of, is_current, replace_token, new_token_row, delete_token,
  select_refresh_token,
}

-- A call that reports an error has changed nothing, and has logged nothing.
pub new_refresh_token_atomic :
    (platform : Platform) (call : Call) (req : NewRefreshTokenRequest) (s : State)
    {status : ResponseStatus}
    → (new_refresh_token platform call req s).0.status ≡ some status
    → (new_refresh_token platform call req s).1 ≡ s
unfolding new_refresh_token
new_refresh_token_atomic platform call req s h = ground arith

-- Whatever token is handed out, the secret of the request matches the hash of the client, and
-- `getUnauthorizedScopes` has reported nothing: every requested scope that the client has is granted
-- by the subject, unless the first row of an ungranted one could not be fetched.
pub new_refresh_token_checks :
    (platform : Platform) (call : Call) (req : NewRefreshTokenRequest) (s : State)
    → (new_refresh_token platform call req s).0.status ≡ none
    → ((secret : String) × (select_secret call.outage s.db req.client_id ≡ ok secret)
        × (is_client_secret platform secret req.client_secret ≡ true))
      × (get_unauthorized_scopes call.outage s.db req.client_id req.subject req.scopes ≡ ok [])
      × ((unauthorized_rows req.client_id req.subject s.db req.scopes ≡ [])
          ⊎ (call.outage (Statement.next_unauthorized_scope 0) ≡ true))
unfolding new_refresh_token
new_refresh_token_checks platform call req s h =
    elim (Result-cases (select_secret call.outage s.db req.client_id)) [
      | inr (e, failed) ↦ absurd (ground arith)
      | inl (secret, found) ↦
          let granted : get_unauthorized_scopes call.outage s.db req.client_id req.subject
                req.scopes
              ≡ ok [] =
            ground arith in
          (
            (secret, found, ground arith),
            granted,
            get_unauthorized_scopes-nil call.outage s.db req.client_id req.subject req.scopes
                granted,
          )
    ]

-- The two ways in which a token is handed out: the current one again, or a new one.
pub data Outcome (platform : Platform) (call : Call) (req : NewRefreshTokenRequest) (s : State)
    : NewRefreshTokenResponse × State → Type 0 where
  reused :
      {r : NewRefreshTokenResponse × State} (row : TokenRow)
      → req.force_new ≡ false
      → head? (select (is_current req.subject req.client_id call.database_now) s.db.tokens)
        ≡ some row
      → r.0 ≡ record { status = none; refresh_token_id = row.id; expires_at = row.expires_at }
      → r.1 ≡ s
      → Outcome platform call req s r
  created :
      {r : NewRefreshTokenResponse × State} (id : String)
      → call.new_id ≡ some id
      → (req.force_new ≡ true) ⊎ (len req.authorization_code ≢ 0)
      → r.0 ≡ record { status = none; refresh_token_id = id; expires_at = expiry platform call req }
      → r.1.db ≡ replace_token call req id (expiry platform call req) s.db
      → Outcome platform call req s r

module _ (platform : Platform) (call : Call) (req : NewRefreshTokenRequest) (s : State) where
  abbrev current : Option TokenRow
  current = head? (select (is_current req.subject req.client_id call.database_now) s.db.tokens)

  creation_way :
      (id : String)
      → call.new_id ≡ some id
      → (req.force_new ≡ true) ⊎ (current ≡ none)
      → (new_refresh_token platform call req s).0.status ≡ none
      → Outcome platform call req s (new_refresh_token platform call req s)
  unfolding new_refresh_token select_refresh_token
  creation_way id fresh way h = created id fresh (ground arith) (ground arith) (ground arith)

  new_way :
      (req.force_new ≡ true) ⊎ (current ≡ none)
      → (new_refresh_token platform call req s).0.status ≡ none
      → Outcome platform call req s (new_refresh_token platform call req s)
  unfolding new_refresh_token select_refresh_token
  new_way way h = elim (Option-cases call.new_id) [
    | inr (id, fresh) ↦ creation_way id fresh way h
    | inl failed ↦ absurd (ground arith)
  ]

  reuse_way :
      (row : TokenRow)
      → req.force_new ≡ false
      → current ≡ some row
      → (new_refresh_token platform call req s).0.status ≡ none
      → Outcome platform call req s (new_refresh_token platform call req s)
  unfolding new_refresh_token select_refresh_token
  reuse_way row keep found h = reused row keep found (ground arith) (ground arith)

  pub new_refresh_token-Outcome :
      (new_refresh_token platform call req s).0.status ≡ none
      → Outcome platform call req s (new_refresh_token platform call req s)
  new_refresh_token-Outcome h = elim (Bool-cases req.force_new) [
    | inl forced ↦ new_way (inl forced) h
    | inr keep ↦ elim (Option-cases current) [
      | inl missing ↦ new_way (inr missing) h
      | inr (row, found) ↦ reuse_way row keep found h
    ]
  ]

Outcome-IsTokenOf :
    (platform : Platform) (call : Call) (req : NewRefreshTokenRequest) (s : State)
    (r : NewRefreshTokenResponse × State)
    → Outcome platform call req s r
    → (row : TokenRow) × In row r.1.db.tokens
      × (is_token_of req.subject req.client_id row ≡ true)
      × (row.id ≡ r.0.refresh_token_id)
      × (row.expires_at ≡ r.0.expires_at)
unfolding replace_token
Outcome-IsTokenOf platform call req s r (reused row keep found e same) =
    let m =
      head?-select (is_current req.subject req.client_id call.database_now) row s.db.tokens found in
    (row, rw same (m.0), ground arith, rw e, rw e)
Outcome-IsTokenOf platform call req s r (created id fresh way e same) = (
  new_token_row call req id (expiry platform call req),
  rw same (
      In-append_right _ (map (delete_token req.subject req.client_id call.database_now) s.db.tokens)
        _ (inl refl)),
  ground (arith, eq_iff req.subject req.subject, eq_iff req.client_id req.client_id),
  rw e,
  rw e,
)

-- The token that is handed out is a live refresh token of the subject for the client, with the
-- identifier and the expiry of the response, in the tables that the call leaves.
pub new_refresh_token-IsTokenOf :
    (platform : Platform) (call : Call) (req : NewRefreshTokenRequest) (s : State)
    → (new_refresh_token platform call req s).0.status ≡ none
    → let (res, s') = new_refresh_token platform call req s in
      (row : TokenRow) × In row s'.db.tokens
      × (is_token_of req.subject req.client_id row ≡ true)
      × (row.id ≡ res.refresh_token_id)
      × (row.expires_at ≡ res.expires_at)
new_refresh_token-IsTokenOf platform call req s h =
    Outcome-IsTokenOf platform call req s _ (new_refresh_token-Outcome platform call req s h)
