-- ===== src/Service/RefreshToken.antt =====
-- cmd/sso-service/authorization-server.go: `NewRefreshToken`.
pub mod Checks
pub mod Rotation
pub mod Reuse
pub mod NewClient
pub mod Refinement
use mono_sso.Prelude.{
  ℕ, String, Bool, true, false, ◌&&◌, ◌||◌, Option, none, some, List, [], ◌∷◌, ◌++◌, map, ltb, len,
  length, head?, select, not, ◌==◌, nat_eq, string_eq, if◌then◌else◌,
}
use mono_sso.Prelude.Int.{ℤ, pos, ◌+ℤ◌, ltb_ℤ}
use mono_sso.Prelude.Flow.{Flow, return, next, ◌>>=◌, ◌>>◌, run, return_if}
use mono_sso.Constants.{
  ResponseStatus, internal_error_status, invalid_client_status, unauthorized_scopes_status,
  no_valid_refresh_token_status,
}
use mono_sso.Datastore.{
  Db, ClientRow, TokenRow, is_live, Outage, Statement, database, no_rows, Result, ok, err,
}
use mono_sso.Service.State.{Event, info, State, register_event, Call, Platform, or_return}
use mono_sso.Base64.{decode_secret}
use mono_sso.Service.Scopes.{get_unauthorized_scopes}

-- sso.NewRefreshTokenRequest
pub record NewRefreshTokenRequest : Type 0 where
  pub client_id : String
  pub subject : String
  pub session_id : String
  pub authorization_code : String
  pub duration : String
  pub force_new : Bool
  pub client_secret : String
  pub redirect_uri : String
  pub scopes : List String

-- sso.NewRefreshTokenResponse
pub record NewRefreshTokenResponse : Type 0 where
  pub status : Option ResponseStatus
  pub refresh_token_id : String
  pub expires_at : ℤ

abbrev pub refuse_token : ResponseStatus → NewRefreshTokenResponse
refuse_token status = record { status = some status; refresh_token_id = ""; expires_at = pos 0 }

abbrev secret_of : Option ClientRow → Result String
secret_of none = err no_rows
secret_of (some r) = elim r.secret [
  | none ↦ err (database Statement.select_secret)
  | some secret ↦ ok secret
]

-- `SELECT secret FROM sso.client WHERE deleted_at IS NULL AND id = $1`; a null secret does not scan.
unfoldable pub select_secret : Outage → Db → String → Result String
select_secret outage db client =
    if outage Statement.select_secret
    then err (database Statement.select_secret)
    else secret_of (head? (select (λ r. is_live r.deleted_at && r.id == client) db.clients))

abbrev matches : Platform → String → Option (List ℕ) → Bool
matches platform secret none = false
matches platform secret (some raw) = platform.bcrypt_matches secret raw

-- The secret of the request decodes and matches the stored hash.
unfoldable pub is_client_secret : Platform → String → String → Bool
unfolding decode_secret
is_client_secret platform secret given = matches platform secret (decode_secret given)

-- A refresh token of the account for the client that is not deleted.
abbrev pub is_token_of : String → String → TokenRow → Bool
is_token_of account client r =
    r.account_id == account
    && (r.client_id == client && (r.token_type == 0 && is_live r.deleted_at))

abbrev pub is_current : String → String → ℤ → TokenRow → Bool
is_current account client now r = is_token_of account client r && ltb_ℤ now r.expires_at

-- `SELECT id, expires_at FROM sso.token WHERE … AND expires_at > now()`; `ok none` is ErrNoRows.
unfoldable pub select_refresh_token : Call → Db → String → String → Result (Option TokenRow)
select_refresh_token call db account client =
    if call.outage Statement.select_refresh_token
    then err (database Statement.select_refresh_token)
    else ok (head? (select (is_current account client call.database_now) db.tokens))

-- `if !req.ForceNew { … }`
reuse_token :
    Call → NewRefreshTokenRequest → State → Flow (NewRefreshTokenResponse × State) (Unit {0})
reuse_token call req s = if req.force_new then next tt else (do
  current ←
      or_return (select_refresh_token call s.db req.subject req.client_id)
        (refuse_token internal_error_status, s)
  elim current [
    | some row ↦
        return (record { status = none; refresh_token_id = row.id; expires_at = row.expires_at }, s)
    | none ↦
        return_if (len req.authorization_code == 0) (refuse_token no_valid_refresh_token_status, s)
  ])

-- `UPDATE sso.token SET deleted_at = now() WHERE account_id = $1 AND client_id = $2 AND type = 0`
pub delete_token : String → String → ℤ → TokenRow → TokenRow
delete_token account client now r =
    if r.account_id == account && (r.client_id == client && r.token_type == 0)
    then record r { deleted_at = some now }
    else r

unfoldable pub new_token_row : Call → NewRefreshTokenRequest → String → ℤ → TokenRow
new_token_row call req id expires_at = record {
  id = id;
  account_id = req.subject;
  client_id = req.client_id;
  token_type = 0;
  expires_at = expires_at;
  created_at = call.database_now;
  updated_at = call.database_now;
  deleted_at = none;
}

-- The tables that the transaction commits.
unfoldable pub replace_token : Call → NewRefreshTokenRequest → String → ℤ → Db → Db
unfolding delete_token new_token_row
replace_token call req id expires_at db = record db {
  tokens =
      map (delete_token req.subject req.client_id call.database_now) db.tokens
      ++ new_token_row call req id expires_at ∷ [];
}

-- `time.Now().Add(tokenDuration)`, where a duration that does not parse is 0.
abbrev pub expiry : Platform → Call → NewRefreshTokenRequest → ℤ
expiry platform call req = elim (platform.parse_duration req.duration) [
  | none ↦ call.process_now +ℤ pos 0
  | some d ↦ call.process_now +ℤ d
]

abbrev token_event : Platform → NewRefreshTokenRequest → ℤ → Event
token_event platform req expires_at = record {
  level = info;
  is_sensitive = true;
  fields =
      ("type", "0")
      ∷ ("client_id", req.client_id)
      ∷ ("subject", req.subject)
      ∷ ("session_id", req.session_id)
      ∷ ("redirect_uri", req.redirect_uri)
      ∷ ("authorization_code", req.authorization_code)
      ∷ ("expires_at", platform.format_time expires_at)
      ∷ [];
}

-- From `BeginTx` to the end. The error of the INSERT is dropped: the transaction is then aborted,
-- and its commit reports the failure.
create_token :
    Platform
    → Call
    → NewRefreshTokenRequest
    → State
    → Flow (NewRefreshTokenResponse × State) (NewRefreshTokenResponse × State)
unfolding replace_token
create_token platform call req s = do
  return_if (call.outage Statement.begin_tx) (refuse_token internal_error_status, s)
  return_if (call.outage Statement.delete_tokens) (refuse_token internal_error_status, s)
  id ← elim call.new_id [
    | none ↦ return (refuse_token internal_error_status, s)
    | some id ↦ next id
  ]
  let expires_at = expiry platform call req
  return_if (call.outage Statement.insert_token || call.outage Statement.commit_tx)
      (refuse_token internal_error_status, s)
  next (
    record { status = none; refresh_token_id = id; expires_at = expires_at },
    register_event (token_event platform req expires_at)
        (record s { db = replace_token call req id expires_at s.db }),
  )

-- The client's secret and the grants of the subject.
check_client :
    Platform
    → Call
    → NewRefreshTokenRequest
    → State
    → Flow (NewRefreshTokenResponse × State) (Unit {0})
unfolding is_client_secret
check_client platform call req s = do
  secret ←
      or_return (select_secret call.outage s.db req.client_id)
        (refuse_token invalid_client_status, s)
  return_if (not (is_client_secret platform secret req.client_secret))
      (refuse_token invalid_client_status, s)
  unauthorized ←
      or_return (get_unauthorized_scopes call.outage s.db req.client_id req.subject req.scopes)
        (refuse_token internal_error_status, s)
  return_if (ltb 0 (length unauthorized)) (refuse_token unauthorized_scopes_status, s)

unfoldable pub new_refresh_token :
    Platform → Call → NewRefreshTokenRequest → State → NewRefreshTokenResponse × State
unfolding check_client reuse_token create_token
new_refresh_token platform call req s =
    run
      do check_client platform call req s; reuse_token call req s; create_token platform call req s
