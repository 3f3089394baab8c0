-- ===== src/Service/Authorization.antt =====
-- cmd/sso-service/authorization-server.go: `AuthorizeClient` and `GrantScopes`.
pub mod Grants
pub mod Decision
use mono_sso.Prelude.{
  ℕ, String, len, Bool, true, false, ◌&&◌, ◌||◌, not, Option, none, some, List, [], ◌∷◌, ◌++◌, map,
  ltb, length, contains, select, any, concat_map, join, ◌==◌, nat_eq, string_eq, if◌then◌else◌,
}
use mono_sso.Prelude.Int.{ℤ}
use mono_sso.Prelude.Flow.{Flow, return, next, ◌>>=◌, ◌>>◌, run, return_if}
use mono_sso.Constants.{
  ResponseStatus, internal_error_status, invalid_tenant_status, unknown_scopes_status,
  invalid_client_status, invalid_response_type_status, invalid_grant_status,
}
use mono_sso.Datastore.{
  Db, ClientType, ScopeRow, GrantRow, is_live, Outage, Statement, database, Result, ok, err,
  execute, read_rows,
}
use mono_sso.Datastore.Account.{is_account_in_tenant}
use mono_sso.Service.State.{Event, info, State, register_event, Call, or_return}
use mono_sso.Service.Scopes.{
  is_scope_of, is_grant_of, get_unauthorized_scopes, has_unknown_scopes, get_authorization_client,
}

-- sso.AuthorizeClientRequest, without the state, which the handler does not read.
pub record AuthorizeClientRequest : Type 0 where
  pub subject : String
  pub client_id : String
  pub response_type : String
  pub redirect_uri : String
  pub scopes : List String
  pub tenant_id : String

pub record AuthorizeClientResponse : Type 0 where
  pub status : Option ResponseStatus
  pub unauthorized_scopes : List String
  pub client_name : String

abbrev refuse_client : ResponseStatus → AuthorizeClientResponse
refuse_client status = record { status = some status; unauthorized_scopes = []; client_name = "" }

abbrev is_public : ClientType → Bool
is_public ClientType.public = true
is_public ClientType.confidential = false

-- `if len(req.Scopes) > 0 { … }`
check_known : Outage → Db → AuthorizeClientRequest → Flow AuthorizeClientResponse (Unit {0})
check_known outage db req =
    if ltb 0 (length req.scopes)
    then (do
      unknown ←
          or_return (has_unknown_scopes outage db req.client_id req.scopes)
            (refuse_client internal_error_status)
      return_if unknown (refuse_client unknown_scopes_status))
    else next tt

-- `AuthorizeClient` reads the tables and changes nothing.
unfoldable pub authorize_client : Outage → Db → AuthorizeClientRequest → AuthorizeClientResponse
unfolding check_known
authorize_client outage db req = run do
  is_in_tenant ←
      or_return (is_account_in_tenant outage db req.subject req.tenant_id)
        (refuse_client internal_error_status)
  return_if (not is_in_tenant) (refuse_client invalid_tenant_status)
  check_known outage db req
  client ←
      or_return (get_authorization_client outage db req.client_id req.redirect_uri)
        (refuse_client internal_error_status)
  return_if (len client.0 == 0) (refuse_client invalid_client_status)
  return_if (is_public client.1 && req.response_type == "code")
      (refuse_client invalid_response_type_status)
  unauthorized ←
      or_return (get_unauthorized_scopes outage db req.client_id req.subject req.scopes) (record {
        status = some internal_error_status;
        unauthorized_scopes = [];
        client_name = client.0;
      })
  next (record { status = none; unauthorized_scopes = unauthorized; client_name = client.0 })

-- sso.GrantScopesRequest
pub record GrantScopesRequest : Type 0 where
  pub client_id : String
  pub subject : String
  pub scopes : List String
  pub tenant_id : String

-- sso.GrantScopesResponse is its status.
abbrev pub GrantScopesResponse : Type 0
GrantScopesResponse = Option ResponseStatus

-- `SELECT id FROM sso.scope WHERE client_id = $1 AND deleted_at IS NULL AND scope IN (…)`
unfoldable pub scope_ids : Db → String → List String → List String
scope_ids db client scopes =
    map (λ r. r.id) (select (λ r. is_scope_of client r && contains scopes r.scope) db.scopes)

-- One row of `INSERT … ON CONFLICT … (scope_id, account_id) DO UPDATE SET deleted_at = null,
-- updated_at = now()`.
pub upsert_grant : String → ℤ → String → List GrantRow → List GrantRow
upsert_grant account now id [] =
    record {
      account_id = account;
      scope_id = id;
      created_at = now;
      updated_at = now;
      deleted_at = none;
    }
    ∷ []
upsert_grant account now id (r ∷ rs) =
    if r.scope_id == id && r.account_id == account
    then record r { deleted_at = none; updated_at = now } ∷ rs
    else r ∷ upsert_grant account now id rs

unfoldable pub upsert_grants : String → ℤ → List String → List GrantRow → List GrantRow
unfolding upsert_grant
upsert_grants account now [] rs = rs
upsert_grants account now (id ∷ ids) rs =
    upsert_grants account now ids (upsert_grant account now id rs)

-- Postgres refuses an `INSERT` with no row of values.
insert_grants : Outage → ℤ → Db → String → List String → Result Db
insert_grants outage now db account [] = err (database Statement.upsert_grants)
insert_grants outage now db account (id ∷ ids) =
    execute outage Statement.upsert_grants
      (record db { grants = upsert_grants account now (id ∷ ids) db.grants })

abbrev scan_ids : Outage → List String → Result (List String)
scan_ids outage read =
    if outage Statement.scan_scope_id && ltb 0 (length read)
    then err (database Statement.scan_scope_id)
    else ok read

-- The query and the loop over its rows.
read_scope_ids : Outage → Db → String → List String → Result (List String)
read_scope_ids outage db client scopes =
    if outage Statement.select_scope_ids
    then err (database Statement.select_scope_ids)
    else scan_ids outage (read_rows outage Statement.next_scope_id 0 (scope_ids db client scopes))

abbrev grant_event : GrantScopesRequest → Event
grant_event req = record {
  level = info;
  is_sensitive = true;
  fields =
      ("account_id", req.client_id)
      ∷ ("client_id", req.client_id)
      ∷ ("scopes", join req.scopes ", ")
      ∷ [];
}

unfoldable pub grant_scopes : Call → GrantScopesRequest → State → GrantScopesResponse × State
unfolding insert_grants read_scope_ids
grant_scopes call req s = run do
  return_if (length req.scopes == 0) (some invalid_grant_status, s)
  is_in_tenant ←
      or_return (is_account_in_tenant call.outage s.db req.subject req.tenant_id)
        (some internal_error_status, s)
  return_if (not is_in_tenant) (some invalid_tenant_status, s)
  scopes ←
      or_return (get_unauthorized_scopes call.outage s.db req.client_id req.subject req.scopes)
        (some internal_error_status, s)
  return_if (length scopes == 0 || not (length scopes == length req.scopes))
      (some invalid_grant_status, s)
  ids ←
      or_return (read_scope_ids call.outage s.db req.client_id scopes)
        (some internal_error_status, s)
  db ←
      or_return (insert_grants call.outage call.database_now s.db req.subject ids)
        (some internal_error_status, s)
  next (none, register_event (grant_event req) (record s { db = db }))
