-- ===== src/Service/Scopes.antt =====
-- cmd/sso-service/authorization.go: the queries on clients, scopes and grants.
pub mod Laws
pub mod Known
use mono_sso.Prelude.{
  ℕ, String, Bool, true, false, ◌&&◌, not, Option, none, some, List, [], ◌∷◌, ltb, length, head?,
  contains, select, any, concat_map, ◌==◌, nat_eq, string_eq, if◌then◌else◌,
}
use mono_sso.Datastore.{
  Db, ClientRow, ClientType, ScopeRow, GrantRow, is_live, Outage, Statement, database, no_rows,
  Result, ok, err, execute, read_rows,
}

-- A live scope of the client: `sco.client_id = $1 AND sco.deleted_at IS NULL`.
abbrev pub is_scope_of : String → ScopeRow → Bool
is_scope_of client r = r.client_id == client && is_live r.deleted_at

-- A live grant: `grt.scope_id = sco.id AND grt.account_id = $2 AND grt.deleted_at IS NULL`.
abbrev pub is_grant_of : String → String → GrantRow → Bool
is_grant_of account scope_id r =
    r.scope_id == scope_id && (r.account_id == account && is_live r.deleted_at)

-- The rows of the join for one requested scope and one row of sso.scope, cut down by
-- `WHERE grt.created_at IS NULL`: `created_at` is not null, so no joined grant passes.
unfoldable pub join_scope : String → String → Db → String → ScopeRow → List String
join_scope client account db rscope sco =
    if is_scope_of client sco && sco.scope == rscope
    then if any (is_grant_of account sco.id) db.grants then [] else rscope ∷ []
    else []

unfoldable pub unauthorized_rows : String → String → Db → List String → List String
unauthorized_rows client account db scopes =
    concat_map (λ rscope. concat_map (join_scope client account db rscope) db.scopes) scopes

abbrev scan_scopes : Outage → List String → Result (List String)
scan_scopes outage read =
    if outage Statement.scan_unauthorized_scope && ltb 0 (length read)
    then err (database Statement.scan_unauthorized_scope)
    else ok read

-- `getUnauthorizedScopes`. Postgres refuses `ARRAY[]`, whose element type it cannot tell.
unfoldable pub get_unauthorized_scopes :
    Outage → Db → String → String → List String → Result (List String)
get_unauthorized_scopes outage db client account [] =
    err (database Statement.prepare_unauthorized_scopes)
get_unauthorized_scopes outage db client account (s ∷ ss) =
    let rows = unauthorized_rows client account db (s ∷ ss) in
    if outage Statement.prepare_unauthorized_scopes
    then err (database Statement.prepare_unauthorized_scopes)
    else if outage Statement.query_unauthorized_scopes
    then err (database Statement.query_unauthorized_scopes)
    else scan_scopes outage (read_rows outage Statement.next_unauthorized_scope 0 rows)

-- `hasUnknownScopes`: the number of the client's live rows among the scopes is not theirs. The
-- caller asks with at least one scope.
unfoldable pub has_unknown_scopes : Outage → Db → String → List String → Result Bool
has_unknown_scopes outage db client scopes =
    if outage Statement.prepare_unknown_scopes
    then err (database Statement.prepare_unknown_scopes)
    else execute outage Statement.count_scopes (
        not (
          length (select (λ r. is_scope_of client r && contains scopes r.scope) db.scopes)
          == length scopes))

abbrev pub accepts_redirect : String → String → ClientRow → Bool
accepts_redirect client uri r =
    r.id == client && (contains r.redirect_uris uri && is_live r.deleted_at)

abbrev named_client : Option ClientRow → Result (String × ClientType)
named_client none = err no_rows
named_client (some r) = ok (r.name, r.client_type)

-- `getAuthorizationClient`
unfoldable pub get_authorization_client :
    Outage → Db → String → String → Result (String × ClientType)
get_authorization_client outage db client uri =
    if outage Statement.select_authorization_client
    then err (database Statement.select_authorization_client)
    else named_client (head? (select (accepts_redirect client uri) db.clients))
