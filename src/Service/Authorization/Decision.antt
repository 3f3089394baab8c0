-- ===== src/Service/Authorization/Decision.antt =====
-- When `AuthorizeClient` accepts, and what it has then checked.
use mono_sso.Prelude.{
  String, map, len, ◌≡◌, ◌≢◌, inl, inr, true, false, ◌&&◌, none, some, arith, length, head?,
  contains, select, In, head?-select, Option-cases, eq_iff, nat_eq, string_eq, ◌<◌,
}
use mono_sso.Datastore.{Db, ClientRow, ClientType, ScopeRow, Outage, Statement, ok, read_rows}
use mono_sso.Service.Scopes.Known.{IsDistinct, counted_known}
use mono_sso.Service.Scopes.Laws.{get_unauthorized_scopes-read}
use mono_sso.Datastore.Account.{is_account_in_tenant}
use mono_sso.Service.Scopes.{
  accepts_redirect, get_authorization_client, has_unknown_scopes, get_unauthorized_scopes,
  unauthorized_rows, is_scope_of,
}
use mono_sso.Service.Authorization.{AuthorizeClientRequest, authorize_client, check_known}

-- What holds of the tables and the request when `AuthorizeClient` reports no error: the account is
-- in the tenant, the client's live row `row` lists the redirect URI and has a name, its type allows
-- the response type, the scopes are as many as the client's live rows that they name, and the
-- response carries the client's name and the unauthorized scopes.
pub record Accepted (db : Db) (req : AuthorizeClientRequest) (row : ClientRow) : Type 0 where
  pub registered : In row db.clients
  pub redirect : accepts_redirect req.client_id req.redirect_uri row ≡ true
  pub named : len row.name ≢ 0
  pub allowed : row.client_type ≡ ClientType.public → req.response_type ≢ "code"
  pub in_tenant : is_account_in_tenant (λ _. false) db req.subject req.tenant_id ≡ ok true
  pub known :
      length (select (λ r. is_scope_of req.client_id r && contains req.scopes r.scope) db.scopes)
      ≡ length req.scopes

-- The client that the query finds first.
client_found :
    (outage : Outage) (db : Db) (req : AuthorizeClientRequest)
    → (authorize_client outage db req).status ≡ none
    → (row : ClientRow) × (head?
          (select (accepts_redirect req.client_id req.redirect_uri) db.clients)
        ≡ some row)
unfolding authorize_client get_authorization_client
client_found outage db req h =
    elim (Option-cases
      (head? (select (accepts_redirect req.client_id req.redirect_uri) db.clients))) [
        | inr found ↦ found
        | inl missing ↦ absurd (ground arith)
      ]

authorize_client_accepts :
    (outage : Outage) (db : Db) (req : AuthorizeClientRequest) (row : ClientRow)
    → head? (select (accepts_redirect req.client_id req.redirect_uri) db.clients) ≡ some row
    → (authorize_client outage db req).status ≡ none
    → Accepted db req row
unfolding authorize_client get_authorization_client is_account_in_tenant has_unknown_scopes
    get_unauthorized_scopes
authorize_client_accepts outage db req row found h =
    let m = head?-select (accepts_redirect req.client_id req.redirect_uri) row db.clients found in
    record {
      registered = m.0;
      redirect = m.1;
      named = ground arith;
      allowed = λ e. ground (arith, eq_iff req.response_type "code");
      in_tenant = ground arith;
      known = ground arith;
    }

-- The unauthorized scopes of the response are what the query returns.
pub reported :
    (outage : Outage) (db : Db) (req : AuthorizeClientRequest)
    → (authorize_client outage db req).status ≡ none
    → get_unauthorized_scopes outage db req.client_id req.subject req.scopes
      ≡ ok (authorize_client outage db req).unauthorized_scopes
unfolding authorize_client
reported outage db req h = ground arith

-- `AuthorizeClient` reports no error only to an account of the tenant, for a live client that lists
-- the redirect URI (and, if it is public, does not ask for a code). Where the live scopes of the
-- client have different names, every requested scope is then the name of one of them. The response
-- names the client, and reports the scopes that the query of `getUnauthorizedScopes` finds, up to
-- the first row that cannot be fetched.
pub authorize_client_sound :
    (outage : Outage) (db : Db) (req : AuthorizeClientRequest)
    → IsDistinct (map (λ r. r.scope) (select (is_scope_of req.client_id) db.scopes))
    → (authorize_client outage db req).status ≡ none
    → (row : ClientRow) × Accepted db req row
      × ((s : String)
          → In s req.scopes
          → (sco : ScopeRow) × In sco db.scopes
            × (is_scope_of req.client_id sco ≡ true)
            × (sco.scope ≡ s))
      × ((authorize_client outage db req).client_name ≡ row.name)
      × ((authorize_client outage db req).unauthorized_scopes
          ≡ read_rows outage Statement.next_unauthorized_scope 0
              (unauthorized_rows req.client_id req.subject db req.scopes))
unfolding authorize_client get_authorization_client
authorize_client_sound outage db req distinct h =
    let (row, found) = client_found outage db req h in
    let accepted = authorize_client_accepts outage db req row found h in
    (
      row,
      accepted,
      λ s m. counted_known db req.client_id req.scopes s distinct accepted.known m,
      ground arith,
      get_unauthorized_scopes-read outage db req.client_id req.subject req.scopes _
          (reported outage db req h),
    )

-- Without database faults, what `Accepted` states of the first client row that matches is also
-- enough, where at least one scope is asked for.
pub authorize_client_complete :
    (db : Db) (req : AuthorizeClientRequest) (row : ClientRow)
    → head? (select (accepts_redirect req.client_id req.redirect_uri) db.clients) ≡ some row
    → 0 < length req.scopes
    → Accepted db req row
    → (authorize_client (λ _. false) db req).status ≡ none
unfolding authorize_client get_authorization_client is_account_in_tenant has_unknown_scopes
    get_unauthorized_scopes check_known
authorize_client_complete db req row found some_scope a =
    ground (arith, a.allowed, a.named, a.known, a.in_tenant, eq_iff req.response_type "code")
