-- ===== src/Service/Authorization/Grants.antt =====
-- What `GrantScopes` does to the grants.
use mono_sso.Prelude.{
  ℕ, String, ◌≡◌, ◌≢◌, refl, sym, ◌∙◌, ap, inl, inr, true, ◌&&◌, none, some, List, [], ◌∷◌, arith,
  contains, select, any, In, In-select, In-map, contains-In, Option-cases, Bool-cases, eq_iff,
  nat_eq, string_eq,
}
use mathlib.Core.Bool.{false, false≢true}
use mono_sso.Prelude.Int.{ℤ}
use mono_sso.Constants.{ResponseStatus}
use mono_sso.Datastore.{
  Db, GrantRow, ScopeRow, Statement, ok, read_rows, read_rows-whole, Result-cases,
}
use mono_sso.Service.State.{State, Call}
use mono_sso.Service.Scopes.{is_scope_of, is_grant_of, unauthorized_rows, get_unauthorized_scopes}
use mono_sso.Service.Scopes.Laws.{
  IsUngranted, In-unauthorized_rows, unauthorized_rows-nil, unauthorized_rows_congr,
  get_unauthorized_scopes-read,
}
use mono_sso.Service.Authorization.{
  GrantScopesRequest, grant_scopes, scope_ids, upsert_grant, upsert_grants,
}

-- A call that reports an error has changed nothing, and has logged nothing.
pub grant_scopes_atomic :
    (call : Call) (req : GrantScopesRequest) (s : State) {status : ResponseStatus}
    → (grant_scopes call req s).0 ≡ some status
    → (grant_scopes call req s).1 ≡ s
unfolding grant_scopes
grant_scopes_atomic call req s h = ground arith

-- The identifiers that a call has read.
abbrev ids_read : Call → GrantScopesRequest → Db → List String
ids_read call req db = read_rows call.outage Statement.next_scope_id 0 (
    scope_ids db req.client_id (
      read_rows call.outage Statement.next_unauthorized_scope 0
        (unauthorized_rows req.client_id req.subject db req.scopes)))

-- Where every row can be fetched, they are those of the rows.
ids_read-whole :
    (call : Call) (req : GrantScopesRequest) (db : Db)
    → ((i : ℕ) → call.outage (Statement.next_unauthorized_scope i) ≡ false)
    → ((i : ℕ) → call.outage (Statement.next_scope_id i) ≡ false)
    → ids_read call req db
      ≡ scope_ids db req.client_id (unauthorized_rows req.client_id req.subject db req.scopes)
ids_read-whole call req db whole whole_ids =
    read_rows-whole call.outage Statement.next_scope_id 0 _ whole_ids
    ∙ ap (scope_ids db req.client_id)
        (read_rows-whole call.outage Statement.next_unauthorized_scope 0 _ whole)

granted_db :
    (call : Call) (req : GrantScopesRequest) (s : State) (rows : List String)
    → get_unauthorized_scopes call.outage s.db req.client_id req.subject req.scopes ≡ ok rows
    → (grant_scopes call req s).0 ≡ none
    → (grant_scopes call req s).1.db ≡ record (s.db) {
      grants =
          upsert_grants req.subject call.database_now
            (read_rows call.outage Statement.next_scope_id 0 (scope_ids s.db req.client_id rows))
            s.db.grants;
    }
unfolding grant_scopes
granted_db call req s rows f h = ground arith

-- The tables after a call that succeeds.
grant_scopes_db :
    (call : Call) (req : GrantScopesRequest) (s : State)
    → (grant_scopes call req s).0 ≡ none
    → (grant_scopes call req s).1.db ≡ record (s.db) {
      grants = upsert_grants req.subject call.database_now (ids_read call req s.db) s.db.grants;
    }
unfolding grant_scopes
grant_scopes_db call req s h =
    elim (Result-cases
      (get_unauthorized_scopes call.outage s.db req.client_id req.subject req.scopes)) [
        | inr (e, f) ↦ absurd (ground arith)
        | inl (rows, f) ↦
            let read =
              get_unauthorized_scopes-read call.outage s.db req.client_id req.subject req.scopes
                rows f in
            granted_db call req s rows f h
            ∙ ap
                (λ l. record (s.db) {
                  grants =
                      upsert_grants req.subject call.database_now
                        (read_rows call.outage Statement.next_scope_id 0
                          (scope_ids s.db req.client_id l))
                        s.db.grants;
                })
                read
      ]

module _ (account : String) (now : ℤ) where
  -- The upserts keep every live grant, of any account.
  upsert_grant_keeps :
      (who id sid : String) (rs : List GrantRow)
      → any (is_grant_of who sid) rs ≡ true
      → any (is_grant_of who sid) (upsert_grant account now id rs) ≡ true
  unfolding upsert_grant
  upsert_grant_keeps who id sid [] h = absurd (cc)
  upsert_grant_keeps who id sid (r ∷ rs) h = ground (arith, upsert_grant_keeps who id sid rs)

  upsert_grants_keep :
      (who sid : String) (ids : List String) (rs : List GrantRow)
      → any (is_grant_of who sid) rs ≡ true
      → any (is_grant_of who sid) (upsert_grants account now ids rs) ≡ true
  unfolding upsert_grants
  upsert_grants_keep who sid [] rs h = h
  upsert_grants_keep who sid (id ∷ ids) rs h =
      upsert_grants_keep who sid ids (upsert_grant account now id rs)
        (upsert_grant_keeps who id sid rs h)

  upsert_grant_adds :
      (id : String) (rs : List GrantRow)
      → any (is_grant_of account id) (upsert_grant account now id rs) ≡ true
  unfolding upsert_grant
  upsert_grant_adds id [] = ground (arith, eq_iff id id, eq_iff account account)
  upsert_grant_adds id (r ∷ rs) =
      ground (arith, upsert_grant_adds id rs, eq_iff id id, eq_iff account account)

  upsert_grants_add :
      (id : String) (ids : List String) (rs : List GrantRow)
      → In id ids
      → any (is_grant_of account id) (upsert_grants account now ids rs) ≡ true
  unfolding upsert_grants
  upsert_grants_add id [] rs m = absurd m
  upsert_grants_add id (j ∷ ids) rs (inl e) =
      upsert_grants_keep account id ids (upsert_grant account now j rs)
        (rw e (upsert_grant_adds j rs))
  upsert_grants_add id (j ∷ ids) rs (inr m) =
      upsert_grants_add id ids (upsert_grant account now j rs) m

  -- They touch no grant of another account.
  upsert_grant_others :
      (who id sid : String) (rs : List GrantRow)
      → who ≢ account
      → any (is_grant_of who sid) (upsert_grant account now id rs) ≡ any (is_grant_of who sid) rs
  unfolding upsert_grant
  upsert_grant_others who id sid [] ne = ground (arith, eq_iff account who)
  upsert_grant_others who id sid (r ∷ rs) ne = ground (
    arith,
    upsert_grant_others who id sid rs ne,
    eq_iff r.account_id who,
    eq_iff r.account_id account,
  )

  upsert_grants_others :
      (who sid : String) (ids : List String) (rs : List GrantRow)
      → who ≢ account
      → any (is_grant_of who sid) (upsert_grants account now ids rs) ≡ any (is_grant_of who sid) rs
  unfolding upsert_grants
  upsert_grants_others who sid [] rs ne = refl
  upsert_grants_others who sid (id ∷ ids) rs ne =
      upsert_grants_others who sid ids (upsert_grant account now id rs) ne
      ∙ upsert_grant_others who id sid rs ne

-- The identifiers that `GrantScopes` looks up include that of every ungranted row.
scope_ids-In :
    (db : Db) (client account s : String) (sco : ScopeRow) (scopes : List String)
    → In s scopes
    → IsUngranted client account db s sco
    → In sco.id (scope_ids db client (unauthorized_rows client account db scopes))
unfolding scope_ids
scope_ids-In db client account s sco scopes m u =
    let rows = unauthorized_rows client account db scopes in
    let reported = In-unauthorized_rows client account db s sco scopes m u in
    In-map (λ r. r.id) sco (select (λ r. is_scope_of client r && contains rows r.scope) db.scopes)
      (In-select (λ r. is_scope_of client r && contains rows r.scope) sco db.scopes u.0
        (rw (u.1, u.2) (contains-In s rows reported)))

-- Once `GrantScopes` has succeeded, and every row of its two queries could be fetched, none of the
-- requested scopes is unauthorized any more: the query of `getUnauthorizedScopes` over the new
-- tables, for the same client, account and scopes, finds no row.
pub grant_scopes_authorizes :
    (call : Call) (req : GrantScopesRequest) (s : State)
    → ((i : ℕ) → call.outage (Statement.next_unauthorized_scope i) ≡ false)
    → ((i : ℕ) → call.outage (Statement.next_scope_id i) ≡ false)
    → (grant_scopes call req s).0 ≡ none
    → unauthorized_rows req.client_id req.subject (grant_scopes call req s).1.db req.scopes ≡ []
grant_scopes_authorizes call req s whole whole_ids h =
    rw (grant_scopes_db call req s h, ids_read-whole call req s.db whole whole_ids)
      (unauthorized_rows-nil client account db' req.scopes λ name sco m u.
        elim (Bool-cases (any (is_grant_of account sco.id) s.db.grants)) [
          | inl before ↦
              false≢true
                (sym u.3 ∙ upsert_grants_keep account now account sco.id ids s.db.grants before)
          | inr missing ↦ false≢true (
              sym u.3
              ∙ upsert_grants_add account now sco.id ids s.db.grants
                  (scope_ids-In s.db client account name sco req.scopes m (u.0, u.1, u.2, missing)))
        ])
  where
    client : String
    client = req.client_id

    account : String
    account = req.subject

    now : ℤ
    now = call.database_now

    ids : List String
    ids = scope_ids s.db client (unauthorized_rows client account s.db req.scopes)

    db' : Db
    db' = record (s.db) { grants = upsert_grants account now ids s.db.grants }

-- `GrantScopes` for one account, whether it succeeds or not, leaves what is unauthorized for any
-- other account as it was, for every client and all scopes.
pub grant_scopes_others :
    (call : Call) (req : GrantScopesRequest) (s : State) (client who : String)
    (scopes : List String)
    → who ≢ req.subject
    → unauthorized_rows client who (grant_scopes call req s).1.db scopes
      ≡ unauthorized_rows client who s.db scopes
grant_scopes_others call req s client who scopes ne =
    elim (Option-cases (grant_scopes call req s).0) [
      | inr (status, e) ↦ rw (grant_scopes_atomic call req s e)
      | inl e ↦ rw (grant_scopes_db call req s e) (
          unauthorized_rows_congr client who s.db _ scopes refl λ sid.
            upsert_grants_others req.subject call.database_now who sid (ids_read call req s.db)
              s.db.grants ne)
    ]
