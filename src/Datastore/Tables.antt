-- ===== src/Datastore/Tables.antt =====
-- The rows of the schema in deployments/db/migrations/000001_create_schema.up.sql, the Go errors
-- and results of the data-access code, and the statements that can fail.
use mono_sso.Prelude.{
  ℕ, suc, String, Bool, true, false, Option, List, [], ◌∷◌, is_none, ◌≡◌, refl, ◌⊎◌, inl, inr, ap,
  Bool-cases, if◌then◌else◌,
}
use mono_sso.Prelude.Int.{ℤ}

-- sso.ActivationMethod
pub data ActivationMethod : Type 0 where
  none_method email sms google_authenticator webhook whatsapp : ActivationMethod

-- sso.ClientType
pub data ClientType : Type 0 where
  public confidential : ClientType

pub record TenantRow : Type 0 where
  pub id : String
  pub name : String
  pub created_at : ℤ
  pub updated_at : ℤ

pub record AccountRow : Type 0 where
  pub id : String
  pub name : String
  pub activation_method : ActivationMethod
  pub password : Option String
  pub deleted_at : Option ℤ

pub record AccountTenantRow : Type 0 where
  pub account_id : String
  pub tenant_id : String
  pub deleted_at : Option ℤ

pub record AccountIdentifierRow : Type 0 where
  pub account_id : String
  pub identifier : String

pub record ClientRow : Type 0 where
  pub id : String
  pub name : String
  pub client_type : ClientType
  pub redirect_uris : List String
  pub secret : Option String
  pub created_at : ℤ
  pub updated_at : ℤ
  pub deleted_at : Option ℤ

pub record ScopeRow : Type 0 where
  pub id : String
  pub client_id : String
  pub scope : String
  pub created_at : ℤ
  pub updated_at : ℤ
  pub deleted_at : Option ℤ

pub record ScopeI18nRow : Type 0 where
  pub scope_id : String
  pub locale : String
  pub description : String
  pub created_at : ℤ
  pub updated_at : ℤ

pub record GrantRow : Type 0 where
  pub account_id : String
  pub scope_id : String
  pub created_at : ℤ
  pub updated_at : ℤ
  pub deleted_at : Option ℤ

pub record TokenRow : Type 0 where
  pub id : String
  pub account_id : String
  pub client_id : String
  pub token_type : ℕ
  pub expires_at : ℤ
  pub created_at : ℤ
  pub updated_at : ℤ
  pub deleted_at : Option ℤ

pub record Db : Type 0 where
  pub tenants : List TenantRow
  pub accounts : List AccountRow
  pub account_tenants : List AccountTenantRow
  pub account_identifiers : List AccountIdentifierRow
  pub clients : List ClientRow
  pub scopes : List ScopeRow
  pub scopes_i18n : List ScopeI18nRow
  pub grants : List GrantRow
  pub tokens : List TokenRow

-- `deleted_at IS NULL`
abbrev pub is_live : Option ℤ → Bool
is_live = is_none

-- The statements, named for what they do: each stands for one call of the database client, and
-- `next_…` for the call of `Next` that is to fetch the row with this index.
pub data Statement : Type 0 where
  begin_tx commit_tx : Statement
  count_account_tenants select_account : Statement
  prepare_unauthorized_scopes query_unauthorized_scopes scan_unauthorized_scope : Statement
  next_unauthorized_scope next_scope_id : ℕ → Statement
  prepare_unknown_scopes count_scopes : Statement
  select_authorization_client select_secret : Statement
  select_scope_ids scan_scope_id upsert_grants delete_grants : Statement
  select_refresh_token delete_tokens insert_token : Statement
  select_client count_clients update_client insert_client : Statement
  select_scope upsert_scope upsert_scope_i18n : Statement
  select_tenant count_tenants update_tenant insert_tenant : Statement
  next_setup insert_account insert_account_identifier insert_account_tenant : Statement
  insert_scope insert_scope_i18n : Statement

-- The errors that the data-access code returns.
pub data Error : Type 0 where
  database : Statement → Error
  no_rows client_not_found scope_not_found tenant_not_found version_mismatch : Error
  id_generation random_source hashing : Error
  validation : List (String × String) → Error

pub data Result {ℓ} (A : Type ℓ) : Type ℓ where
  ok : A → Result A
  err : Error → Result A

-- Which statements of a call come back with an error, whatever the reason.
abbrev pub Outage : Type 0
Outage = Statement → Bool

-- A statement that may fail, and otherwise has this result.
abbrev pub execute {ℓ} : {A : Type ℓ} → Outage → Statement → A → Result A
execute outage s a = if outage s then err (database s) else ok a

-- `for result.Next() { … }`: the rows before the first one that cannot be fetched. No caller asks for
-- `result.Err()`, so that what is read then passes for all there is.
abbrev pub read_rows {ℓ} : {A : Type ℓ} → Outage → (ℕ → Statement) → ℕ → List A → List A
read_rows outage fetch n [] = []
read_rows outage fetch n (x ∷ xs) =
    let rest = read_rows outage fetch (suc n) xs in if outage (fetch n) then [] else x ∷ rest

pub Result-cases {ℓ} :
    {A : Type ℓ} (r : Result A) → ((a : A) × (r ≡ ok a)) ⊎ ((e : Error) × (r ≡ err e))
Result-cases (ok a) = inl (a, refl)
Result-cases (err e) = inr (e, refl)

module _ {ℓ} {A : Type ℓ} (outage : Outage) (fetch : ℕ → Statement) where
  -- Where every row can be fetched, all are read.
  pub read_rows-whole :
      (n : ℕ) (rows : List A)
      → ((i : ℕ) → outage (fetch i) ≡ false)
      → read_rows outage fetch n rows ≡ rows
  read_rows-whole n [] h = refl
  read_rows-whole n (x ∷ xs) h = rw (h n) (ap (λ l. x ∷ l) (read_rows-whole (suc n) xs h))

  -- Nothing is read only where there is nothing, or the first row cannot be fetched.
  pub read_rows-nil :
      (n : ℕ) (rows : List A)
      → read_rows outage fetch n rows ≡ []
      → (rows ≡ []) ⊎ (outage (fetch n) ≡ true)
  read_rows-nil n [] h = inl refl
  read_rows-nil n (x ∷ xs) h = elim (Bool-cases (outage (fetch n))) [
    | inl broken ↦ inr broken
    | inr fine ↦ absurd (let e = rw fine at h in cc)
  ]
