-- ===== src/Datastore/Upserts.antt =====
-- What the upserts of pkg/datastore share: the surroundings of a call, the doc types, and the early
-- returns of their bodies.
use mono_sso.Prelude.{ℕ, String, Option, none, some, List, [], ◌∷◌}
use mono_sso.Prelude.Int.{ℤ}
use mono_sso.Prelude.Flow.{Flow, return, next}
use mono_sso.Datastore.Tables.{
  ClientType, Outage, Statement, Error, Result, ok, err, execute, validation,
}

-- `TenantDoc`; `none` is the zero time. No doc has its `DeletedAt`, which nothing sets or reads.
pub record TenantDoc : Type 0 where
  pub id : String
  pub name : String
  pub created_at : Option ℤ
  pub updated_at : Option ℤ

-- `ClientDoc`
pub record ClientDoc : Type 0 where
  pub id : String
  pub name : String
  pub secret : String
  pub redirect_uris : List String
  pub client_type : ClientType
  pub created_at : Option ℤ
  pub updated_at : Option ℤ

-- `ScopeDoc`
pub record ScopeDoc : Type 0 where
  pub id : String
  pub client_id : String
  pub scope : String
  pub created_at : Option ℤ
  pub updated_at : Option ℤ

-- `ScopeI18nDoc`
pub record ScopeI18nDoc : Type 0 where
  pub description : String
  pub locale : String

-- The library go-playground/validator on the tags of the docs: the fields that fail, each with the
-- tag that it fails on.
pub record DocValidator : Type 0 where
  pub tenant : TenantDoc → List (String × String)
  pub client : ClientDoc → List (String × String)
  pub scope : ScopeDoc → List (String × String)
  pub scope_i18n : ScopeI18nDoc → List (String × String)

-- What an upsert meets: the statements that fail, the validator, what the ID generator and the
-- random source yield, `none` for an error, and bcrypt.
pub record Surroundings : Type 0 where
  pub outage : Outage
  pub validator : DocValidator
  pub new_id : Option String
  pub random_bytes : Option (List ℕ)
  pub bcrypt_hash : List ℕ → Option String

-- What a call of an upsert comes to: `none` is a panic.
abbrev pub Upserted : Type 0 → Type 0
Upserted A = Option (Result A)

-- `if err != nil { return nil, err }`
abbrev pub attempt : {A B : Type 0} → Result B → Flow (Upserted A) B
attempt (ok b) = next b
attempt (err e) = return (some (err e))

abbrev pub run_statement : {A : Type 0} → Outage → Statement → Flow (Upserted A) (Unit {0})
run_statement outage s = attempt (execute outage s tt)

abbrev pub validate : {A : Type 0} → List (String × String) → Flow (Upserted A) (Unit {0})
validate [] = next tt
validate (f ∷ fs) = return (some (err (validation (f ∷ fs))))

-- A value that may be missing, with the error of its absence.
abbrev pub require : {A B : Type 0} → Error → Option B → Flow (Upserted A) B
require e none = return (some (err e))
require e (some b) = next b

-- The session of a request; a nil one is dereferenced.
abbrev pub dereference : {A B : Type 0} → Option B → Flow (Upserted A) B
dereference none = return none
dereference (some b) = next b

-- What the body has returned: the last step hands over the result.
abbrev pub finish : {A : Type 0} → Flow (Upserted A) A → Upserted A
finish (return r) = r
finish (next a) = some (ok a)
