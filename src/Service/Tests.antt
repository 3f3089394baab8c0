-- ===== src/Service/Tests.antt =====
-- A small service, and the theorems at inputs that run the handlers over it.
mod Refinement
use mono_sso.Prelude.{
  String, Bool, ◌≡◌, ◌≢◌, refl, ◌↔◌, ◌⊎◌, inl, inr, true, false, ◌&&◌, none, some, [], ◌∷◌, arith,
  length, In, eq_iff, ◌==◌, nat_eq, string_eq,
}
use mono_sso.Prelude.Int.{pos, ◌+ℤ◌}
use mono_sso.Constants.{no_valid_refresh_token_status}
use mono_sso.Datastore.{Db, ClientRow, ClientType, ScopeRow, TokenRow, Statement, ok}
use mono_sso.Datastore.Account.{is_account_in_tenant, revoke_token}
use mono_sso.Service.State.{State, Call, Platform}
use mono_sso.Base64.{decode_secret}
use mono_sso.Service.Scopes.{
  is_scope_of, join_scope, unauthorized_rows, get_unauthorized_scopes, has_unknown_scopes,
  get_authorization_client,
}
use mono_sso.Service.Scopes.Laws.{IsUngranted, get_unauthorized_scopes-IsUngranted}
use mono_sso.Service.Authorization.{
  AuthorizeClientRequest, authorize_client, GrantScopesRequest, grant_scopes, scope_ids,
}
use mono_sso.Service.Authorization.Grants.{grant_scopes_authorizes, grant_scopes_others}
use mono_sso.Service.Authorization.Decision.{
  Accepted, authorize_client_sound, authorize_client_complete,
}
use mono_sso.Service.RefreshToken.{
  NewRefreshTokenRequest, new_refresh_token, is_token_of, new_token_row, refuse_token,
  select_secret, is_client_secret, select_refresh_token,
}
use mono_sso.Service.Atomic.{errors_atomic}
use mono_sso.Service.RefreshToken.Checks.{new_refresh_token_checks, new_refresh_token-IsTokenOf}
use mono_sso.Service.RefreshToken.Rotation.{
  IsSingle, live_tokens, new_refresh_token-IsSingle, new_refresh_token_rotates,
}
use mono_sso.Service.RefreshToken.Reuse.{
  IsEntitled, new_refresh_token_reuses, new_refresh_token_revoked,
}
use mono_sso.Cache.Local.{local_redis}
use mono_sso.Service.Activation.{Cached}
use mono_sso.Service.Account.{handle_revoke_token}
use mono_sso.Service.Reachable.{issues, revokes_token, start, then_step, Reaches-IsSingle}
use mono_sso.Service.Scopes.Known.{has_unknown_scopes_sound}

abbrev web_app : ClientRow
web_app = record {
  id = "web";
  name = "Web app";
  client_type = ClientType.confidential;
  redirect_uris = "https://web.example/cb" ∷ [];
  secret = some "hash";
  created_at = pos 1;
  updated_at = pos 1;
  deleted_at = none;
}

abbrev scope_row : String → String → ScopeRow
scope_row id name = record {
  id = id;
  client_id = "web";
  scope = name;
  created_at = pos 1;
  updated_at = pos 1;
  deleted_at = none;
}

abbrev tables : Db
tables = record {
  tenants = [];
  accounts = [];
  account_tenants =
      record { account_id = "ann"; tenant_id = "acme"; deleted_at = none }
      ∷ record { account_id = "bob"; tenant_id = "acme"; deleted_at = none }
      ∷ [];
  account_identifiers = [];
  clients = web_app ∷ [];
  scopes = scope_row "s1" "read" ∷ scope_row "s2" "write" ∷ [];
  scopes_i18n = [];
  grants = [];
  tokens = [];
}

abbrev service : State
service = record { db = tables; events = [] }

abbrev call : Call
call = record {
  outage = λ _. false;
  database_now = pos 100;
  process_now = pos 101;
  new_id = some "t1";
}

abbrev platform : Platform
platform = record {
  bcrypt_matches = λ hash raw. hash == "hash" && length raw == 5;
  parse_duration = λ s. some (pos 3600);
  format_time = λ t. "later";
}

abbrev ask : AuthorizeClientRequest
ask = record {
  subject = "ann";
  client_id = "web";
  response_type = "code";
  redirect_uri = "https://web.example/cb";
  scopes = "read" ∷ "write" ∷ [];
  tenant_id = "acme";
}

abbrev grant : GrantScopesRequest
grant = record {
  client_id = "web";
  subject = "ann";
  scopes = "read" ∷ "write" ∷ [];
  tenant_id = "acme";
}

grants_both : (grant_scopes call grant service).0 ≡ none
unfolding grant_scopes is_account_in_tenant get_unauthorized_scopes unauthorized_rows join_scope
    scope_ids
grants_both = refl

abbrev granted : State
granted = (grant_scopes call grant service).1

asks : (authorize_client (λ _. false) tables ask).status ≡ none
unfolding authorize_client is_account_in_tenant get_unauthorized_scopes has_unknown_scopes
    get_authorization_client
asks = refl

get_unauthorized_scopes-IsUngranted_example : In {A = String} "write" ("read" ∷ "write" ∷ []) ↔ (
    In {A = String} "write" ("read" ∷ "write" ∷ [])
    × ((sco : ScopeRow) × IsUngranted "web" "ann" tables "write" sco))
unfolding get_unauthorized_scopes unauthorized_rows join_scope
get_unauthorized_scopes-IsUngranted_example =
    get_unauthorized_scopes-IsUngranted (λ _. false) tables "web" "ann" ("read" ∷ "write" ∷ [])
      ("read" ∷ "write" ∷ []) "write" (λ i. refl) refl

-- Where the first row cannot be fetched, nothing is reported.
abbrev cut_off : Statement → Bool
cut_off (Statement.next_unauthorized_scope n) = true
cut_off _ = false

cut_off_unauthorized :
    get_unauthorized_scopes cut_off tables "web" "ann" ("read" ∷ "write" ∷ []) ≡ ok []
unfolding get_unauthorized_scopes unauthorized_rows join_scope
cut_off_unauthorized = refl

grant_scopes_authorizes_example :
    unauthorized_rows "web" "ann" granted.db ("read" ∷ "write" ∷ []) ≡ []
grant_scopes_authorizes_example =
    grant_scopes_authorizes call grant service (λ i. refl) (λ i. refl) grants_both

ann_not_bob : ◌≢◌ {A = String} "bob" "ann"
ann_not_bob = ground (arith, eq_iff "bob" "ann")

grant_scopes_others_example :
    unauthorized_rows "web" "bob" granted.db ("read" ∷ [])
    ≡ unauthorized_rows "web" "bob" tables ("read" ∷ [])
grant_scopes_others_example =
    grant_scopes_others call grant service "web" "bob" ("read" ∷ []) ann_not_bob

authorize_client_sound_example :
    (row : ClientRow) × Accepted tables ask row
    × ((s : String)
        → In s ("read" ∷ "write" ∷ [])
        → (sco : ScopeRow) × In sco tables.scopes
          × (is_scope_of "web" sco ≡ true)
          × (sco.scope ≡ s))
    × ((authorize_client (λ _. false) tables ask).client_name ≡ row.name)
    × ((authorize_client (λ _. false) tables ask).unauthorized_scopes
        ≡ unauthorized_rows "web" "ann" tables ("read" ∷ "write" ∷ []))
unfolding unauthorized_rows join_scope
authorize_client_sound_example =
    authorize_client_sound (λ _. false) tables ask (refl, (refl, tt)) asks

web_app-Accepted : Accepted tables ask web_app
unfolding is_account_in_tenant
web_app-Accepted = record {
  registered = inl refl;
  redirect = refl;
  named = λ e. absurd (omega arith);
  allowed = λ e. absurd (cc);
  in_tenant = refl;
  known = refl;
}

authorize_client_complete_example : (authorize_client (λ _. false) tables ask).status ≡ none
authorize_client_complete_example =
    authorize_client_complete tables ask web_app refl (omega arith) web_app-Accepted

-- "aGVsbG8" is the secret of five bytes that the platform accepts.
abbrev exchange : NewRefreshTokenRequest
exchange = record {
  client_id = "web";
  subject = "ann";
  session_id = "sess";
  authorization_code = "code";
  duration = "1h";
  force_new = false;
  client_secret = "aGVsbG8";
  redirect_uri = "https://web.example/cb";
  scopes = "read" ∷ "write" ∷ [];
}

-- Annie has granted both scopes, and has no token yet.
abbrev ready : State
ready = record {
  db = record tables {
    grants =
        record {
          account_id = "ann";
          scope_id = "s1";
          created_at = pos 1;
          updated_at = pos 1;
          deleted_at = none;
        }
        ∷ record {
          account_id = "ann";
          scope_id = "s2";
          created_at = pos 1;
          updated_at = pos 1;
          deleted_at = none;
        }
        ∷ [];
  };
  events = [];
}

token_issued : (new_refresh_token platform call exchange ready).0.status ≡ none
unfolding new_refresh_token select_secret decode_secret get_unauthorized_scopes unauthorized_rows
    join_scope select_refresh_token ◌+ℤ◌
token_issued = refl

errors_atomic_example :
    ((new_refresh_token platform call (record exchange { client_secret = "x" }) ready).1 ≡ ready)
    × ((grant_scopes call (record grant { tenant_id = "other" }) service).1 ≡ service)
unfolding new_refresh_token select_secret decode_secret grant_scopes is_account_in_tenant
errors_atomic_example =
    errors_atomic platform call (record exchange { client_secret = "x" })
      (record grant { tenant_id = "other" }) ready service refl refl

new_refresh_token_checks_example :
    ((secret : String) × (select_secret (λ _. false) ready.db "web" ≡ ok secret)
      × (is_client_secret platform secret "aGVsbG8" ≡ true))
    × (get_unauthorized_scopes (λ _. false) ready.db "web" "ann" ("read" ∷ "write" ∷ []) ≡ ok [])
    × ((unauthorized_rows "web" "ann" ready.db ("read" ∷ "write" ∷ []) ≡ [])
        ⊎ (◌≡◌ {A = Bool} false true))
new_refresh_token_checks_example =
    new_refresh_token_checks platform call exchange ready token_issued

new_refresh_token-IsSingle_example : IsSingle (new_refresh_token platform call exchange ready).1.db
new_refresh_token-IsSingle_example =
    new_refresh_token-IsSingle platform call exchange ready
      (record { at_most_one = λ a c. omega arith })

abbrev token : TokenRow
token = record {
  id = "t0";
  account_id = "ann";
  client_id = "web";
  token_type = 0;
  expires_at = pos 500;
  created_at = pos 50;
  updated_at = pos 50;
  deleted_at = none;
}

abbrev held : State
held = record ready { db = record (ready.db) { tokens = token ∷ [] } }

held-IsEntitled : IsEntitled platform exchange held.db
unfolding select_secret is_client_secret get_unauthorized_scopes unauthorized_rows join_scope
held-IsEntitled = record { secret = "hash"; stored = refl; matching = refl; granted = refl }

new_refresh_token_reuses_example :
    new_refresh_token platform call exchange held
    ≡ (record { status = none; refresh_token_id = "t0"; expires_at = pos 500 }, held)
new_refresh_token_reuses_example =
    new_refresh_token_reuses platform call exchange held token refl held-IsEntitled refl refl refl

abbrev taken : State
taken = record ready {
  db = record (ready.db) { tokens = record token { deleted_at = some (pos 90) } ∷ [] };
}

taken-IsEntitled : IsEntitled platform (record exchange { authorization_code = "" }) taken.db
unfolding select_secret is_client_secret get_unauthorized_scopes unauthorized_rows join_scope
taken-IsEntitled = record { secret = "hash"; stored = refl; matching = refl; granted = refl }

new_refresh_token_revoked_example :
    new_refresh_token platform call (record exchange { authorization_code = "" }) taken
    ≡ (refuse_token no_valid_refresh_token_status, taken)
unfolding revoke_token
new_refresh_token_revoked_example =
    new_refresh_token_revoked platform call (record exchange { authorization_code = "" }) taken
      (λ _. false) (pos 90) held.db refl refl taken-IsEntitled refl refl

abbrev session : Cached local_redis
session = record { service = ready; store = [] }

abbrev after_issue : Cached local_redis
after_issue = record session { service = (new_refresh_token platform call exchange ready).1 }

Reaches-IsSingle_example :
    IsSingle
      (handle_revoke_token call
        (record { subject = "ann"; client_id = "web" })
        after_issue.service).1.db
Reaches-IsSingle_example =
    Reaches-IsSingle local_redis platform session
      (record after_issue {
        service =
            (handle_revoke_token call (record { subject = "ann"; client_id = "web" })
              after_issue.service).1;
      })
      (then_step (then_step start (issues call exchange))
        (revokes_token call (record { subject = "ann"; client_id = "web" })))
      (record { at_most_one = λ a c. omega arith })

has_unknown_scopes_sound_example :
    (r : ScopeRow) × In r tables.scopes
    × (is_scope_of "web" r ≡ true)
    × (◌≡◌ {A = String} r.scope "write")
unfolding has_unknown_scopes
has_unknown_scopes_sound_example =
    has_unknown_scopes_sound (λ _. false) tables "web" ("read" ∷ "write" ∷ []) "write"
      (refl, (refl, tt)) refl (inr (inl refl))
