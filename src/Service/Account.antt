-- ===== src/Service/Account.antt =====
-- cmd/sso-service/account-server.go.
pub mod Laws
mod Tests
use mono_sso.Prelude.{
  String, utf8, Bool, true, false, not, ◌&&◌, Option, none, some, List, [], ◌∷◌, head?, select,
  concat_map, join, ◌==◌, string_eq, if◌then◌else◌,
}
use mono_sso.Prelude.Int.{ℤ}
use mono_sso.Constants.{
  ResponseStatus, sign_in_invalid_account_status, internal_error_status,
  invalid_activation_request_status,
}
use mono_sso.Datastore.{
  Db, AccountRow, AccountTenantRow, ActivationMethod, is_live, Outage, Statement, database, no_rows,
  Result, ok, err,
}
use mono_sso.Datastore.Account.{
  RevokeScopesRequest, revoke_scopes, RevokeTokenRequest, revoke_token, in_tenant,
}
use mono_sso.Cache.Redis.{Redis}
use mono_sso.Service.State.{Event, info, warning, State, register_event, Call, Platform}
use mono_sso.Service.Activation.{
  SignInRequest, ActivateSessionRequest, Codes, Cached, Validity, generate_activation_code,
  validate_activation_code,
}

-- sso.SignInResponse; the profile is the name of the account.
pub record SignInResponse : Type 0 where
  pub status : Option ResponseStatus
  pub activation_method : ActivationMethod
  pub subject : String
  pub profile : Option String

-- The rows of the join of sso.account with its identifiers and its tenants.
abbrev pub account_rows : Db → String → String → List AccountRow
account_rows db identifier tenant =
    concat_map
      (λ acc.
        concat_map
          (λ i. concat_map (λ t. acc ∷ []) (select (in_tenant acc.id tenant) db.account_tenants))
          (select (λ i. i.account_id == acc.id && i.identifier == identifier)
            db.account_identifiers))
      (select (λ acc. is_live acc.deleted_at) db.accounts)

abbrev scan_account : Option AccountRow → Result (AccountRow × String)
scan_account none = err no_rows
scan_account (some acc) = elim acc.password [
  | none ↦ err (database Statement.select_account)
  | some password ↦ ok (acc, password)
]

-- The account with its password hash; a null password does not scan.
unfoldable pub select_account : Outage → Db → String → String → Result (AccountRow × String)
select_account outage db identifier tenant =
    if outage Statement.select_account
    then err (database Statement.select_account)
    else scan_account (head? (account_rows db identifier tenant))

abbrev pub refuse_sign_in : SignInResponse
refuse_sign_in = record {
  status = some sign_in_invalid_account_status;
  activation_method = ActivationMethod.none_method;
  subject = "";
  profile = none;
}

abbrev sign_in_event : AccountRow → SignInRequest → Event
sign_in_event acc req = record {
  level = info;
  is_sensitive = true;
  fields =
      ("identifier", req.identifier)
      ∷ ("account_id", acc.id)
      ∷ ("user_agent", req.user_agent)
      ∷ ("source_ip", req.source_ip)
      ∷ ("client_ip", req.client_ip)
      ∷ ("forwarded_ips", join req.forwarded_ips ", ")
      ∷ ("session_id", req.session_id)
      ∷ [];
}

abbrev pub signed_in : AccountRow → Option ResponseStatus → SignInResponse
signed_in acc status = record {
  status = status;
  activation_method = acc.activation_method;
  subject = acc.id;
  profile = some acc.name;
}

-- `RevokeScopes` and `RevokeToken` answer with a status alone.
abbrev pub RevokeResponse : Type 0
RevokeResponse = Option ResponseStatus

abbrev revoked_scopes_event : RevokeScopesRequest → Event
revoked_scopes_event req = record {
  level = warning;
  is_sensitive = true;
  fields =
      ("account_id", req.subject)
      ∷ ("client_id", req.client_id)
      ∷ ("scopes", join req.scopes ", ")
      ∷ [];
}

abbrev revoked_token_event : RevokeTokenRequest → Event
revoked_token_event req = record {
  level = warning;
  is_sensitive = true;
  fields = ("account_id", req.subject) ∷ ("client_id", req.client_id) ∷ [];
}

abbrev answer_revoked : Event → State → Result Db → RevokeResponse × State
answer_revoked e s (ok db) = (none, register_event e (record s { db = db }))
answer_revoked e s (err x) = (some internal_error_status, register_event e s)

-- `AccountServer.RevokeScopes`
unfoldable pub handle_revoke_scopes : Call → RevokeScopesRequest → State → RevokeResponse × State
handle_revoke_scopes call req s =
    answer_revoked (revoked_scopes_event req) s
      (revoke_scopes call.outage call.database_now s.db req)

-- `AccountServer.RevokeToken`
unfoldable pub handle_revoke_token : Call → RevokeTokenRequest → State → RevokeResponse × State
handle_revoke_token call req s =
    answer_revoked (revoked_token_event req) s (revoke_token call.outage call.database_now s.db req)

-- `AccountServer.RegisterEvent`
abbrev pub handle_register_event : Event → State → State
handle_register_event = register_event

module _ (redis : Redis) where
  open redis use {Store}

  -- From the comparison of the passwords to the end.
  check_password :
      Platform
      → Codes
      → SignInRequest
      → Cached redis
      → Result (AccountRow × String)
      → SignInResponse × Cached redis
  check_password platform codes req s (err e) = (refuse_sign_in, s)
  check_password platform codes req s (ok (acc, hash)) =
      if not (platform.bcrypt_matches hash (utf8 req.password))
      then (refuse_sign_in, s)
      else let (done, s') =
          generate_activation_code redis platform codes acc.activation_method acc.id req
            (record s { service = register_event (sign_in_event acc req) s.service }) in
        (signed_in acc (if done then none else some internal_error_status), s')

  -- `AccountServer.SignIn`
  unfoldable pub sign_in :
      Platform → Codes → Call → SignInRequest → Cached redis → SignInResponse × Cached redis
  unfolding check_password
  sign_in platform codes call req s =
      check_password platform codes req s
        (select_account call.outage s.service.db req.identifier req.tenant_id)

  -- The status: that of an error is overwritten where the code is not valid.
  abbrev activation_status : Validity redis → Option ResponseStatus
  activation_status v =
      if not v.valid
      then some invalid_activation_request_status
      else if v.is_error
      then some internal_error_status
      else none

  -- `AccountServer.ActivateSession`; `none` is the exit of the process.
  unfoldable pub activate_session :
      Codes → ActivateSessionRequest → Cached redis → Option (Option ResponseStatus × Cached redis)
  activate_session codes req s = elim (validate_activation_code redis codes req s) [
    | none ↦ none
    | some (v, s') ↦ some (activation_status v, s')
  ]
