-- ===== src/Provider/Tests/Sessions.antt =====
-- Granting scopes, signing in with a second factor, and activating the session.
use Prim.Native.String.{◌++◌}
use mono_sso.Prelude.{
  String, len, utf8, ◌≡◌, ◌≢◌, refl, ap, Bool, true, false, none, some, [], ◌∷◌, arith,
}
use text.Mathlib.TextPositions.{len-append}
use mono_sso.Cache.Ids.{create_id}
use mono_sso.Cache.Local.{local_redis, local_laws, lookup, without, reply}
use mono_sso.Datastore.{AccountRow, ok}
use mono_sso.Datastore.Account.{is_account_in_tenant}
use mono_sso.Service.Activation.{
  Cached, activation_key, six_digits, generate_activation_code, validate_activation_code,
}
use mono_sso.Service.Account.{sign_in, select_account, activate_session}
use mono_sso.Service.Authorization.{AuthorizeClientRequest, grant_scopes, scope_ids}
use mono_sso.Service.Scopes.{get_unauthorized_scopes, unauthorized_rows, join_scope}
use mono_sso.Provider.Http.{client_ips_from_request, decoded, cookie_value, read_json_request_body}
use mono_sso.Provider.Messages.{AuthenticationRequest, ActivationRequest, GrantRequest}
use mono_sso.Provider.World.{
  session_key, hash_challenge, challenge_key, get_cached_session_subject, update_session_subject,
  get_expiration_from_authentication,
}
use mono_sso.Provider.Grants.{grant_key, grant_scopes_request, grant_scopes_handler}
use mono_sso.Provider.Grants.Laws.{grant_scopes_handler_grants}
use mono_sso.Provider.Authentication.{SignedIn, sign_in_request, authenticate_handler}
use mono_sso.Provider.Authentication.Laws.{IsSessionOf, SendsSession}
use mono_sso.Provider.Authentication.Opened.{Opened, authenticate_handler_opens}
use mono_sso.Provider.Activation.{activate_session_request, activate_session_handler}
use mono_sso.Provider.Activation.Laws.{activate_session_handler_checks}
use mono_sso.Provider.Tests.{account_id, asked, provider, moment, request, tables, with_store}

abbrev session : String
session = "sso:sess:s1:ann-account-0123456789abcdef"

-- Nothing is granted, and a grant is asked for. The user declines.
abbrev waiting : Cached local_redis
waiting = record {
  service = record { db = record tables { grants = [] }; events = [] };
  store = (session ++ ":grt:n1", "grant") ∷ [];
}

abbrev declined : GrantRequest
declined = record { nonce = "n1"; subject = account_id; granted = false }

grants :
    (grant_scopes_handler local_redis provider moment
      (decoded declined)
      (request "")
      waiting).0.status
    ≡ some 200
unfolding grant_scopes_handler read_json_request_body grant_key create_id lookup reply without
    grant_scopes_request grant_scopes is_account_in_tenant get_unauthorized_scopes unauthorized_rows
    join_scope scope_ids
grants = refl

grant_scopes_handler_grants_example :
    let out =
      grant_scopes_handler local_redis provider moment (decoded declined) (request "") waiting in
    (s : String) × (key : String) × (value : String) × (stored : AuthorizeClientRequest) × ((request
          "").cookie
        "SSO_SESS"
      ≡ cookie_value s)
    × (grant_key provider s account_id "n1" ≡ some key)
    × (lookup key waiting.store ≡ some value)
    × (lookup key out.1.store ≡ none)
    × (◌≡◌ {A = Bool × AuthorizeClientRequest} (true, asked) (true, stored))
    × (unauthorized_rows stored.client_id account_id out.1.service.db stored.scopes ≡ [])
grant_scopes_handler_grants_example =
    grant_scopes_handler_grants local_redis local_laws provider moment declined (request "") waiting
      (λ i. refl) (λ i. refl) grants

abbrev login : AuthenticationRequest
login = record {
  identifier = "ann@example.org";
  password = "hello";
  remember_me = false;
  recaptcha_response = "r";
}

signs_in :
    (authenticate_handler local_redis provider moment ""
      (decoded login)
      (request "")
      (with_store [])).0.status
    ≡ some 200
unfolding authenticate_handler read_json_request_body client_ips_from_request sign_in_request
    sign_in select_account utf8 generate_activation_code six_digits activation_key session_key
    create_id get_cached_session_subject lookup reply get_expiration_from_authentication
    update_session_subject
signs_in = refl

authenticate_handler_opens_example :
    let out =
      authenticate_handler local_redis provider moment ""
        (decoded login)
        (request "")
        (with_store []) in
    (g : SignedIn local_redis) × (acc : AccountRow) × (hash : String) × (select_account
        (λ _. false)
        tables
        "ann@example.org"
        "acme"
      ≡ ok (acc, hash))
    × (provider.platform.bcrypt_matches hash (utf8 "hello") ≡ true)
    × (g.answer.subject ≡ acc.id)
    × (g.answer.activation_method ≡ acc.activation_method)
    × IsSessionOf local_redis provider moment (request "") g.session
    × SendsSession local_redis provider g.session out.0
    × Opened local_redis local_laws provider (request "") g out
authenticate_handler_opens_example =
    authenticate_handler_opens local_redis local_laws provider moment "" login (request "")
      (with_store []) signs_in

sha1_hex-nonempty : (text : String) → provider.sha1_hex text ≢ ""
sha1_hex-nonempty text e = let sum = len-append "x" text in let k = ap len e in ground arith

abbrev challenged : Cached local_redis
challenged = with_store (
    (session ++ ":clg", "xBrowserc1")
    ∷ (session, "subject")
    ∷ ("sso:act:s1:000042Browser", account_id)
    ∷ [])

abbrev activation : ActivationRequest
activation = record { activation_code = "000042"; subject = account_id; challenge = "c1" }

activates :
    (activate_session_handler local_redis provider moment
      (decoded activation)
      (request "")
      challenged).0.status
    ≡ some 200
unfolding activate_session_handler read_json_request_body session_key create_id challenge_key lookup
    reply without hash_challenge activate_session_request activate_session validate_activation_code
    activation_key
activates = refl

activate_session_handler_checks_example :
    let out =
      activate_session_handler local_redis provider moment
        (decoded activation)
        (request "")
        challenged in
    (s : String) × (key : String) × (challenge : String) × (code_key : String) × (code : String)
    × ((request "").cookie "SSO_SESS" ≡ cookie_value s)
    × (session_key provider s account_id ≡ some key)
    × (lookup (challenge_key key) challenged.store ≡ some challenge)
    × (challenge ≡ hash_challenge provider "Browser" "c1")
    × (lookup (challenge_key key) out.1.store ≡ none)
    × (activation_key moment.codes s "000042" "Browser" ≡ some code_key)
    × (lookup code_key (without (challenge_key key ∷ []) challenged.store) ≡ some code)
    × (code ≡ account_id)
activate_session_handler_checks_example =
    activate_session_handler_checks local_redis local_laws provider moment activation (request "")
      challenged sha1_hex-nonempty activates
