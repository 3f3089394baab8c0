-- ===== src/Provider/Tests/CodeFlow.antt =====
-- An authorization request, and the exchange of its code.
use mono_sso.Prelude.{
  String, fields, ◌≡◌, ◌∙◌, sym, ap, refl, true, false, none, some, [], ◌∷◌, is_some, string_eq,
}
use mathlib.Core.Logic.{ite, if_neg}
use native.Mathlib.Decide.{ℕ_discrete}
use mono_sso.Base64.{decode_secret}
use mono_sso.Cache.Ids.{create_id}
use mono_sso.Cache.Local.{local_redis, local_laws, lookup, reply}
use mono_sso.Datastore.Account.{is_account_in_tenant}
use mono_sso.Oauth2.{generate_jwt}
use mono_sso.Service.Activation.{Cached}
use mono_sso.Service.Authorization.{authorize_client}
use mono_sso.Service.Scopes.{
  get_unauthorized_scopes, has_unknown_scopes, get_authorization_client, unauthorized_rows,
  join_scope,
}
use mono_sso.Service.RefreshToken.{NewRefreshTokenRequest, select_secret, is_client_secret}
use mono_sso.Provider.Messages.{ReadsMessage, OAuth2UrlQuery, Codec}
use mono_sso.Provider.World.{
  Provider, code_key, session_key, get_cached_session_subject, is_valid_authorization_request,
  new_oauth2_url_query, new_oauth2_data_form, get_session_and_subject_cookies,
}
use mono_sso.Provider.Authorization.{
  Authorized, empty_page, authorization_event, authorization_query, authorize_client_request,
  code_request, authorization_handler,
}
use mono_sso.Provider.Authorization.Codes.{Authorization, authorization_handler-Authorization}
use mono_sso.Provider.Token.{exchange_handler}
use mono_sso.Provider.Token.Laws.{tokens_of}
use mono_sso.Provider.CodeFlow.{exchange_handler-authorization_handler}
use mono_sso.Provider.Tests.{
  decided, String-discrete, client_id, account_id, uri, code, stored, provider, moment, request,
  tables, with_store,
}
use mono_sso.Provider.Tests.Tokens.{key}

abbrev signed_in : Cached local_redis
signed_in = with_store (("sso:sess:s1:ann-account-0123456789abcdef", "subject") ∷ [])

abbrev asks : OAuth2UrlQuery
asks = record {
  client_id = client_id;
  response_type = "code";
  redirect_uri = uri;
  state = "";
  scopes = "read";
  scopes_array = "read" ∷ [];
  subject_id = account_id;
  session_id = "s1";
}

abbrev authorized : Authorized local_redis
authorized = record {
  shows_page = false;
  replacers = empty_page;
  response = record {
    status = some 302;
    is_json = false;
    cookies = [];
    location = some (uri, ("code", code) ∷ []);
    body = [];
  };
  state = record {
    service = record { db = tables; events = authorization_event asks "Browser" code ∷ [] };
    store = (key, "request") ∷ ("sso:sess:s1:ann-account-0123456789abcdef", "subject") ∷ [];
  };
}

authorizes :
    authorization_handler local_redis provider moment (request "") signed_in ≡ some authorized
unfolding authorization_handler authorization_query get_session_and_subject_cookies
    new_oauth2_url_query fields is_valid_authorization_request session_key create_id
    get_cached_session_subject lookup reply authorize_client is_account_in_tenant
    authorize_client_request has_unknown_scopes get_authorization_client get_unauthorized_scopes
    unauthorized_rows join_scope code_key code_request
authorizes = refl

authorization_handler-Authorization_example :
    Authorization local_redis local_laws provider moment (request "") signed_in authorized code
authorization_handler-Authorization_example =
    authorization_handler-Authorization local_redis local_laws provider moment (request "")
      signed_in authorized code authorizes refl

request-discrete : Discrete NewRefreshTokenRequest
request-discrete = hlevel (ℕ_discrete, String-discrete)

-- A codec of one message.
abbrev exact : Codec NewRefreshTokenRequest
exact = record {
  marshal = λ a. ite (request-discrete a stored) (some "request") none;
  unmarshal = λ text. (true, stored);
}

exact-ReadsMessage : ReadsMessage exact
exact-ReadsMessage = record {
  reads = λ a text h. elim (request-discrete a stored) [
    | yes e ↦ ap (λ x. (true, x)) (sym e)
    | no n ↦
        absurd (none≢some (sym (if_neg (request-discrete a stored) n (some "request") none) ∙ h))
  ];
}
  where
    none≢some : {t : String} → none ≡ some t → ⊥
    none≢some e = cc

abbrev exact_provider : Provider
exact_provider = record provider { token_codec = exact }

authorizes_exactly :
    authorization_handler local_redis exact_provider moment (request "") signed_in ≡ some authorized
unfolding authorization_handler authorization_query get_session_and_subject_cookies
    new_oauth2_url_query fields is_valid_authorization_request session_key create_id
    get_cached_session_subject lookup reply authorize_client is_account_in_tenant
    authorize_client_request has_unknown_scopes get_authorization_client get_unauthorized_scopes
    unauthorized_rows join_scope code_key code_request request-discrete String-discrete decided
    ℕ_discrete
authorizes_exactly = refl

asked_for : authorization_query exact_provider (request "") ≡ some asks
unfolding authorization_query get_session_and_subject_cookies new_oauth2_url_query fields
asked_for = refl

exchange_handler-authorization_handler_example :
    is_some (
      tokens_of
        (exchange_handler local_redis exact_provider moment
          (request "authorization_code")
          authorized.state).0.body)
    ≡ true
unfolding generate_jwt new_oauth2_data_form code_key create_id lookup reply select_secret
    is_client_secret decode_secret
exchange_handler-authorization_handler_example =
    exchange_handler-authorization_handler local_redis local_laws exact_provider moment moment
      (request "") (request "authorization_code") signed_in authorized asks code key "t1" "request"
      exact-ReadsMessage (λ claims. refl) (λ i. refl) authorizes_exactly refl asked_for
      (record {
        grant = refl;
        client = refl;
        redirect = refl;
        same_code = refl;
        code_length = refl;
      })
      refl refl refl refl refl (record { secret = "hash"; stored = refl; matching = refl })
