-- ===== src/Provider/Tests/Tokens.antt =====
-- An exchange and a refresh.
use mono_sso.Prelude.{String, Bool, fields, ◌≡◌, refl, true, false, none, some, [], ◌∷◌, In, ◌⊎◌}
use mono_sso.Prelude.Int.{◌+ℤ◌}
use mono_sso.Base64.{decode_secret}
use mono_sso.Cache.Ids.{create_id}
use mono_sso.Cache.Local.{local_redis, local_laws, lookup, without, reply}
use mono_sso.Datastore.{TokenRow, ok}
use mono_sso.Oauth2.{TokenClaims, claims_of, decode_jwt, generate_jwt}
use mono_sso.Service.Activation.{Cached}
use mono_sso.Service.Scopes.{get_unauthorized_scopes, unauthorized_rows, join_scope}
use mono_sso.Service.RefreshToken.{
  select_secret, is_client_secret, is_token_of, new_refresh_token, select_refresh_token,
  replace_token, new_token_row,
}
use mono_sso.Provider.Messages.{ExchangeResponse}
use mono_sso.Provider.World.{new_oauth2_data_form, code_key}
use mono_sso.Provider.Token.{
  exchange_handler, exchange_request, refresh_token_handler, is_exchange_form, is_refresh_form,
  is_claimed_for, refresh_request, refreshed_claims,
}
use mono_sso.Provider.Token.Laws.{tokens_of}
use mono_sso.Provider.Token.Exchange.{exchange_handler_checks}
use mono_sso.Provider.Token.Refresh.{IsClaimedFor, refresh_token_handler_checks}
use mono_sso.Provider.Tests.{client_id, account_id, code, provider, moment, request, with_store}

abbrev pub key : String
key = "sso:authc:acme:web-app-client-0123456789abc:x0123456789abcdef0123456789abcdefBrowser"

abbrev pub held : Cached local_redis
held = with_store ((key, "request") ∷ [])

abbrev tokens : ExchangeResponse
tokens = record {
  access_token = "signed";
  refresh_token = "signed";
  expires_in = 300;
  token_type = "refresh_token";
}

exchanges :
    tokens_of
      (exchange_handler local_redis provider moment (request "authorization_code") held).0.body
    ≡ some tokens
unfolding exchange_handler exchange_request new_oauth2_data_form is_exchange_form code_key create_id
    lookup without reply generate_jwt new_refresh_token select_secret decode_secret
    get_unauthorized_scopes unauthorized_rows join_scope select_refresh_token ◌+ℤ◌
exchanges = refl

exchange_handler_checks_example :
    (k : String) × (value : String) × (secret : String) × (code_key provider client_id code
      ≡ some k)
    × (lookup k ((key, "request") ∷ []) ≡ some value)
    × (lookup k
          (exchange_handler local_redis provider moment (request "authorization_code") held).1.store
        ≡ none)
    × ((◌≡◌ {A = String} "https://web.example/cb" "https://web.example/cb")
        × (select_secret (λ _. false) held.service.db client_id ≡ ok secret)
        × (is_client_secret provider.platform secret "aGVsbG8" ≡ true)
        × (get_unauthorized_scopes (λ _. false) held.service.db client_id account_id ("read" ∷ [])
            ≡ ok [])
        × ((unauthorized_rows client_id account_id held.service.db ("read" ∷ []) ≡ [])
            ⊎ (◌≡◌ {A = Bool} false true)))
unfolding new_oauth2_data_form
exchange_handler_checks_example =
    exchange_handler_checks local_redis provider moment (request "authorization_code") held
      local_laws tokens exchanges

-- The token of the exchange, later.
abbrev exchanged_state : Cached local_redis
exchanged_state =
    (exchange_handler local_redis provider moment (request "authorization_code") held).1

refreshes :
    tokens_of
      (refresh_token_handler local_redis provider moment
        (request "refresh_token")
        exchanged_state).0.body
    ≡ some (record {
      access_token = "signed";
      refresh_token = "";
      expires_in = 300;
      token_type = "access_token";
    })
unfolding exchange_handler exchange_request new_oauth2_data_form is_exchange_form code_key create_id
    lookup without reply generate_jwt new_refresh_token select_secret decode_secret
    get_unauthorized_scopes unauthorized_rows join_scope select_refresh_token ◌+ℤ◌ is_refresh_form
    decode_jwt is_claimed_for refresh_request refresh_token_handler fields replace_token
    new_token_row
refreshes = refl

refresh_token_handler_checks_example :
    (c : TokenClaims) × (secret : String) × (row : TokenRow) × (decode_jwt provider.jose "signed"
      ≡ claims_of c)
    × IsClaimedFor provider client_id c
    × (select_secret (λ _. false) exchanged_state.service.db client_id ≡ ok secret)
    × (is_client_secret provider.platform secret "aGVsbG8" ≡ true)
    × In row
        (refresh_token_handler local_redis provider moment
          (request "refresh_token")
          exchanged_state).1.service.db.tokens
    × (is_token_of c.subject client_id row ≡ true)
    × (row.id ≡ c.id)
    × ((generate_jwt provider.jose (refreshed_claims provider moment c) ≡ some "signed")
        ⊎ ((generate_jwt provider.jose (refreshed_claims provider moment c) ≡ none)
            × (◌≡◌ {A = String} "signed" "")))
unfolding new_oauth2_data_form
refresh_token_handler_checks_example =
    refresh_token_handler_checks local_redis provider moment (request "refresh_token")
      exchanged_state _ refreshes
