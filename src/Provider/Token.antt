-- ===== src/Provider/Token.antt =====
-- pkg/handlers/token.go: `ExchangeHandler` and `RefreshTokenHandler`.
pub mod Laws
pub mod Exchange
pub mod Refresh
use mono_sso.Prelude.{
  ℕ, String, len, fields, Bool, true, false, ◌&&◌, ◌||◌, not, Option, none, some, List, [], ◌∷◌,
  ltb, contains, join, ◌==◌, nat_eq, string_eq, if◌then◌else◌,
}
use mono_sso.Prelude.Int.{ℤ, pos, ◌+ℤ◌}
use mono_sso.Prelude.Flow.{Flow, return, next, ◌>>=◌, ◌>>◌, run, return_if}
use mono_sso.Constants.{
  invalid_exchange_response, unauthorized_exchange_response, invalid_refresh_response,
}
use mono_sso.Cache.Redis.{Redis, Reply, found, absent, failed}
use mono_sso.Oauth2.{
  TokenClaims, Decoded, claims_of, jose_error, invalid_fingerprint, generate_jwt, decode_jwt,
}
use mono_sso.Service.Activation.{Cached}
use mono_sso.Service.RefreshToken.{
  NewRefreshTokenRequest, NewRefreshTokenResponse, new_refresh_token,
}
use mono_sso.Provider.Http.{HttpRequest, Response, fresh, as_json, answer}
use mono_sso.Provider.Messages.{
  OAuth2DataForm, ExchangeResponse, Content, literal, refused_token, exchanged,
}
use mono_sso.Provider.World.{
  Provider, Moment, new_oauth2_data_form, has_errors, to_uint32, internal_error, code_key, Out, rpc,
  or_stop,
}

-- The guards on the form of an exchange.
unfoldable pub is_exchange_form : OAuth2DataForm → Bool
is_exchange_form form = not (
    not (len form.client_id == 28)
    || not (form.grant_type == "authorization_code")
    || not (len form.code == 40)
    || ltb (len form.redirect_uri) 8)

-- The request that is sent for a code: what was stored with it, and the rest from the form.
unfoldable pub exchange_request :
    Provider → OAuth2DataForm → NewRefreshTokenRequest → NewRefreshTokenRequest
exchange_request p form stored = record stored {
  client_id = form.client_id;
  client_secret = form.client_secret;
  authorization_code = form.code;
  duration = p.format_duration p.authz.refresh_token_duration;
}

unfoldable pub refresh_claims :
    Provider → Moment → NewRefreshTokenRequest → NewRefreshTokenResponse → TokenClaims
refresh_claims p m req res = record {
  issuer = p.authz.issuer;
  subject = req.subject;
  audience = req.client_id ∷ [];
  expiry = res.expires_at;
  not_before = m.now;
  issued_at = m.now;
  id = res.refresh_token_id;
  scope = join req.scopes " ";
  kid = "";
  tenant = p.authn.tenant_id;
}

-- The claims of the access token: those of the refresh token, with another expiry and no identifier.
unfoldable pub access_claims : Provider → Moment → TokenClaims → TokenClaims
access_claims p m claims = record claims {
  expiry = m.later +ℤ p.authz.access_token_duration;
  id = "";
}

-- The guards on the form of a refresh.
unfoldable pub is_refresh_form : OAuth2DataForm → Bool
is_refresh_form form = not (
    not (len form.client_id == 28)
    || not (form.grant_type == "refresh_token")
    || len form.refresh_token == 0)

-- The guards on the claims of a refresh token.
unfoldable pub is_claimed_for : Provider → String → TokenClaims → Bool
is_claimed_for p client claims = not (
    not (contains claims.audience client)
    || not (claims.issuer == p.authz.issuer)
    || not (claims.tenant == p.authn.tenant_id))

unfoldable pub refresh_request : OAuth2DataForm → TokenClaims → NewRefreshTokenRequest
refresh_request form claims = record {
  client_id = form.client_id;
  subject = claims.subject;
  session_id = "";
  authorization_code = "";
  duration = "";
  force_new = false;
  client_secret = form.client_secret;
  redirect_uri = "";
  scopes = fields claims.scope;
}

unfoldable pub refreshed_claims : Provider → Moment → TokenClaims → TokenClaims
refreshed_claims p m claims = record claims {
  id = "";
  not_before = m.now;
  issued_at = m.now;
  expiry = m.later +ℤ p.authz.access_token_duration;
}

abbrev refused_response : Response Content
refused_response = answer 400 (literal invalid_refresh_response) (as_json fresh)

abbrev text_of : Option String → String
text_of none = ""
text_of (some text) = text

module _ (redis : Redis) where
  open redis use {Store, Value, to_text, take}

  -- The reply to GET, after DEL.
  abbrev taken_code : Reply Value → Response Content → Cached redis → Flow (Out redis) Value
  taken_code (found value) w s = next value
  taken_code absent w s = return (answer 403 (literal unauthorized_exchange_response) w, s)
  taken_code failed w s = return (internal_error w, s)

  -- From the form to the request that was stored with the code. GET and DEL are one transaction,
  -- so that the code is used up also where the exchange fails afterwards.
  unfoldable pub take_code_request :
      Provider
      → OAuth2DataForm
      → Cached redis
      → Flow (Out redis) (NewRefreshTokenRequest × Cached redis)
  take_code_request p form s = do
    return_if (not (is_exchange_form form))
        (answer 400 (literal invalid_exchange_response) (as_json fresh), s)
    key ← or_stop redis (code_key p form.client_id form.code) (internal_error (as_json fresh), s)
    let after = record s { store = (take s.store key).1 }
    value ← taken_code (take s.store key).0 (as_json fresh) after
    let stored = (p.token_codec.unmarshal (to_text value)).1
    return_if (not (stored.redirect_uri == form.redirect_uri))
        (answer 400 (literal invalid_exchange_response) (as_json fresh), after)
    next (exchange_request p form stored, after)

  -- The call of sso-service.
  unfoldable pub ask_refresh_token :
      Provider
      → Moment
      → NewRefreshTokenRequest
      → Cached redis
      → Flow (Out redis) (NewRefreshTokenResponse × Cached redis)
  ask_refresh_token p m req s = do
    let served = new_refresh_token p.platform m.call req s.service
    let seen = rpc redis m.delivery s (served.0, record s { service = served.1 })
    res ← or_stop redis seen.0 (internal_error (as_json fresh), seen.1)
    return_if (has_errors res.status) (answer 403 (refused_token res) (as_json fresh), seen.1)
    next (res, seen.1)

  -- From the claims to the end: a refresh token and an access token.
  unfoldable pub issue_tokens :
      Provider → Moment → TokenClaims → Cached redis → Flow (Out redis) (Out redis)
  issue_tokens p m claims s = do
    refresh ← or_stop redis (generate_jwt p.jose claims) (internal_error (as_json fresh), s)
    access ←
        or_stop redis (generate_jwt p.jose (access_claims p m claims))
          (internal_error (as_json fresh), s)
    next (
      answer 200
          (exchanged (record {
            access_token = access;
            refresh_token = refresh;
            expires_in = to_uint32 p.authz.access_token_duration;
            token_type = "refresh_token";
          }))
          (as_json fresh),
      s,
    )

  -- `ExchangeHandler`
  unfoldable pub exchange_handler : Provider → Moment → HttpRequest → Cached redis → Out redis
  unfolding take_code_request ask_refresh_token issue_tokens
  exchange_handler p m r s = run do
    req ← take_code_request p (new_oauth2_data_form r) s
    res ← ask_refresh_token p m req.0 req.1
    issue_tokens p m (refresh_claims p m req.0 res.0) res.1

  abbrev decoded_claims : Decoded → Response Content → Cached redis → Flow (Out redis) TokenClaims
  decoded_claims (claims_of claims) w s = next claims
  decoded_claims (jose_error e) w s = return (w, s)
  decoded_claims invalid_fingerprint w s = return (w, s)

  -- From the form to the claims of the refresh token.
  unfoldable pub check_refresh_token :
      Provider → OAuth2DataForm → Cached redis → Flow (Out redis) TokenClaims
  check_refresh_token p form s = do
    return_if (not (is_refresh_form form)) (refused_response, s)
    claims ← decoded_claims (decode_jwt p.jose form.refresh_token) refused_response s
    return_if (not (is_claimed_for p form.client_id claims)) (refused_response, s)
    next claims

  -- `RefreshTokenHandler`. The error of `CompactSerialize` is not looked at: the response has then
  -- an empty token.
  unfoldable pub refresh_token_handler : Provider → Moment → HttpRequest → Cached redis → Out redis
  unfolding check_refresh_token ask_refresh_token
  refresh_token_handler p m r s = run do
    let form = new_oauth2_data_form r
    claims ← check_refresh_token p form s
    res ← ask_refresh_token p m (refresh_request form claims) s
    return_if (not (res.0.refresh_token_id == claims.id))
        (answer 403 (literal invalid_refresh_response) (as_json fresh), res.1)
    next (
      answer 200
          (exchanged (record {
            access_token = text_of (generate_jwt p.jose (refreshed_claims p m claims));
            refresh_token = "";
            expires_in = to_uint32 p.authz.access_token_duration;
            token_type = "access_token";
          }))
          (as_json fresh),
      res.1,
    )
