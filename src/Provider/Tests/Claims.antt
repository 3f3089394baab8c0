-- ===== src/Provider/Tests/Claims.antt =====
-- The tokens of an exchange, with a key that signs two sets of claims.
use Prim.Native.String.{String}
use mono_sso.Prelude.{
  ◌≡◌, refl, sym, ap, subst, ◌∙◌, true, Option, none, some, In, ◌==◌, join, string_eq, inr,
  if◌then◌else◌,
}
use mathlib.Core.Logic.{ite, if_neg}
use native.Mathlib.Decide.{ℕ_discrete}
use mono_sso.Prelude.Int.{pos, ◌+ℤ◌}
use mono_sso.Base64.{decode_secret}
use mono_sso.Cache.Ids.{create_id}
use mono_sso.Cache.Local.{local_redis, local_laws, lookup, without, reply}
use mono_sso.Datastore.{TokenRow}
use mono_sso.Oauth2.{OAuth2Jose, TokenClaims, ReadsBack, claims_of, decode_jwt, generate_jwt}
use mono_sso.Service.Scopes.{get_unauthorized_scopes, unauthorized_rows, join_scope}
use mono_sso.Service.RefreshToken.{
  select_secret, is_token_of, new_refresh_token, select_refresh_token,
}
use mono_sso.Provider.Messages.{ExchangeResponse}
use mono_sso.Provider.World.{Provider, new_oauth2_data_form, code_key}
use mono_sso.Provider.Token.{
  exchange_handler, exchange_request, refresh_claims, access_claims, is_exchange_form,
}
use mono_sso.Provider.Token.Laws.{tokens_of}
use mono_sso.Provider.Token.Exchange.{token_claims, exchange_handler-decode_jwt}
use mono_sso.Provider.Tests.{
  decided, String-discrete, client_id, code, claims, provider, moment, request,
}
use mono_sso.Provider.Tests.Tokens.{held}

claims-discrete : Discrete TokenClaims
claims-discrete = hlevel (ℕ_discrete, String-discrete)

abbrev access : TokenClaims
access = record claims { expiry = pos 402; id = "" }

abbrev sign : TokenClaims → Option String
sign c =
    ite (claims-discrete c claims) (some "refresh")
      (ite (claims-discrete c access) (some "access") none)

abbrev two_tokens : OAuth2Jose
two_tokens = record {
  Token = TokenClaims;
  fingerprint = "f1";
  parse_signed = λ text. if text == "refresh" then inr claims else inr access;
  verify_claims = λ token. inr token;
  compact_serialize = sign;
}

sign-claims : sign claims ≡ some "refresh"
unfolding claims-discrete String-discrete decided ℕ_discrete
sign-claims = refl

sign-access : sign access ≡ some "access"
unfolding claims-discrete String-discrete decided ℕ_discrete
sign-access = refl

-- The text of these claims is read back as they were.
Read : TokenClaims → Type 0
Read c =
    (text : String)
    → sign c ≡ some text
    → (token : TokenClaims) × (two_tokens.parse_signed text ≡ inr token)
      × (two_tokens.verify_claims token ≡ inr c)

some-injective : {x y : String} → some x ≡ some y → x ≡ y
some-injective e = cc

Read-claims : Read claims
unfolding Read
Read-claims text h =
    (claims, ap two_tokens.parse_signed (some-injective (sym h ∙ sign-claims)), refl)

Read-access : Read access
unfolding Read
Read-access text h =
    (access, ap two_tokens.parse_signed (some-injective (sym h ∙ sign-access)), refl)

two_tokens-ReadsBack : ReadsBack two_tokens
unfolding Read
two_tokens-ReadsBack = record {
  parses = λ c text h. elim (claims-discrete c claims) [
    | yes p ↦ subst Read (sym p) Read-claims text h
    | no n ↦ elim (claims-discrete c access) [
      | yes p ↦ subst Read (sym p) Read-access text h
      | no k ↦ absurd (
          none≢some (
            sym (
              if_neg (claims-discrete c claims) n (some "refresh")
                (ite (claims-discrete c access) (some "access") none)
              ∙ if_neg (claims-discrete c access) k (some "access") none)
            ∙ h))
    ]
  ];
}
  where
    none≢some : {t : String} → none ≡ some t → ⊥
    none≢some e = cc

abbrev signer : Provider
signer = record provider { jose = two_tokens }

abbrev two : ExchangeResponse
two = record {
  access_token = "access";
  refresh_token = "refresh";
  expires_in = 300;
  token_type = "refresh_token";
}

exchanges_two :
    tokens_of
      (exchange_handler local_redis signer moment (request "authorization_code") held).0.body
    ≡ some two
unfolding exchange_handler exchange_request new_oauth2_data_form is_exchange_form code_key create_id
    lookup without reply generate_jwt new_refresh_token select_secret decode_secret
    get_unauthorized_scopes unauthorized_rows join_scope select_refresh_token ◌+ℤ◌ refresh_claims
    access_claims join claims-discrete String-discrete decided ℕ_discrete
exchanges_two = refl

exchange_handler-decode_jwt_example :
    let s' = (exchange_handler local_redis signer moment (request "authorization_code") held).1 in
    (k : String) × (value : String) × (row : TokenRow) × (code_key signer client_id code ≡ some k)
    × (lookup k held.store ≡ some value)
    × In row s'.service.db.tokens
    × (let stored = (signer.token_codec.unmarshal value).1 in
        let c = token_claims signer moment client_id stored row in
        (is_token_of stored.subject client_id row ≡ true)
        × (decode_jwt two_tokens "refresh" ≡ claims_of c)
        × (decode_jwt two_tokens "access"
            ≡ claims_of (record c {
              expiry = moment.later +ℤ signer.authz.access_token_duration;
              id = "";
            })))
unfolding new_oauth2_data_form
exchange_handler-decode_jwt_example =
    exchange_handler-decode_jwt local_redis signer moment (request "authorization_code") held
      local_laws two_tokens-ReadsBack two exchanges_two
