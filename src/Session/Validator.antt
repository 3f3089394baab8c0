-- ===== src/Session/Validator.antt =====
-- pkg/session/session.go: `SessionRequestValidator`.
pub mod Laws
use Prim.Native.String.{◌++◌}
use mono_sso.Prelude.{
  ℕ, ◌/◌, ◌≡◌, refl, String, Bool, true, false, not, ◌&&◌, ◌||◌, Option, none, some, List, [], ◌∷◌,
  map, contains, join, fields, ◌==◌, string_eq, if◌then◌else◌,
}
use mono_sso.Prelude.Int.{ℤ, pos, negsuc, ◌+ℤ◌, ltb_ℤ}
use mono_sso.Constants.{
  StatusError, ResponseStatus, internal_error_msg, invalid_token_slg, invalid_audience_slg,
  invalid_request_session_slg, invalid_timestamp_slg, invalid_tenant_slg, required_scopes_slg,
}
use mono_sso.Oauth2.{
  OAuth2Jose, TokenClaims, JoseError, Decoded, claims_of, jose_error, invalid_fingerprint,
  decode_jwt, other_jose_error,
}

-- sso.common.RequestSession
pub record RequestSession : Type 0 where
  pub access_token : String
  pub locale : String
  pub timestamp : ℤ

-- `SessionRequestValidator` after `Load`; the tolerance is a duration in nanoseconds, and the map
-- of allowed tenants is the list that it is built from.
pub record SessionRequestValidator : Type 1 where
  pub timestamp_past_toleration : ℤ
  pub required_scopes : List (List String)
  pub allowed_tenants : List String
  pub audience : String
  pub jose : OAuth2Jose

-- The message that `Load` prepares.
pub required_scopes_err : List (List String) → String
required_scopes_err groups = join (map (λ scopes. join scopes ", ") groups) " or "

pub data SessionError : Type 0 where
  err_invalid_request_session err_invalid_timestamp err_invalid_tenant err_invalid_audience
        err_invalid_fingerprint :
      SessionError
  err_jose : JoseError → SessionError
  err_required_scopes : String → SessionError

-- The two results of `ValidateSession`.
pub record Validated : Type 0 where
  pub claims : Option TokenClaims
  pub error : Option SessionError

-- `time.Time.Unix` of a time in nanoseconds: seconds, rounded down.
pub unix : ℤ → ℤ
unix (pos n) = pos (n / 1_000_000_000)
unix (negsuc n) = negsuc (n / 1_000_000_000)

-- The inner loop: some scope of the group is missing.
pub group_fails : List String → List String → Bool
group_fails held [] = false
group_fails held (scope ∷ group) =
    if not (contains held scope) then true else group_fails held group

-- The outer loop, with its variable `invalid`.
pub groups_fail : List String → Bool → List (List String) → Bool
unfolding group_fails
groups_fail held invalid [] = invalid
groups_fail held invalid (group ∷ groups) =
    if group_fails held group then groups_fail held true groups else false

abbrev fail : SessionError → Validated
fail e = record { claims = none; error = some e }

abbrev fail_with : TokenClaims → SessionError → Validated
fail_with c e = record { claims = some c; error = some e }

-- From the tenant to the end.
check_claims : SessionRequestValidator → TokenClaims → Validated
unfolding groups_fail
check_claims v c =
    if not (contains v.allowed_tenants c.tenant)
    then fail_with c err_invalid_tenant
    else if not (contains c.audience v.audience)
    then fail_with c err_invalid_audience
    else if groups_fail (fields c.scope) false v.required_scopes
    then fail_with c (err_required_scopes (required_scopes_err v.required_scopes))
    else record { claims = some c; error = none }

check_decoded : SessionRequestValidator → Decoded → Validated
unfolding check_claims
check_decoded v (jose_error e) = fail (err_jose e)
check_decoded v invalid_fingerprint = fail err_invalid_fingerprint
check_decoded v (claims_of c) = check_claims v c

-- The timestamp lies in the future, or, under a negative tolerance, too far in the past. `now` is
-- in nanoseconds.
pub is_untimely : SessionRequestValidator → ℤ → ℤ → Bool
unfolding unix
is_untimely v now timestamp =
    ltb_ℤ (unix now) timestamp
    || (ltb_ℤ v.timestamp_past_toleration (pos 0)
        && ltb_ℤ timestamp (unix (now +ℤ v.timestamp_past_toleration)))

unfoldable pub validate_session : SessionRequestValidator → ℤ → Option RequestSession → Validated
unfolding is_untimely check_decoded
validate_session v now none = fail err_invalid_request_session
validate_session v now (some req) =
    if is_untimely v now req.timestamp
    then fail err_invalid_timestamp
    else check_decoded v (decode_jwt v.jose req.access_token)

-- `ValidateSession` on a nil validator, whose fields are first read after these two checks: an error,
-- or `none`, a panic.
unfoldable pub validate_session_nil : ℤ → Option RequestSession → Option SessionError
unfolding unix
validate_session_nil now none = some err_invalid_request_session
validate_session_nil now (some req) =
    if ltb_ℤ (unix now) req.timestamp then some err_invalid_timestamp else none

-- The messages of go-jose's errors.
abbrev pub Messages : Type 0
Messages = JoseError → String

pub error_message : Messages → SessionError → String
error_message m err_invalid_request_session = "invalid request session"
error_message m err_invalid_timestamp = "invalid timestamp"
error_message m err_invalid_tenant = "invalid request session tenant"
error_message m err_invalid_audience = "invalid token audience"
error_message m err_invalid_fingerprint = "invalid key fingerprint"
error_message m (err_jose e) = m e
error_message m (err_required_scopes scopes) = "required scopes to complete request: " ++ scopes

jose_slug : JoseError → String
jose_slug (other_jose_error message) = internal_error_msg
jose_slug _ = invalid_token_slg

-- The `switch`; an error that no case names gets the message of an internal error for its slug.
pub error_slug : SessionError → String
unfolding jose_slug
error_slug (err_jose e) = jose_slug e
error_slug err_invalid_audience = invalid_audience_slg
error_slug err_invalid_request_session = invalid_request_session_slg
error_slug err_invalid_timestamp = invalid_timestamp_slg
error_slug err_invalid_tenant = invalid_tenant_slg
error_slug err_invalid_fingerprint = internal_error_msg
error_slug (err_required_scopes scopes) = required_scopes_slg

unfoldable pub parse_session_error_to_status :
    Messages → SessionError → Option ResponseStatus → ResponseStatus
unfolding error_slug error_message
parse_session_error_to_status m e none = record {
  errors = record { slug = error_slug e; message = error_message m e } ∷ [];
}
parse_session_error_to_status m e (some status) = record {
  errors =
      mathlib.Core.List.◌++◌ status.errors
        (record { slug = error_slug e; message = error_message m e } ∷ []);
}
