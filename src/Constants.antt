-- ===== src/Constants.antt =====
-- pkg/constants/constants.go and cmd/sso-service/constants.go: the slugs, and the statuses
-- that the RPC servers of sso-service answer with.
use mono_sso.Prelude.{String, List, [], ◌∷◌}

abbrev pub invalid_account_slg : String
invalid_account_slg = "INVALID_ACCOUNT"

abbrev pub invalid_activation_slg : String
invalid_activation_slg = "INVALID_ACTIVATION"

abbrev pub unknown_scopes_slg : String
unknown_scopes_slg = "UNKNOWN_SCOPES"

abbrev pub unauthorized_scopes_slg : String
unauthorized_scopes_slg = "UNAUTHORIZED_SCOPES"

abbrev pub invalid_client_slg : String
invalid_client_slg = "INVALID_CLIENT"

abbrev pub invalid_response_type_slg : String
invalid_response_type_slg = "INVALID_RESPONSE_TYPE"

abbrev pub no_valid_refresh_token_slg : String
no_valid_refresh_token_slg = "NO_VALID_REFRESH_TOKEN"

abbrev pub internal_error_slg : String
internal_error_slg = "INTERNAL_ERROR"

abbrev pub invalid_request_slg : String
invalid_request_slg = "INVALID_REQUEST"

abbrev pub invalid_grant_slg : String
invalid_grant_slg = "INVALID_GRANT"

abbrev pub not_found_slg : String
not_found_slg = "NOT_FOUND"

abbrev pub version_mismatch_slg : String
version_mismatch_slg = "VERSION_MISMATCH"

abbrev pub invalid_audience_slg : String
invalid_audience_slg = "INVALID_AUDIENCE"

abbrev pub invalid_request_session_slg : String
invalid_request_session_slg = "INVALID_REQUEST_SESSION"

abbrev pub invalid_timestamp_slg : String
invalid_timestamp_slg = "INVALID_TIMESTAMP"

abbrev pub required_scopes_slg : String
required_scopes_slg = "REQUIRED_SCOPES"

abbrev pub invalid_token_slg : String
invalid_token_slg = "INVALID_TOKEN"

abbrev pub invalid_tenant_slg : String
invalid_tenant_slg = "INVALID_TENANT"

abbrev pub internal_error_msg : String
internal_error_msg = "internal server error"

-- sso.common.ResponseStatus.Error
pub record StatusError : Type 0 where
  pub slug : String
  pub message : String

-- sso.common.ResponseStatus
pub record ResponseStatus : Type 0 where
  pub errors : List StatusError

abbrev pub status_of : String → String → ResponseStatus
status_of slug message = record { errors = record { slug = slug; message = message } ∷ [] }

abbrev pub sign_in_invalid_account_status : ResponseStatus
sign_in_invalid_account_status = status_of invalid_account_slg "identifier and/or password invalid"

abbrev pub invalid_activation_request_status : ResponseStatus
invalid_activation_request_status = status_of invalid_activation_slg "invalid activation request"

abbrev pub internal_error_status : ResponseStatus
internal_error_status = status_of internal_error_slg internal_error_msg

abbrev pub unknown_scopes_status : ResponseStatus
unknown_scopes_status =
    status_of unknown_scopes_slg "there're unknown scopes in authorization request"

abbrev pub invalid_client_status : ResponseStatus
invalid_client_status = status_of invalid_client_slg "invalid client id or redirect uri"

abbrev pub invalid_response_type_status : ResponseStatus
invalid_response_type_status =
    status_of invalid_response_type_slg "this response type is unsupported by this type of client"

abbrev pub no_valid_refresh_token_status : ResponseStatus
no_valid_refresh_token_status =
    status_of no_valid_refresh_token_slg "this client has no valid refresh token to this subject"

abbrev pub invalid_grant_status : ResponseStatus
invalid_grant_status = status_of invalid_grant_slg "invalid grant request"

abbrev pub unauthorized_scopes_status : ResponseStatus
unauthorized_scopes_status =
    status_of unauthorized_scopes_slg "there're unauthorized scopes in request"

abbrev pub invalid_tenant_status : ResponseStatus
invalid_tenant_status = status_of invalid_tenant_slg "the tenant for this request is invalid"

-- The bodies of the HTTP responses that sso-provider writes.
abbrev pub invalid_recaptcha_response : String
invalid_recaptcha_response =
    "{\"status\":{\"errors\":[{\"slug\":\"INVALID_RECAPTCHA\",\"message\":\"invalid recaptcha response\"}]}}"

abbrev pub internal_error_response : String
internal_error_response =
    "{\"status\":{\"errors\":[{\"slug\":\"INTERNAL_ERROR\",\"message\":\"internal server error\"}]}}"

abbrev pub invalid_payload_response : String
invalid_payload_response =
    "{\"status\":{\"errors\":[{\"slug\":\"INVALID_PAYLOAD\",\"message\":\"invalid payload, check the data sent in request\"}]}}"

abbrev pub unauthorized_response : String
unauthorized_response =
    "{\"status\":{\"errors\":[{\"slug\":\"UNAUTHORIZED\",\"message\":\"you must authenticate first\"}]}}"

abbrev pub unauthorized_exchange_response : String
unauthorized_exchange_response =
    "{\"status\":{\"errors\":[{\"slug\":\"UNAUTHORIZED_CODE\",\"message\":\"your code is invalid, request the resource owner again for grant\"}]}}"

abbrev pub invalid_exchange_response : String
invalid_exchange_response =
    "{\"status\":{\"errors\":[{\"slug\":\"INVALID_EXCHANGE\",\"message\":\"your exchange request is invalid, something is wrong with your request parameters\"}]}}"

abbrev pub invalid_activation_response : String
invalid_activation_response =
    "{\"status\":{\"errors\":[{\"slug\":\"INVALID_ACTIVATION\",\"message\":\"invalid activation request\"}]}}"

abbrev pub invalid_refresh_response : String
invalid_refresh_response =
    "{\"status\":{\"errors\":[{\"slug\":\"INVALID_REFRESH\",\"message\":\"invalid refresh token request\"}]}}"

abbrev pub ok_response : String
ok_response = "{\"status\":{\"errors\":[]}}"
