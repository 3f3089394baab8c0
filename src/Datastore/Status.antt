-- ===== src/Datastore/Status.antt =====
-- pkg/datastore/grpc.go: `ParseErrorIntoStatus`.
use Prim.Native.String.{◌++◌}
use mono_sso.Prelude.{String, List, [], ◌∷◌, map}
use mono_sso.Constants.{
  StatusError, ResponseStatus, invalid_request_slg, internal_error_slg, not_found_slg,
  version_mismatch_slg,
}
use mono_sso.Datastore.Tables.{
  Error, client_not_found, scope_not_found, tenant_not_found, version_mismatch, validation,
}

-- The texts of the errors that other packages return.
abbrev pub Texts : Type 0
Texts = Error → String

abbrev validation_error : String × String → StatusError
validation_error (field, tag) = record {
  slug = invalid_request_slg;
  message = "Field \"" ++ (field ++ ("\" failed on validation " ++ tag));
}

pub error_slug : Error → String
error_slug client_not_found = not_found_slg
error_slug scope_not_found = not_found_slg
error_slug tenant_not_found = not_found_slg
error_slug version_mismatch = version_mismatch_slg
error_slug e = internal_error_slg

pub error_text : Texts → Error → String
error_text texts client_not_found = "client not found"
error_text texts scope_not_found = "scope not found"
error_text texts tenant_not_found = "tenant not found"
error_text texts version_mismatch = "version mismatch"
error_text texts e = texts e

pub status_errors : Texts → Error → List StatusError
unfolding error_slug error_text
status_errors texts (validation fields) = map validation_error fields
status_errors texts e = record { slug = error_slug e; message = error_text texts e } ∷ []

unfoldable pub parse_error_into_status : Texts → Error → ResponseStatus → ResponseStatus
unfolding status_errors
parse_error_into_status texts e status = record {
  errors = mathlib.Core.List.◌++◌ status.errors (status_errors texts e);
}
