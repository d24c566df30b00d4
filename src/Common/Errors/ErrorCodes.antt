-- ===== src/Common/Errors/ErrorCodes.antt =====
-- packages/common/src/errors/error-codes.ts: the codes that the services throw with.
use backend_core_platform.Base.{String}

abbrev pub internal : String
internal = "INTERNAL"

abbrev pub validation_error : String
validation_error = "VALIDATION_ERROR"

abbrev pub not_found : String
not_found = "NOT_FOUND"

abbrev pub unauthorized : String
unauthorized = "UNAUTHORIZED"

abbrev pub forbidden : String
forbidden = "FORBIDDEN"

abbrev pub too_many_requests : String
too_many_requests = "TOO_MANY_REQUESTS"

abbrev pub conflict : String
conflict = "CONFLICT"

abbrev pub bad_request : String
bad_request = "BAD_REQUEST"

abbrev pub auth_invalid_credentials : String
auth_invalid_credentials = "AUTH_INVALID_CREDENTIALS"

abbrev pub auth_token_invalid : String
auth_token_invalid = "AUTH_TOKEN_INVALID"

abbrev pub auth_refresh_token_invalid : String
auth_refresh_token_invalid = "AUTH_REFRESH_TOKEN_INVALID"

abbrev pub noti_not_found : String
noti_not_found = "NOTI_NOT_FOUND"
