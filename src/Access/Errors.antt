-- ===== src/Access/Errors.antt =====
-- server/src/lib/errors.ts, and the central handler of server/src/middleware/http.ts.
use ai_cctv_platform.Common.{ℕ, String}

pub record HttpError : Type 0 where
  pub status : ℕ
  pub code : String
  pub message : String

-- What a handler may throw: an `HttpError`, a failed schema, or any other `Error`.
pub data Error : Type 0 where
  http : HttpError → Error
  invalid : Error
  other : String → Error

abbrev pub bad_request : String → Error
bad_request message = http (record { status = 400; code = "BAD_REQUEST"; message = message })

abbrev pub unauthorized : String → Error
unauthorized message = http (record { status = 401; code = "UNAUTHORIZED"; message = message })

abbrev pub forbidden : String → Error
forbidden message = http (record { status = 403; code = "FORBIDDEN"; message = message })

abbrev pub not_found : String → Error
not_found message = http (record { status = 404; code = "NOT_FOUND"; message = message })

abbrev pub conflict : String → Error
conflict message = http (record { status = 409; code = "CONFLICT"; message = message })

abbrev pub too_many : String → Error
too_many message = http (record { status = 429; code = "RATE_LIMITED"; message = message })

-- The answer that `errorHandler` sends: only an `HttpError` shows its message.
unfoldable pub error_handler : Error → HttpError
error_handler (http e) = e
error_handler invalid = record {
  status = 400;
  code = "VALIDATION_ERROR";
  message = "Request validation failed";
}
error_handler (other _) = record {
  status = 500;
  code = "INTERNAL";
  message = "Internal server error";
}
