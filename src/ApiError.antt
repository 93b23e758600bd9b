-- ===== src/ApiError.antt =====
-- Handler errors: server/src/error.rs. A status code is its number.
use ledgerly.Prelude.{ℕ, String, ◌||◌, ◌==◌, if◌then◌else◌}

pub record ApiError : Type 0 where
  pub status : ℕ
  pub code : String
  pub message : String

-- `ApiError::new`; `details` is `None` wherever an error is built.
abbrev pub api_error : ℕ → String → String → ApiError
api_error status code message = record { status = status; code = code; message = message }

-- `code_domain`
unfoldable pub code_domain : String → String
code_domain code =
    if code == "DB_ERROR" || code == "POOL_UNAVAILABLE"
    then "postgres"
    else if code == "INVALID_CREDENTIALS"
        || code == "INVALID_REFRESH"
        || code == "REFRESH_REUSE"
        || code == "EMAIL_TAKEN"
        || code == "MIXED_REFRESH_CREDENTIALS"
        || code == "MISSING_REFRESH_CREDENTIAL"
        || code == "TOKEN_ENCODING_FAILED"
        || code == "PASSWORD_HASH_FAILED"
    then "auth"
    else if code == "NOT_FOUND"
        || code == "SIGNATURE_INVALID"
        || code == "EXPIRED"
        || code == "INVALID_METHOD"
    then "object_store"
    else if code == "INVALID_REQUEST" || code == "MUTATION_REJECTED"
    then "sync"
    else "api"
