-- ===== src/Handler.antt =====
-- internal/handler/apperror.go and the switch of response.go: what a client is told of an error.
pub mod Receiver
pub mod Http
pub mod Ownership
pub mod Payment
pub mod Account
pub mod User
pub mod Rates
pub mod Login
pub mod Health
use grey_backend_assessment.Prelude.{ℕ, String}
use grey_backend_assessment.Domain.{Error}

pub record AppError : Type 0 where
  pub status : ℕ
  pub code : String
  pub message : String

abbrev pub app_error : ℕ → String → String → AppError
app_error status code message = record { status = status; code = code; message = message }

abbrev pub missing_token : AppError
missing_token = app_error 401 "MISSING_TOKEN" "Authorization header required"

abbrev pub invalid_token : AppError
invalid_token = app_error 401 "INVALID_TOKEN" "Token is invalid or expired"

abbrev pub invalid_credentials : AppError
invalid_credentials = app_error 401 "INVALID_CREDENTIALS" "Invalid email or password"

abbrev pub invalid_request : AppError
invalid_request = app_error 400 "INVALID_REQUEST" "Invalid request body"

abbrev pub validation_failed : AppError
validation_failed = app_error 400 "VALIDATION_FAILED" "Validation failed"

abbrev pub resource_not_found : AppError
resource_not_found = app_error 404 "RESOURCE_NOT_FOUND" "Resource not found"

abbrev pub internal_error : AppError
internal_error = app_error 500 "INTERNAL_ERROR" "An unexpected error occurred"

abbrev pub missing_idempotency_key : AppError
missing_idempotency_key =
    app_error 400 "MISSING_IDEMPOTENCY_KEY" "Idempotency-Key header is required"

abbrev pub idempotency_conflict : AppError
idempotency_conflict =
    app_error 409 "IDEMPOTENCY_CONFLICT" "Idempotency key already used with a different request"

abbrev pub invalid_signature : AppError
invalid_signature = app_error 401 "INVALID_SIGNATURE" "Webhook signature is invalid"

-- The switch over the sentinels, which only the default leaves: internal_error.
unfoldable pub app_error_of : Error → AppError
app_error_of Error.not_found = resource_not_found
app_error_of Error.insufficient_funds = app_error 422 "INSUFFICIENT_FUNDS" "Insufficient funds"
app_error_of Error.account_frozen = app_error 422 "ACCOUNT_FROZEN" "Account is frozen"
app_error_of Error.duplicate_payment = app_error 409 "DUPLICATE_PAYMENT" "Duplicate payment"
app_error_of Error.self_transfer =
    app_error 422 "SELF_TRANSFER_NOT_ALLOWED" "Cannot transfer to the same account"
app_error_of Error.limit_exceeded =
    app_error 422 "TRANSACTION_LIMIT_EXCEEDED" "Transaction limit exceeded"
app_error_of Error.recipient_not_found = app_error 422 "RECIPIENT_NOT_FOUND" "Recipient not found"
app_error_of Error.account_not_found = app_error 422 "ACCOUNT_NOT_FOUND" "Account not found"
app_error_of Error.account_exists =
    app_error 409 "ACCOUNT_ALREADY_EXISTS" "Account already exists for this currency"
app_error_of Error.invalid_currency = app_error 400 "INVALID_CURRENCY" "Invalid currency"
app_error_of Error.account_closed = app_error 422 "ACCOUNT_CLOSED" "Account is closed"
app_error_of Error.currency_mismatch = app_error 422 "CURRENCY_MISMATCH" "Currency mismatch"
app_error_of Error.version_conflict =
    app_error 409 "VERSION_CONFLICT" "Resource was modified concurrently, please retry"
app_error_of Error.invalid_amount =
    app_error 400 "INVALID_AMOUNT" "Amount must be greater than zero"
app_error_of Error.invalid_request = invalid_request
app_error_of _ = internal_error
