-- ===== src/Photos/Errors.antt =====
-- What an upload can be rejected with (packages/api-client/src/client.ts, transport.ts and
-- uploader.ts in apps/web/src/features/photos), which rejections are retried, and the message
-- that the user reads (errors.ts). The codes are the server's, so none names a member of
-- `Object.prototype`.
use cloud_photo_delivery.Prelude.{
  ℕ, ◌-◌, ◌*◌, ◌^◌, min, String, Bool, true, false, ◌||◌, Option, none, some, leb, ◌==◌,
  if◌then◌else◌, str_eq, or_default,
}

pub data UploadError : Type 0 where
  -- a `DOMException` named "AbortError"
  abort_error : UploadError
  -- an `UploadTransportError` with its status
  transport_error : ℕ → String → UploadError
  -- an `ApiError` with its code, message and status
  api_error : String → String → ℕ → UploadError
  -- any other `Error`
  plain_error : String → UploadError

unfoldable pub is_abort_error : UploadError → Bool
is_abort_error abort_error = true
is_abort_error _ = false

unfoldable pub is_retryable_error : UploadError → Bool
is_retryable_error abort_error = false
is_retryable_error (transport_error status message) = status == 0 || status == 429 || leb 500 status
is_retryable_error (api_error code message status) = status == 429 || leb 500 status
is_retryable_error (plain_error message) = true

unfoldable pub is_not_found : UploadError → Bool
is_not_found (api_error code message status) = status == 404
is_not_found _ = false

abbrev fallback : String
fallback = "Something went wrong. Please try again."

messages : String → Option String
messages code =
    if str_eq code "EVENT_NOT_FOUND"
    then some "This event no longer exists."
    else if str_eq code "PHOTO_NOT_FOUND"
    then some "This photo no longer exists."
    else if str_eq code "UPLOAD_NOT_FOUND"
    then some "The upload could not be found. Please try again."
    else if str_eq code "UPLOAD_SIZE_MISMATCH"
    then some "The uploaded file did not match its expected size. Please try again."
    else if str_eq code "IDEMPOTENCY_CONFLICT"
    then some "This upload conflicts with an earlier request."
    else if str_eq code "NOT_SIMPLE"
    then some "This upload must be resumed as a multipart upload."
    else if str_eq code "INVALID_UPLOAD_STATE"
    then some "This upload has already finished."
    else if str_eq code "VALIDATION_ERROR"
    then some "The server rejected this file."
    else if str_eq code "PLAN_LIMIT_REACHED"
    then some "You have reached your plan's limit. Upgrade to continue uploading."
    else none

unfoldable pub photo_error_message : UploadError → String
unfolding messages
photo_error_message abort_error = "Aborted"
photo_error_message (transport_error status message) =
    if str_eq message "" then fallback else message
photo_error_message (api_error code message status) = or_default (messages code) message
photo_error_message (plain_error message) = if str_eq message "" then fallback else message

-- `error instanceof ApiError ? error.code : null`
abbrev pub api_code : UploadError → Option String
api_code (api_error code message status) = some code
api_code _ = none

-- The delay before attempt `attempt + 1`, in milliseconds.
unfoldable pub backoff_ms : ℕ → ℕ
backoff_ms attempt = min (1000 * 2 ^ (attempt - 1)) 8000
