-- ===== src/Messages.antt =====
-- apps/web/src/lib/auth/errors.ts, and errors.ts of events and gallery in apps/web/src/features:
-- what the user reads for an error of the API. A code that is a member of `Object.prototype` is not
-- one of the API's.
use cloud_photo_delivery.Prelude.{
  String, Bool, false, Option, none, some, ◌==◌, if◌then◌else◌, str_eq, or_default,
}
use cloud_photo_delivery.Photos.Errors.{UploadError, api_error}

abbrev fallback : String
fallback = "Something went wrong. Please try again."

abbrev account_locked : String
account_locked = "Too many failed attempts. Your account is locked for a while."

abbrev rate_limited : String
rate_limited = "Too many requests. Please slow down and try again."

unfoldable pub auth_messages : String → Option String
auth_messages code =
    if str_eq code "INVALID_CREDENTIALS"
    then some "Incorrect email or password."
    else if str_eq code "ACCOUNT_LOCKED"
    then some account_locked
    else if str_eq code "EMAIL_ALREADY_REGISTERED"
    then some "An account with this email already exists."
    else if str_eq code "VALIDATION_ERROR"
    then some "Please check the form and try again."
    else if str_eq code "UNAUTHENTICATED"
    then some "Your session has expired. Please log in again."
    else if str_eq code "RATE_LIMITED"
    then some rate_limited
    else if str_eq code "INVALID_RESET_TOKEN"
    then some "This reset link is invalid or has expired."
    else none

unfoldable pub auth_error_message : UploadError → String
auth_error_message (api_error code message status) =
    or_default (auth_messages code)
      (if status == 429 then rate_limited else if status == 423 then account_locked else fallback)
auth_error_message _ = fallback

abbrev plan_limit_reached : String
plan_limit_reached = "You have reached your plan's event limit."

unfoldable pub event_messages : String → Option String
event_messages code =
    if str_eq code "EVENT_NOT_FOUND"
    then some "This event no longer exists."
    else if str_eq code "INVALID_STATUS_TRANSITION"
    then some "That action is not allowed for the event's current status."
    else if str_eq code "PLAN_LIMIT_REACHED"
    then some plan_limit_reached
    else if str_eq code "VALIDATION_ERROR"
    then some "Please check the form and try again."
    else none

unfoldable pub event_error_message : UploadError → String
event_error_message (api_error code message status) =
    or_default (event_messages code) (if status == 402 then plan_limit_reached else fallback)
event_error_message _ = fallback

-- `error instanceof ApiError && error.code === code`
abbrev has_code : String → UploadError → Bool
has_code expected (api_error code message status) = str_eq code expected
has_code expected _ = false

unfoldable pub extend_event_error_message : UploadError → String
extend_event_error_message e =
    if has_code "INVALID_STATUS_TRANSITION" e
    then "Archived events cannot be extended."
    else event_error_message e

unfoldable pub export_error_message : UploadError → String
export_error_message e =
    if has_code "EXPORT_NOT_FOUND" e
    then "That export is no longer available."
    else if has_code "VALIDATION_ERROR" e
    then "Add photos to this event before exporting."
    else if has_code "RATE_LIMITED" e
    then "Too many export requests. Please try again shortly."
    else event_error_message e

unfoldable pub is_export_not_found : UploadError → Bool
is_export_not_found e = has_code "EXPORT_NOT_FOUND" e

unfoldable pub gallery_messages : String → Option String
gallery_messages code =
    if str_eq code "UNAUTHORIZED"
    then some "That password is not correct. Please try again."
    else if str_eq code "EVENT_NOT_FOUND"
    then some "This gallery is no longer available."
    else if str_eq code "PHOTO_NOT_FOUND"
    then some "This photo is no longer available."
    else if str_eq code "VALIDATION_ERROR"
    then some "Please check the form and try again."
    else none

unfoldable pub is_unauthorized : UploadError → Bool
is_unauthorized (api_error code message status) = status == 401
is_unauthorized _ = false

unfoldable pub gallery_error_message : UploadError → String
gallery_error_message (api_error code message status) = or_default (gallery_messages code) fallback
gallery_error_message _ = fallback
