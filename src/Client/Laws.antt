-- ===== src/Client/Laws.antt =====
-- When the client throws, and how its errors are retried by an upload.
use cloud_photo_delivery.Prelude.{
  ◌≡◌, Bool, false, not, ◌||◌, ◌&&◌, Option, none, some, is_some, leb, ◌==◌, arith,
}
use cloud_photo_delivery.Photos.Errors.{UploadError, api_error, is_retryable_error}
use cloud_photo_delivery.Client.{
  ApiError, ClientResult, Outcome, throws, returns, is_ok, envelope_error, unwrap_envelope,
  to_api_error,
}

abbrev pub thrown : {T : Type 0} → Outcome T → Option ApiError
thrown (throws e) = some e
thrown (returns data_of) = none

-- The rejection that an upload sees.
abbrev pub rejection : ApiError → UploadError
rejection e = api_error e.code_of e.message e.status

abbrev pub is_retried : Option ApiError → Bool
is_retried none = false
is_retried (some e) = is_retryable_error (rejection e)

-- A result is thrown exactly where the HTTP client found an error, or the envelope holds one, or
-- the status is not a success. What is thrown is retried by an upload exactly where the status of
-- the answer is 429 or from 500 on, whichever of the three it was.
pub unwrap_envelope_lem :
    {T : Type 0} (result : ClientResult T)
    → let e = thrown (unwrap_envelope result) in
      (is_some e ≡ (
        is_some result.error
        || is_some (envelope_error result.data_of)
        || not (is_ok result.response)))
      × (is_retried e
          ≡ (is_some e && (result.response.status == 429 || leb 500 result.response.status)))
unfolding unwrap_envelope to_api_error is_retryable_error
unwrap_envelope_lem result = ground arith
