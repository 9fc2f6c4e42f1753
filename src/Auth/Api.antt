-- ===== src/Auth/Api.antt =====
-- apps/web/src/lib/auth/api.ts: a call of the API with the session's token, which is refreshed once
-- where the API answers 401. A call is cut at its `await`s; the calls of a page share the session.
pub mod Calls
pub mod Laws
use cloud_photo_delivery.Prelude.{
  ℕ, zero, suc, String, Bool, true, false, Option, none, some, List, [], ◌∷◌, ◌++◌, ◌==◌,
  if◌then◌else◌, or_default,
}
use cloud_photo_delivery.Client.{
  ApiError, ClientResult, HttpResponse, Outcome, throws, returns, RawError, wraps, plain,
  ErrorValue, normalize_error, no_object, unwrap_envelope, is_ok, authorization,
}
use cloud_photo_delivery.Auth.Session.{Session, refresh_session, clear_session}

-- What a promise of `call` settles with: a rejection that is no `ApiError`, or a result.
pub data Reply (R : Type 0) : Type 0 where
  rejected : Reply R
  resolved : R → Reply R

-- How `withRefreshRetry` ends.
pub data End (T : Type 0) : Type 0 where
  value : Option T → End T
  threw : ApiError → End T
  failed : End T

-- Where a call stands: at its first request or at the second, each with the header that it was sent
-- with, or at `refreshSession()`, with the error that it has caught.
pub data Call (T : Type 0) : Type 0 where
  requests : (header : Option String) → Call T
  awaits_refresh : (promise : ℕ) (caught : ApiError) → Call T
  retries : (header : Option String) → Call T
  ended : End T → Call T

abbrev pub ends_with : {T : Type 0} → Outcome T → Call T
ends_with (throws e) = ended (threw e)
ends_with (returns v) = ended (value v)

module _ {U T R : Type 0} (unwrap : R → Outcome T) where
  abbrev pub await_refresh : ApiError → Session U × ℕ → Session U × Call T
  await_refresh e x = (x.0, awaits_refresh x.1 e)

  -- The `catch`, for an `ApiError` and for a value.
  abbrev pub catch_error : Outcome T → Session U → Session U × Call T
  catch_error (returns v) s = (s, ended (value v))
  catch_error (throws e) s =
      if e.status == 401 then await_refresh e (refresh_session s) else (s, ended (threw e))

  unfoldable pub after_request : Reply R → Session U → Session U × Call T
  after_request rejected s = (s, ended failed)
  after_request (resolved r) s = catch_error (unwrap r) s

  unfoldable pub after_retry : Reply R → Session U → Session U × Call T
  after_retry rejected s = (s, ended failed)
  after_retry (resolved r) s = (s, ends_with (unwrap r))

module _ {U T : Type 0} where
  -- The client asks `getAccessToken()` at each request.
  unfoldable pub begin_call : Session U → Call T
  begin_call s = requests (authorization s.state.access_token)

  -- Behind `await refreshSession()`.
  unfoldable pub after_refreshing : Bool → ApiError → Session U → Session U × Call T
  after_refreshing true caught s = (s, retries (authorization s.state.access_token))
  after_refreshing false caught s = (clear_session s, ended (threw caught))

-- `apiCall` is `withRefreshRetry` with `unwrapEnvelope`; `apiBlobCall` with this. A body is there
-- where it is truthy, as a `Blob` is.
abbrev pub inner_error : RawError → ErrorValue
inner_error (wraps inner) = inner
inner_error (plain inner) = no_object

abbrev pub inner_of : Option RawError → ErrorValue
inner_of none = no_object
inner_of (some raw) = inner_error raw

pub record BlobResult (B : Type 0) : Type 0 where
  pub blob : Option B
  pub error : Option RawError
  pub response : HttpResponse

unfoldable pub error_from_result : {B : Type 0} → BlobResult B → ApiError
error_from_result result = record {
  code_of = (normalize_error (inner_of result.error)).0;
  message = (normalize_error (inner_of result.error)).1;
  status = result.response.status;
  retry_after_seconds = none;
}

abbrev blob_or : {B : Type 0} → Option B → ApiError → Outcome B
blob_or none e = throws e
blob_or (some b) e = returns (some b)

unfoldable pub unwrap_blob : {B : Type 0} → BlobResult B → Outcome B
unwrap_blob result =
    if is_ok result.response
    then blob_or result.blob (error_from_result result)
    else throws (error_from_result result)
