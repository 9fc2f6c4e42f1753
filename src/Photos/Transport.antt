-- ===== src/Photos/Transport.antt =====
-- `putWithProgress` of apps/web/src/features/photos/transport.ts: what the events of the browser's
-- request make of its promise, and what an abort of the signal does.
pub mod Laws
use cloud_photo_delivery.Prelude.{
  ℕ, ◌*◌, String, Bool, true, false, ◌&&◌, Option, none, some, List, [], ◌∷◌, ◌++◌, leb, ltb,
  if◌then◌else◌, or_default, show,
}
use Prim.Native.String
use cloud_photo_delivery.Photos.Errors.{UploadError, abort_error, transport_error}
use cloud_photo_delivery.Photos.Item.{Result, ok, err}

abbrev pub default_upload_timeout_ms : ℕ
default_upload_timeout_ms = 15 * 60 * 1000

-- The end of the request: `onload` with its status and the header `ETag`, `onerror`, `ontimeout` or
-- `onabort`.
pub data End : Type 0 where
  loads : (status : ℕ) (etag : Option String) → End
  errs times_out aborts : End

-- `new UploadTransportError(status)`
abbrev pub status_error : ℕ → UploadError
status_error status =
    transport_error status (String.◌++◌ "Upload failed with status " (show status))

unfoldable pub result_of : End → Result (Option String)
result_of (loads status etag) =
    if leb 200 status && ltb status 300 then ok etag else err (status_error status)
result_of errs = err (transport_error 0 "Network error while uploading.")
result_of times_out = err (transport_error 0 "The upload timed out.")
result_of aborts = err abort_error

-- A request that is sent: its timeout, whether it listens to the signal, whether `xhr.abort()` was
-- called, its promise, and the progress that was reported.
pub record Put : Type 0 where
  pub timeout_ms : ℕ
  pub size : ℕ
  pub listens : Bool
  pub aborted : Bool
  pub result : Option (Result (Option String))
  pub reported : List (ℕ × ℕ)

-- `putWithProgress` up to `xhr.send(body)`. A signal that is aborted already sends no event, and
-- the code does not ask for it.
unfoldable pub put_with_progress : Option ℕ → ℕ → (signal : Bool) → Put
put_with_progress timeout_ms size signal = record {
  timeout_ms = or_default timeout_ms default_upload_timeout_ms;
  size = size;
  listens = signal;
  aborted = false;
  result = none;
  reported = [];
}

-- `xhr.upload.onprogress`, with the total where it is known.
unfoldable pub on_progress : ℕ → Option ℕ → Put → Put
on_progress loaded total p = record p {
  reported = p.reported ++ (loaded, or_default total p.size) ∷ [];
}

-- The signal's event `abort`, which comes once.
unfoldable pub on_abort : Put → Put
on_abort p = if p.listens then record p { listens = false; aborted = true } else p

-- A promise settles once.
abbrev settle :
    Option (Result (Option String)) → Result (Option String) → Option (Result (Option String))
settle none result = some result
settle (some settled) result = some settled

unfoldable pub on_end : End → Put → Put
on_end e p = record p { listens = false; result = settle p.result (result_of e) }
