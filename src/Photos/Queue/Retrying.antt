-- ===== src/Photos/Queue/Retrying.antt =====
-- How an attempt of a call of `process` ends that fails.
use cloud_photo_delivery.Prelude.{ℕ, ◌+◌, false, ◌&&◌, some, ltb, ◌≡◌, arith, if◌then◌else◌}
use cloud_photo_delivery.Photos.Errors.{
  UploadError, is_retryable_error, is_abort_error, photo_error_message, api_code, backoff_ms,
}
use cloud_photo_delivery.Photos.Item.{queued, failed}
use cloud_photo_delivery.Photos.Queue.State.{UploadQueue, sleep, returned, max_attempts}
use cloud_photo_delivery.Photos.Queue.Process.{fail, retrying_message}

-- How one attempt that fails with an error other than an abort ends.
pub fail_lem :
    (r : ℕ) (e : UploadError) (q : UploadQueue)
    → is_abort_error e ≡ false
    → let attempts = (q.heap r).attempts + 1 in
      let again = is_retryable_error e && ltb attempts (max_attempts q) in
      (((fail r e q).0.heap r).attempts ≡ attempts)
      × (((fail r e q).0.heap r).status ≡ (if again then queued else failed))
      × (((fail r e q).0.heap r).error
          ≡ some (if again then retrying_message else photo_error_message e))
      × (((fail r e q).0.heap r).error_code ≡ (if again then (q.heap r).error_code else api_code e))
      × ((fail r e q).1 ≡ (if again then sleep (backoff_ms attempts) else returned))
unfolding fail
fail_lem r e q plain = ground arith

pub fail-file :
    (r k : ℕ) (e : UploadError) (q : UploadQueue) → ((fail r e q).0.heap k).file ≡ (q.heap k).file
unfolding fail
fail-file r k e q = ground arith
