-- ===== src/Photos/Queue/Failing.antt =====
-- A call of `process` each of whose attempts fails with the same error.
use cloud_photo_delivery.Prelude.{
  ℕ, zero, suc, ◌+◌, ◌-◌, max, Bool, true, false, ◌||◌, ◌==◌, some, List, [], ◌∷◌, ltb, ◌≡◌,
  if◌then◌else◌,
}
use cloud_photo_delivery.Photos.Schema.{FileDescriptor}
use cloud_photo_delivery.Photos.Errors.{
  UploadError, abort_error, transport_error, api_error, plain_error, photo_error_message, api_code,
}
use cloud_photo_delivery.Photos.Item.{UploadItem, failed}
use cloud_photo_delivery.Photos.Queue.State.{UploadQueue, Await, sleep}
use cloud_photo_delivery.Photos.Queue.Process.{fail, wake}

-- The delay behind the attempt of a number.
abbrev pub delay_after : ℕ → ℕ
delay_after zero = 1000
delay_after (suc zero) = 1000
delay_after (suc (suc zero)) = 2000
delay_after (suc (suc (suc zero))) = 4000
delay_after (suc (suc (suc (suc k)))) = 8000

-- The errors that another attempt may get past: a connection that broke, a limit on the requests, a
-- fault of the server, and an error that is none of the transport's or the API's.
abbrev pub is_transient : UploadError → Bool
is_transient abort_error = false
is_transient (transport_error status message) = status == 0 || status == 429 || ltb 499 status
is_transient (api_error code message status) = status == 429 || ltb 499 status
is_transient (plain_error message) = true

-- The delays behind `count` attempts, from the attempt `k` on.
abbrev pub delays_from : ℕ → ℕ → List ℕ
delays_from k zero = []
delays_from k (suc count) = delay_after k ∷ delays_from (k + 1) count

-- A call of `process` each of whose attempts is rejected with `e`: the delays that it sleeps, and the
-- queue in which it returns.
abbrev slept : Await → UploadQueue → List ℕ × UploadQueue → List ℕ × UploadQueue
slept (sleep ms) q rest = (ms ∷ rest.0, rest.1)
slept _ q rest = ([], q)

unfoldable pub run_failing :
    ℕ → ℕ → FileDescriptor → UploadError → UploadQueue → List ℕ × UploadQueue
run_failing zero r file e q = ([], q)
run_failing (suc n) r file e q =
    let failing = fail r e q in
    slept failing.1 failing.0 (run_failing n r file e (wake r file failing.0).0)

-- The number of the last attempt, when the row has used `used` of them.
abbrev pub last_attempt : ℕ → ℕ → UploadError → ℕ
last_attempt used most e = max (used + 1) (if is_transient e then most else 0)

abbrev pub item_of : ℕ → List ℕ × UploadQueue → UploadItem
item_of r x = x.1.heap r

-- A call that began with `used` attempts used returns behind the attempt `last`.
pub record GivesUp (r : ℕ) (e : UploadError) (used last : ℕ) (x : List ℕ × UploadQueue)
    : Type 0 where
  pub delays : x.0 ≡ delays_from (used + 1) (last - (used + 1))
  pub attempts : (item_of r x).attempts ≡ last
  pub status : (item_of r x).status ≡ failed
  pub error : (item_of r x).error ≡ some (photo_error_message e)
  pub error_code : (item_of r x).error_code ≡ api_code e
