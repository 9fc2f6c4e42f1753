-- ===== src/Photos/Queue/Frame.antt =====
-- What the steps of `process` leave alone in the queue.
use cloud_photo_delivery.Prelude.{
  ℕ, String, Option, List, [], ◌∷◌, ◌≡◌, arith, Option-cases, inl, inr,
}
use cloud_photo_delivery.Photos.Schema.{FileDescriptor}
use cloud_photo_delivery.Photos.Errors.{UploadError}
use cloud_photo_delivery.Photos.Pool.{first_rejection}
use cloud_photo_delivery.Photos.Item.{Result, ok, err}
use cloud_photo_delivery.Photos.Multipart.{Parts}
use cloud_photo_delivery.Photos.Queue.State.{UploadQueue}
use cloud_photo_delivery.Photos.Queue.Process.{
  InitializeResult, PartUrls, begin_multipart, begin_attempt, begin_round, begin_process, fail,
  wake, after_initialize, after_re_presign, after_put_simple, after_part_urls, after_part,
  after_pool, after_complete_multipart, after_complete,
}

pub record IsFramed (q q' : UploadQueue) : Type 0 where
  pub deps : q'.deps ≡ q.deps
  pub items : q'.items ≡ q.items
  pub active : q'.active ≡ q.active
  pub stopped : q'.stopped ≡ q.stopped
  pub tasks : q'.tasks ≡ q.tasks
  pub objects : q'.next_object ≡ q.next_object

begin_multipart-IsFramed :
    (r : ℕ) (file : FileDescriptor) (q : UploadQueue) → IsFramed q (begin_multipart r file q).0
unfolding begin_multipart
begin_multipart-IsFramed r file q = ground arith

begin_attempt-IsFramed :
    (r : ℕ) (file : FileDescriptor) (q : UploadQueue) → IsFramed q (begin_attempt r file q).0
unfolding begin_attempt
begin_attempt-IsFramed r file q = ground arith

pub begin_round-IsFramed :
    (r : ℕ) (file : FileDescriptor) (q : UploadQueue) → IsFramed q (begin_round r file q).0
unfolding begin_round
begin_round-IsFramed r file q = ground arith

pub begin_process-IsFramed :
    (r : ℕ) (file : FileDescriptor) (q : UploadQueue) → IsFramed q (begin_process r file q).0
unfolding begin_process
begin_process-IsFramed r file q = ground arith

pub fail-IsFramed : (r : ℕ) (e : UploadError) (q : UploadQueue) → IsFramed q (fail r e q).0
unfolding fail
fail-IsFramed r e q = ground arith

pub wake-IsFramed : (r : ℕ) (file : FileDescriptor) (q : UploadQueue) → IsFramed q (wake r file q).0
unfolding wake
wake-IsFramed r file q = ground arith

pub after_initialize-IsFramed :
    (r : ℕ) (file : FileDescriptor) (reply : Result InitializeResult) (q : UploadQueue)
    → IsFramed q (after_initialize r file reply q).0
unfolding after_initialize
after_initialize-IsFramed r file (err e) q = ground arith
after_initialize-IsFramed r file (ok init) q = ground arith

pub after_re_presign-IsFramed :
    (r : ℕ) (reply : Result String) (q : UploadQueue) → IsFramed q (after_re_presign r reply q).0
unfolding after_re_presign
after_re_presign-IsFramed r (err e) q = fail-IsFramed r e q
after_re_presign-IsFramed r (ok url) q = ground arith

pub after_put_simple-IsFramed :
    (r : ℕ) (reply : Result (Option String)) (q : UploadQueue)
    → IsFramed q (after_put_simple r reply q).0
unfolding after_put_simple
after_put_simple-IsFramed r (err e) q = fail-IsFramed r e q
after_put_simple-IsFramed r (ok etag) q = ground arith

pub after_part_urls-IsFramed :
    (r : ℕ) (photo_id : String) (part_size : ℕ) (missing : List ℕ) (rest : List (List ℕ))
    (urls : List (ℕ × String)) (reply : Result PartUrls) (q : UploadQueue)
    → IsFramed q (after_part_urls r photo_id part_size missing rest urls reply q).0
unfolding after_part_urls
after_part_urls-IsFramed r photo_id part_size missing rest urls (err e) q = fail-IsFramed r e q
after_part_urls-IsFramed r photo_id part_size missing [] urls (ok result) q = ground arith
after_part_urls-IsFramed r photo_id part_size missing (b ∷ rest) urls (ok result) q = ground arith

pub after_part-IsFramed :
    (r : ℕ) (photo_id : String) (part_size : ℕ) (urls : List (ℕ × String)) (pool : Parts) (i : ℕ)
    (reply : Result (Option String)) (q : UploadQueue)
    → IsFramed q (after_part r photo_id part_size urls pool i reply q).0
unfolding after_part
after_part-IsFramed r photo_id part_size urls pool i reply q = ground arith

pub after_pool-IsFramed :
    (r : ℕ) (photo_id : String) (pool : Parts) (q : UploadQueue)
    → IsFramed q (after_pool r photo_id pool q).0
unfolding after_pool
after_pool-IsFramed r photo_id pool q = elim (Option-cases (first_rejection pool.workers)) [
  | inl e ↦ rw (e, after_pool) (ground arith)
  | inr (x, e) ↦ rw (e, after_pool) (fail-IsFramed r x q)
]

pub after_complete_multipart-IsFramed :
    (r : ℕ) (reply : Result (Unit {0})) (q : UploadQueue)
    → IsFramed q (after_complete_multipart r reply q).0
unfolding after_complete_multipart
after_complete_multipart-IsFramed r (err e) q = fail-IsFramed r e q
after_complete_multipart-IsFramed r (ok done) q = ground arith

pub after_complete-IsFramed :
    (r : ℕ) (reply : Result (Unit {0})) (q : UploadQueue) → IsFramed q (after_complete r reply q).0
unfolding after_complete
after_complete-IsFramed r (err e) q = fail-IsFramed r e q
after_complete-IsFramed r (ok done) q = ground arith
