-- ===== src/Photos/Queue/Process.antt =====
-- `process`, `attempt`, `putSimple` and `putMultipart` of `UploadQueue`, cut at their `await`s: each
-- function runs from one `await` to the next, and returns the queue with the next one.
use cloud_photo_delivery.Prelude.{
  ℕ, ◌+◌, min, String, Bool, true, false, not, ◌&&◌, ◌||◌, Option, none, some, List, [], ◌∷◌, ◌++◌,
  ◌==◌, ltb, if◌then◌else◌, put, remove, or_default, truthy, round_percent, show,
}
use cloud_photo_delivery.Photos.Schema.{FileDescriptor, UploadKind, simple, multipart}
use cloud_photo_delivery.Photos.Errors.{
  UploadError, is_abort_error, is_retryable_error, photo_error_message, api_code, backoff_ms,
}
use cloud_photo_delivery.Photos.Parts.{
  total_parts, missing_parts, chunk, part_url_batch, default_part_size,
}
use cloud_photo_delivery.Photos.Pool.{first_rejection}
use cloud_photo_delivery.Photos.Item.{Result, ok, err, queued, uploading, processing, failed}
use cloud_photo_delivery.Photos.Multipart.{
  start_parts, settle_part, part_of, Parts, put_part, completed_parts, part_progress,
}
use cloud_photo_delivery.Photos.Queue.State.{
  UploadQueue, Await, initialize, re_presign, put_simple, part_urls, put_parts, complete_multipart,
  complete, sleep, returned, changed, write, is_current, notify, persist, new_key, count_key,
  max_attempts,
}

-- The answers of the server that `process` reads.
pub record InitializeResult : Type 0 where
  pub photo_id : String
  pub upload_kind : UploadKind
  pub upload_url : String
  pub part_size : Option ℕ

pub record PartUrls : Type 0 where
  pub part_size : ℕ
  pub parts : List (ℕ × String)

abbrev pub is_multipart : Option UploadKind → Bool
is_multipart none = false
is_multipart (some simple) = false
is_multipart (some multipart) = true

-- `if (partSize) item.partSize = Number(partSize)`
abbrev pub set_part_size : Option ℕ → Option ℕ → Option ℕ
set_part_size none old = old
set_part_size (some n) old = if n == 0 then old else some n

-- The end of `attempt`: `deps.complete(item.photoId, this.newKey())`.
abbrev pub begin_complete : ℕ → UploadQueue → UploadQueue × Await
begin_complete r q = (count_key q, complete (q.heap r).photo_id (new_key q))

-- The loop over the batches, and `runPool` behind it.
unfoldable pub next_urls :
    String → ℕ → List ℕ → List (List ℕ) → List (ℕ × String) → UploadQueue → UploadQueue × Await
next_urls photo_id part_size missing [] urls q =
    (q, put_parts photo_id part_size urls (start_parts show urls missing))
next_urls photo_id part_size missing (batch ∷ rest) urls q =
    (q, part_urls photo_id part_size missing batch rest urls)

-- `putMultipart` up to its first `await`; without a photo it returns, and the upload is completed.
begin_multipart_of : ℕ → FileDescriptor → Option String → UploadQueue → UploadQueue × Await
begin_multipart_of r file none q = begin_complete r q
begin_multipart_of r file (some photo_id) q =
    if not (truthy (some photo_id))
    then begin_complete r q
    else (let part_size = or_default (q.heap r).part_size default_part_size in
        let missing = missing_parts (q.heap r).uploaded_parts (total_parts file.size part_size) in
        next_urls photo_id part_size missing (chunk missing part_url_batch) [] q)

unfoldable pub begin_multipart : ℕ → FileDescriptor → UploadQueue → UploadQueue × Await
unfolding begin_multipart_of next_urls
begin_multipart r file q = begin_multipart_of r file (q.heap r).photo_id q

-- `attempt` up to its first `await`.
unfoldable pub begin_attempt : ℕ → FileDescriptor → UploadQueue → UploadQueue × Await
unfolding begin_multipart
begin_attempt r file q =
    if not (truthy (q.heap r).photo_id)
    then (count_key q, initialize (new_key q))
    else if is_multipart (q.heap r).upload_kind
    then begin_multipart r file q
    else (q, re_presign (or_default (q.heap r).photo_id ""))

-- One round of `while (true)`, with the number of its controller.
unfoldable pub begin_round : ℕ → FileDescriptor → UploadQueue → UploadQueue × Await
unfolding begin_attempt is_current
begin_round r file q =
    if q.stopped || not (is_current q r)
    then (q, returned)
    else begin_attempt r file (record q {
      controllers = put (q.heap r).key q.next_controller q.controllers;
      next_controller = q.next_controller + 1;
    })

-- `process` up to its first `await`.
unfoldable pub begin_process : ℕ → FileDescriptor → UploadQueue → UploadQueue × Await
unfolding begin_round
begin_process r file q =
    begin_round r file (write r (record (q.heap r) { error = none; progress = 0 }) q)

-- `this.controllers.delete(item.key)`
abbrev pub drop_controller : ℕ → UploadQueue → UploadQueue
drop_controller r q = record q { controllers = remove (q.heap r).key q.controllers }

abbrev pub call_changed : ℕ → UploadQueue → UploadQueue
call_changed r q = record q { calls = q.calls ++ changed r ∷ [] }

-- The lines behind a fulfilled `attempt`.
unfoldable pub succeed : ℕ → UploadQueue → UploadQueue × Await
unfolding persist notify
succeed r q =
    let done =
      write r (record (q.heap r) { status = processing; progress = 100; error = none })
        (drop_controller r q) in
    (call_changed r (notify (persist r done)), returned)

-- The `catch` of an abort: the item is queued again, unless the lease is gone.
unfoldable pub give_back : ℕ → UploadQueue → UploadQueue × Await
unfolding is_current notify
give_back r q =
    if q.stopped || not (is_current q r)
    then (q, returned)
    else (notify (write r (record (q.heap r) { status = queued }) q), returned)

abbrev pub retrying_message : String
retrying_message = "Connection problem. Retrying..."

-- The `catch` of any other error.
unfoldable pub retry_or_fail : ℕ → UploadError → UploadQueue → UploadQueue × Await
unfolding persist notify
retry_or_fail r e q =
    let item = q.heap r in
    let attempts = item.attempts + 1 in
    if is_retryable_error e && ltb attempts (max_attempts q)
    then (
      notify (
          write r
            (record item { attempts = attempts; status = queued; error = some retrying_message })
            q),
      sleep (backoff_ms attempts),
    )
    else (
      call_changed r (
          notify (
            persist r (
              write r
                (record item {
                  attempts = attempts;
                  status = failed;
                  error = some (photo_error_message e);
                  error_code = api_code e;
                })
                q))),
      returned,
    )

unfoldable pub fail : ℕ → UploadError → UploadQueue → UploadQueue × Await
unfolding give_back retry_or_fail
fail r e q =
    let q' = drop_controller r q in
    if is_abort_error e then give_back r q' else retry_or_fail r e q'

-- The lines behind `await this.sleep(…)`.
unfoldable pub wake : ℕ → FileDescriptor → UploadQueue → UploadQueue × Await
unfolding begin_round notify is_current
wake r file q =
    if q.stopped || not (is_current q r)
    then (q, returned)
    else begin_round r file (notify (write r (record (q.heap r) { status = uploading }) q))

-- The lines behind each `await` of an attempt, with the settled promise.
unfoldable pub after_initialize :
    ℕ → FileDescriptor → Result InitializeResult → UploadQueue → UploadQueue × Await
unfolding fail begin_multipart persist
after_initialize r file (err e) q = fail r e q
after_initialize r file (ok init) q =
    let item = q.heap r in
    let started = persist r (
      write r
        (record item {
          photo_id = some init.photo_id;
          upload_kind = some init.upload_kind;
          part_size = set_part_size init.part_size item.part_size;
        })
        q) in
    if is_multipart (some init.upload_kind)
    then begin_multipart r file started
    else (started, put_simple init.upload_url)

unfoldable pub after_re_presign : ℕ → Result String → UploadQueue → UploadQueue × Await
unfolding fail
after_re_presign r (err e) q = fail r e q
after_re_presign r (ok url) q = (q, put_simple url)

unfoldable pub after_put_simple : ℕ → Result (Option String) → UploadQueue → UploadQueue × Await
unfolding fail
after_put_simple r (err e) q = fail r e q
after_put_simple r (ok etag) q = begin_complete r q

abbrev pub add_urls : List (ℕ × String) → List (ℕ × String) → List (ℕ × String)
add_urls [] urls = urls
add_urls ((n, url) ∷ parts) urls = add_urls parts (put_part n url urls)

unfoldable pub after_part_urls :
    ℕ
    → String
    → ℕ
    → List ℕ
    → List (List ℕ)
    → List (ℕ × String)
    → Result PartUrls
    → UploadQueue
    → UploadQueue × Await
unfolding fail next_urls
after_part_urls r photo_id part_size missing rest urls (err e) q = fail r e q
after_part_urls r photo_id part_size missing rest urls (ok result) q =
    let item = q.heap r in
    next_urls photo_id part_size missing rest (add_urls result.parts urls)
      (write r (record item { part_size = set_part_size (some result.part_size) item.part_size }) q)

-- Whether worker `i` records its answer, and so announces it.
abbrev part_recorded : Option ℕ → Result (Option String) → Bool
part_recorded (some n) (ok etag) = truthy etag
part_recorded _ _ = false

abbrev notify_if : Bool → UploadQueue → UploadQueue
notify_if true q = notify q
notify_if false q = q

-- Worker `i` of the pool has the answer to its `put`; a recorded part is announced.
unfoldable pub after_part :
    ℕ
    → String
    → ℕ
    → List (ℕ × String)
    → Parts
    → ℕ
    → Result (Option String)
    → UploadQueue
    → UploadQueue × Await
unfolding settle_part notify
after_part r photo_id part_size urls pool i reply q =
    let (pool', item') = settle_part show urls i reply (pool, q.heap r) in
    (
      notify_if (part_recorded (part_of i pool.workers) reply) (write r item' q),
      put_parts photo_id part_size urls pool',
    )

-- `Promise.allSettled` resolves, when no worker is at work.
unfoldable pub after_pool : ℕ → String → Parts → UploadQueue → UploadQueue × Await
unfolding fail
after_pool r photo_id pool q = elim (first_rejection pool.workers) [
  | some e ↦ fail r e q
  | none ↦ (q, complete_multipart photo_id (completed_parts (q.heap r)))
]

unfoldable pub after_complete_multipart : ℕ → Result (Unit {0}) → UploadQueue → UploadQueue × Await
unfolding fail
after_complete_multipart r (err e) q = fail r e q
after_complete_multipart r (ok done) q = begin_complete r q

unfoldable pub after_complete : ℕ → Result (Unit {0}) → UploadQueue → UploadQueue × Await
unfolding fail succeed
after_complete r (err e) q = fail r e q
after_complete r (ok done) q = succeed r q

-- `onProgress` of `putSimple` and of a part that began with `base` bytes completed.
unfoldable pub progress_simple : ℕ → ℕ → ℕ → UploadQueue → UploadQueue
unfolding notify
progress_simple r loaded total q =
    let shown = if ltb 0 total then min 100 (round_percent loaded total) else 0 in
    notify (write r (record (q.heap r) { progress = shown }) q)

unfoldable pub progress_part : ℕ → ℕ → ℕ → ℕ → UploadQueue → UploadQueue
unfolding notify part_progress
progress_part r size base loaded q =
    notify (write r (record (q.heap r) { progress = part_progress size base loaded }) q)
