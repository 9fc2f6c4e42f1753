-- ===== src/Photos/Queue/Steps.antt =====
-- The steps of a queue in use: a call of a method, the answer to a request of some task, a progress
-- event, or time passing. The environment chooses the order and the answers.
use cloud_photo_delivery.Prelude.{ℕ, ◌+◌, String, Option, some, List, [], ◌≡◌, false}
use cloud_photo_delivery.Photos.Schema.{FileDescriptor}
use cloud_photo_delivery.Photos.Registry.{Storage, Entry}
use cloud_photo_delivery.Photos.Pool.{in_flight}
use cloud_photo_delivery.Photos.Item.{UploadItem, Result, new_item}
use cloud_photo_delivery.Photos.Multipart.{Parts}
use cloud_photo_delivery.Photos.Queue.State.{
  UploadQueue, Await, Deps, initialize, re_presign, put_simple, part_urls, put_parts,
  complete_multipart, complete, sleep, returned, process, cancel_abort, cancel_delete,
  discard_delete, reconcile_status,
}
use cloud_photo_delivery.Photos.Queue.Process.{
  InitializeResult, PartUrls, wake, after_initialize, after_re_presign, after_put_simple,
  after_part_urls, after_part, after_pool, after_complete_multipart, after_complete,
  progress_simple, progress_part,
}
use cloud_photo_delivery.Photos.Queue.Actions.{
  PhotoStatus, subscribe, unsubscribe, add_files, retry, cancel, discard, clear_finished, abort_all,
  apply_photo_statuses, reconcile,
}
use cloud_photo_delivery.Photos.Queue.Tasks.{
  UploadStatus, task_at, finish, go_on, after_cancel_abort, after_cancel_delete,
  after_discard_delete, after_status,
}

-- A call of a public method.
pub data Action : Type 0 where
  on_subscribe on_unsubscribe : ℕ → Action
  on_add_files : List FileDescriptor → Action
  on_retry on_cancel on_discard : String → Action
  on_clear_finished on_abort_all on_reconcile : Action
  on_photo_statuses : List PhotoStatus → Action

unfoldable pub act : Action → UploadQueue → UploadQueue
act (on_subscribe l) q = subscribe l q
act (on_unsubscribe l) q = unsubscribe l q
act (on_add_files files) q = (add_files files q).0
act (on_retry key) q = retry key q
act (on_cancel key) q = cancel key q
act (on_discard key) q = discard key q
act on_clear_finished q = clear_finished q
act on_abort_all q = abort_all q
act on_reconcile q = reconcile q
act (on_photo_statuses photos) q = apply_photo_statuses photos q

-- `Answers r file await next`: a call of `process` that stands at `await` may go on as `next`.
pub data Answers (r : ℕ) (file : FileDescriptor)
    : Await → (UploadQueue → UploadQueue × Await) → Type 0 where
  initialized :
      (key : String) (reply : Result InitializeResult)
      → Answers r file (initialize key) (after_initialize r file reply)
  re_presigned :
      (photo_id : String) (reply : Result String)
      → Answers r file (re_presign photo_id) (after_re_presign r reply)
  simple_put :
      (url : String) (reply : Result (Option String))
      → Answers r file (put_simple url) (after_put_simple r reply)
  urls_given :
      (photo_id : String) (part_size : ℕ) (missing batch : List ℕ) (rest : List (List ℕ))
      (urls : List (ℕ × String)) (reply : Result PartUrls)
      → Answers r file
          (part_urls photo_id part_size missing batch rest urls)
          (after_part_urls r photo_id part_size missing rest urls reply)
  part_put :
      (photo_id : String) (part_size : ℕ) (urls : List (ℕ × String)) (pool : Parts) (worker : ℕ)
      (reply : Result (Option String))
      → Answers r file
          (put_parts photo_id part_size urls pool)
          (after_part r photo_id part_size urls pool worker reply)
  pool_settled :
      (photo_id : String) (part_size : ℕ) (urls : List (ℕ × String)) (pool : Parts)
      → in_flight pool.workers ≡ 0
      → Answers r file (put_parts photo_id part_size urls pool) (after_pool r photo_id pool)
  multipart_completed :
      (photo_id : String) (parts : List (ℕ × String)) (reply : Result (Unit {0}))
      → Answers r file (complete_multipart photo_id parts) (after_complete_multipart r reply)
  completed :
      (photo_id : Option String) (key : String) (reply : Result (Unit {0}))
      → Answers r file (complete photo_id key) (after_complete r reply)
  slept : (ms : ℕ) → Answers r file (sleep ms) (wake r file)

pub data Step (q : UploadQueue) : UploadQueue → Type 0 where
  calls : (a : Action) → Step q (act a q)
  answers :
      (i r : ℕ) (file : FileDescriptor) (await : Await) (next : UploadQueue → UploadQueue × Await)
      → task_at i q.tasks ≡ some (process r file await)
      → Answers r file await next
      → Step q (go_on i r file (next q))
  finishes :
      (i r : ℕ) (file : FileDescriptor)
      → task_at i q.tasks ≡ some (process r file returned)
      → Step q (finish i q)
  multipart_aborted :
      (i r : ℕ) → task_at i q.tasks ≡ some (cancel_abort r) → Step q (after_cancel_abort i r q)
  cancelled :
      (i r : ℕ) (reply : Result (Unit {0}))
      → task_at i q.tasks ≡ some (cancel_delete r)
      → Step q (after_cancel_delete i reply q)
  discarded :
      (i r : ℕ) (key : String) (reply : Result (Unit {0}))
      → task_at i q.tasks ≡ some (discard_delete key r)
      → Step q (after_discard_delete i key reply q)
  status_given :
      (i : ℕ) (entry : Entry) (rest : List Entry) (reply : Result UploadStatus)
      → task_at i q.tasks ≡ some (reconcile_status entry rest)
      → Step q (after_status i entry rest reply q)
  simple_progress : (r loaded total : ℕ) → Step q (progress_simple r loaded total q)
  part_progresses : (r size base loaded : ℕ) → Step q (progress_part r size base loaded q)
  time_passes : (ms : ℕ) → Step q (record q { clock = q.clock + ms })

pub data Reach (s : UploadQueue) : UploadQueue → Type 0 where
  here : Reach s s
  next : {t u : UploadQueue} → Reach s t → Step t u → Reach s u

-- What the store holds under a number that no object has yet.
abbrev pub blank_item : UploadItem
blank_item = new_item "" (record { name = ""; type = ""; size = 0 })

-- The queue that the constructor makes.
abbrev pub new_queue : Deps → Option (Option Storage) → ℕ → UploadQueue
new_queue deps registry clock = record {
  deps = deps;
  registry = registry;
  items = [];
  heap = λ r. blank_item;
  next_object = 0;
  controllers = [];
  aborted = λ c. false;
  next_controller = 0;
  next_uuid = 0;
  clock = clock;
  active = 0;
  stopped = false;
  cached = [];
  listeners = [];
  tasks = [];
  calls = [];
}
