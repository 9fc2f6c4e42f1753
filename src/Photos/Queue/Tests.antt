-- ===== src/Photos/Queue/Tests.antt =====
-- Runs of the upload queue on small data.
use cloud_photo_delivery.Prelude.{
  ◌+◌, remove, ◌<◌, ◌≤◌, ◌≡◌, ◌∷◌, ◌⊎◌, [], refl, true, false, none, some, arith, get, put, values,
  All, List, any, ◌==◌,
}
use mathlib.Core.Option
use cloud_photo_delivery.Photos.Schema.{
  FileDescriptor, simple, multipart, upload_kind_for, validate_file,
}
use cloud_photo_delivery.Photos.Errors.{
  UploadError, abort_error, transport_error, is_retryable_error, is_abort_error, backoff_ms,
}
use cloud_photo_delivery.Photos.Registry
use cloud_photo_delivery.Photos.Registry.{Storage}
use cloud_photo_delivery.Photos.Item.{ok, new_item, processing}
use cloud_photo_delivery.Photos.Queue.State.{
  UploadQueue, Deps, initialize, sleep, returned, process, limit, max_attempts, entry_of,
  is_current, notify, persist,
}
use cloud_photo_delivery.Photos.Queue.Process.{
  InitializeResult, fail, retry_or_fail, wake, after_initialize, begin_process, begin_round,
  begin_attempt,
}
use cloud_photo_delivery.Photos.Queue.Actions.{
  add_files, add_loop, add_file, add_item, apply_photo_statuses, PhotoStatus, pump, pump_loop,
  launch, launch_if_queued, cancel, drop_ready,
}
use cloud_photo_delivery.Photos.Queue.Tasks.{go_on, task_at}
use cloud_photo_delivery.Photos.Queue.Steps.{
  Reach, here, next, calls, answers, initialized, on_add_files, act, new_queue,
}
use cloud_photo_delivery.Photos.Queue.Active.{running}
use cloud_photo_delivery.Photos.Queue.Pumping.{IsFull, waits, pump_drains}
use cloud_photo_delivery.Photos.Queue.Concurrency.{concurrency_bounded}
use cloud_photo_delivery.Photos.Queue.Lease.{none_runs, cancel_ends_lease}
use cloud_photo_delivery.Photos.Queue.Resolving.{Becomes, apply_photo_statuses_lem}
use cloud_photo_delivery.Photos.Queue.Answered.{follows}
use cloud_photo_delivery.Photos.Queue.Overlap.{
  calls_for, cancelled_initialize_goes_on, retry_wait_starts_second_call,
}

abbrev camera_file : FileDescriptor
camera_file = record { name = "a.jpg"; type = "image/jpeg"; size = 1000 }

abbrev one_deps : Deps
one_deps = record {
  event_id = "wedding";
  concurrency = none;
  max_attempts = none;
  random_uuid = λ n. "uuid";
}

-- The queue after one file is added: its upload awaits `initialize`.
abbrev started : UploadQueue
started = act (on_add_files (camera_file ∷ [])) (new_queue one_deps (some none) 0)

started_lem :
    (started.items ≡ ("uuid", 0) ∷ [])
    × ((started.heap 0).file ≡ some camera_file)
    × (started.stopped ≡ false)
    × (started.active < limit started)
    × (task_at 0 started.tasks ≡ some (process 0 camera_file (initialize "uuid")))
    × ((started.heap 0).attempts + 1 < max_attempts started)
    × (get "uuid" started.items ≡ some 0)
    × ((started.heap 0).key ≡ "uuid")
    × (get "uuid" started.controllers ≡ some 0)
unfolding act add_files add_loop add_file add_item validate_file new_item upload_kind_for put get
    pump pump_loop launch_if_queued launch begin_process begin_round begin_attempt notify persist
    is_current drop_ready
started_lem = (refl, refl, refl, omega arith, refl, omega arith, refl, refl, refl)

-- The server's answer to `initialize`.
abbrev started_upload : InitializeResult
started_upload = record {
  photo_id = "p1";
  upload_kind = simple;
  upload_url = "https://s3/p1";
  part_size = none;
}

abbrev initialized_queue : UploadQueue
initialized_queue =
    go_on 0 0 camera_file (after_initialize 0 camera_file (ok started_upload) started)

initialized-Reach : Reach (new_queue one_deps (some none) 0) initialized_queue
initialized-Reach = next (next here (calls (on_add_files (camera_file ∷ [])))) (
    answers 0 0 camera_file (initialize "uuid") _ started_lem.4
      (initialized "uuid" (ok started_upload)))

concurrency_bounded_example :
    (initialized_queue.active ≡ running initialized_queue.tasks)
    × (running initialized_queue.tasks ≤ limit initialized_queue)
concurrency_bounded_example =
    concurrency_bounded one_deps (some none) 0 initialized_queue initialized-Reach

pump_drains_example :
    (IsFull (pump started)
      ⊎ All (λ r. waits ((pump started).heap r) ≡ false) (values (pump started).items))
    × ((pump started).items ≡ started.items)
pump_drains_example = pump_drains started started_lem.2

abbrev offline : UploadError
offline = transport_error 0 "Network error"

offline_lem : (is_abort_error offline ≡ false) × (is_retryable_error offline ≡ true)
unfolding is_abort_error is_retryable_error
offline_lem = (refl, refl)

-- The same queue behind a first attempt that failed: its call sleeps, and has no controller.
abbrev asleep : UploadQueue
asleep = (fail 0 offline started).0

asleep_lem :
    (get "uuid" asleep.items ≡ some 0)
    × ((asleep.heap 0).key ≡ "uuid")
    × (get "uuid" asleep.controllers ≡ none)
    × ((fail 0 offline started).1 ≡ sleep 1000)
unfolding fail is_abort_error retry_or_fail is_retryable_error backoff_ms notify get remove act
    add_files add_loop add_file add_item validate_file new_item upload_kind_for put pump pump_loop
    launch_if_queued launch begin_process begin_round begin_attempt persist is_current drop_ready
asleep_lem = (refl, refl, refl, refl)

cancel_ends_lease_example :
    (get "uuid" (cancel "uuid" asleep).items ≡ none)
    × ((cancel "uuid" asleep).registry ≡ Option.map (λ s. Registry.remove s "uuid") asleep.registry)
    × (none_runs (get "uuid" asleep.controllers) (cancel "uuid" asleep) ≡ true)
    × (wake 0 camera_file (cancel "uuid" asleep) ≡ (cancel "uuid" asleep, returned))
    × ((fail 0 abort_error (cancel "uuid" asleep)).1 ≡ returned)
    × (((fail 0 abort_error (cancel "uuid" asleep)).0.heap 0).status
        ≡ ((cancel "uuid" asleep).heap 0).status)
cancel_ends_lease_example = cancel_ends_lease "uuid" 0 camera_file asleep asleep_lem.0 asleep_lem.1

-- The server's answer for an upload in parts.
abbrev parts_upload : InitializeResult
parts_upload = record started_upload { upload_kind = multipart; part_size = some 400 }

cancelled_initialize_goes_on_example :
    (let x = after_initialize 0 camera_file (ok parts_upload) (cancel "uuid" started) in
      (is_current x.0 0 ≡ false)
      × (follows parts_upload multipart x.1 ≡ true)
      × (x.0.registry
          ≡ Option.map
              (λ s. Registry.upsert s (entry_of (cancel "uuid" started) (x.0.heap 0)))
              (cancel "uuid" started).registry))
cancelled_initialize_goes_on_example =
    cancelled_initialize_goes_on "uuid" 0 camera_file parts_upload started started_lem.6
      started_lem.7

retry_wait_starts_second_call_example :
    2 ≤ calls_for 0 (pump (go_on 0 0 camera_file (fail 0 offline started))).tasks
retry_wait_starts_second_call_example =
    retry_wait_starts_second_call "uuid" 0 0 [] camera_file (initialize "uuid") offline started
      started_lem.0 started_lem.1 started_lem.2 started_lem.3 started_lem.4 offline_lem.0
      offline_lem.1 started_lem.5

-- A row whose photo is processed, and the photo's status.
abbrev processed : UploadQueue
processed = record started {
  heap = λ r. record (started.heap r) { photo_id = some "p1"; status = processing };
}

abbrev library : List PhotoStatus
library = record { id = "p1"; status = "READY"; error_message = none } ∷ []

apply_photo_statuses_lem_example :
    (let q' = apply_photo_statuses library processed in
      Becomes (any (λ k. k == 0) (values processed.items)) library (processed.heap 0) (q'.heap 0)
      × ((apply_photo_statuses library q').heap 0 ≡ q'.heap 0)
      × (q'.items ≡ processed.items)
      × (q'.active ≡ processed.active)
      × (q'.registry ≡ processed.registry)
      × (q'.tasks ≡ processed.tasks))
apply_photo_statuses_lem_example = apply_photo_statuses_lem library processed 0
