-- ===== src/Photos/Queue/Tasks.antt =====
-- What follows the `await`s of `cancel`, `discard` and `reconcile`, and the `finally` of `pump`.
use cloud_photo_delivery.Prelude.{
  ℕ, zero, suc, ◌-◌, String, true, ◌||◌, Option, none, some, List, [], ◌∷◌, ◌++◌, if◌then◌else◌,
  truthy, or_default, str_eq,
}
use cloud_photo_delivery.Photos.Schema.{FileDescriptor, UploadKind}
use cloud_photo_delivery.Photos.Errors.{UploadError, is_not_found}
use cloud_photo_delivery.Photos.Registry.{Entry}
use cloud_photo_delivery.Photos.Item.{UploadItem, Result, ok, err, failed, interrupted}
use cloud_photo_delivery.Photos.Queue.State.{
  UploadQueue, Await, process, cancel_delete, throws, registry_remove, notify,
}
use cloud_photo_delivery.Photos.Queue.Actions.{pump, add_item, discard_item, reconcile_loop}

-- The tasks without the one at place `i`, and with it replaced.
abbrev pub without {ℓ} : {A : Type ℓ} → ℕ → List A → List A
without i [] = []
without zero (t ∷ ts) = ts
without (suc i) (t ∷ ts) = t ∷ without i ts

abbrev pub replace {ℓ} : {A : Type ℓ} → ℕ → A → List A → List A
replace i u [] = []
replace zero u (t ∷ ts) = u ∷ ts
replace (suc i) u (t ∷ ts) = t ∷ replace i u ts

abbrev pub task_at {ℓ} : {A : Type ℓ} → ℕ → List A → Option A
task_at i [] = none
task_at zero (t ∷ ts) = some t
task_at (suc i) (t ∷ ts) = task_at i ts

abbrev pub end_task : ℕ → UploadQueue → UploadQueue
end_task i q = record q { tasks = without i q.tasks }

-- `.finally(() => { … })` of task `i`.
unfoldable pub finish : ℕ → UploadQueue → UploadQueue
finish i q = pump (notify (record (end_task i q) { active = q.active - 1 }))

-- An error that the method throws to its caller.
abbrev pub rethrow : UploadError → UploadQueue → UploadQueue
rethrow e q = record q { calls = q.calls ++ throws e ∷ [] }

-- `if (!isNotFound(error)) throw error`
abbrev pub refuses : Result (Unit {0}) → Option UploadError
refuses (ok done) = none
refuses (err e) = if is_not_found e then none else some e

-- `cancel` behind `abortMultipart`, whose error is ignored.
unfoldable pub after_cancel_abort : ℕ → ℕ → UploadQueue → UploadQueue
after_cancel_abort i r q =
    if truthy (q.heap r).photo_id
    then record q { tasks = replace i (cancel_delete r) q.tasks }
    else pump (end_task i q)

-- `cancel` behind `deletePhoto`: its `finally` runs before the error leaves.
unfoldable pub after_cancel_delete : ℕ → Result (Unit {0}) → UploadQueue → UploadQueue
after_cancel_delete i reply q = elim (refuses reply) [
  | none ↦ pump (end_task i q)
  | some e ↦ rethrow e (pump (end_task i q))
]

unfoldable pub after_discard_delete : ℕ → String → Result (Unit {0}) → UploadQueue → UploadQueue
after_discard_delete i key reply q = elim (refuses reply) [
  | none ↦ discard_item key (end_task i q)
  | some e ↦ rethrow e (end_task i q)
]

-- The answer to `uploadStatus`; an absent text or number is `none`.
pub record UploadStatus : Type 0 where
  pub status : String
  pub filename : Option String
  pub file_size : Option ℕ
  pub mime_type : Option String
  pub upload_kind : Option UploadKind
  pub error_message : Option String

-- `a || b` on texts.
abbrev pub or_text : Option String → String → String
or_text none b = b
or_text (some a) b = if str_eq a "" then b else a

abbrev or_kind : Option UploadKind → Option UploadKind → Option UploadKind
or_kind none old = old
or_kind (some k) old = some k

-- The item that `reconcile` restores.
unfoldable pub restored : Entry → UploadStatus → UploadItem
restored entry s =
    let failing = str_eq s.status "FAILED" in
    record {
      key = entry.key;
      filename = or_text s.filename entry.filename;
      size = or_default s.file_size 0;
      mime_type = or_text s.mime_type "image/jpeg";
      status = if failing then failed else interrupted;
      progress = 0;
      attempts = 0;
      error = some (
          if failing
          then or_text s.error_message "Processing failed."
          else "Upload was interrupted. Select the file again to retry.");
      error_code = none;
      photo_id = entry.photo_id;
      upload_kind = or_kind s.upload_kind entry.upload_kind;
      from_registry = true;
      file = none;
      part_size = none;
      uploaded_parts = [];
      part_etags = [];
    }

-- The body of the loop behind `uploadStatus`.
unfoldable pub restore : Entry → Result UploadStatus → UploadQueue → UploadQueue
restore entry (err e) q = if is_not_found e then registry_remove entry.key q else q
restore entry (ok s) q =
    if str_eq s.status "READY" || str_eq s.status "PROCESSING"
    then registry_remove entry.key q
    else add_item entry.key (restored entry s) q

unfoldable pub after_status :
    ℕ → Entry → List Entry → Result UploadStatus → UploadQueue → UploadQueue
after_status i entry rest reply q = reconcile_loop rest (restore entry reply (end_task i q))

-- The call of `process` in task `i` goes on to its next `await`.
abbrev pub go_on : ℕ → ℕ → FileDescriptor → UploadQueue × Await → UploadQueue
go_on i r file (q, await) = record q { tasks = replace i (process r file await) q.tasks }
