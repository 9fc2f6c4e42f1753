-- ===== src/Photos/Queue/State.antt =====
-- The state of `UploadQueue` in apps/web/src/features/photos/uploader.ts, with the store of the
-- item objects that its map and its running calls share, and the helpers that all methods use.
-- An object or a controller is named by the number under which it was made. A call of an `async`
-- method that is not finished is a task: the `await` at which it stands, with the variables that
-- it still needs. A rejected `process` does not exist: the method catches what `attempt` throws.
use cloud_photo_delivery.Prelude.{
  ℕ, ◌+◌, String, Bool, true, false, Option, none, some, List, ◌++◌, map, ◌==◌, if◌then◌else◌,
  Keyed, get, values, or_default,
}
use mathlib.Core.Option
use cloud_photo_delivery.Photos.Schema.{FileDescriptor}
use cloud_photo_delivery.Photos.Errors.{UploadError}
use cloud_photo_delivery.Photos.Registry
use cloud_photo_delivery.Photos.Registry.{Storage, Entry}
use cloud_photo_delivery.Photos.Item.{UploadItem, UploadItemStatus, queued, uploading}
use cloud_photo_delivery.Photos.Multipart.{Parts}

-- Where a call of `process` stands. Each request to the server carries what it sends.
pub data Await : Type 0 where
  -- `deps.initialize(file, key)`
  initialize : (key : String) → Await
  -- `deps.rePresign(photoId)`
  re_presign : (photo_id : String) → Await
  -- `deps.put({ url, body: file, … })`
  put_simple : (url : String) → Await
  -- `deps.partUrls(photoId, batch)`, with the batches and the URLs still needed
  part_urls :
      (photo_id : String) (part_size : ℕ) (missing batch : List ℕ) (rest : List (List ℕ))
      (urls : List (ℕ × String))
      → Await
  -- `Promise.allSettled(workers)` in `runPool`
  put_parts : (photo_id : String) (part_size : ℕ) (urls : List (ℕ × String)) (pool : Parts) → Await
  -- `deps.completeMultipart(photoId, parts)`
  complete_multipart : (photo_id : String) (parts : List (ℕ × String)) → Await
  -- `deps.complete(photoId, key)`
  complete : (photo_id : Option String) (key : String) → Await
  -- `this.sleep(ms)`
  sleep : (ms : ℕ) → Await
  -- `process` has returned, and its `finally` has not run
  returned : Await

pub data Task : Type 0 where
  -- `process(item)` with its file and its `await`
  process : (item : ℕ) (file : FileDescriptor) (await : Await) → Task
  -- `cancel` at `abortMultipart` and at `deletePhoto`
  cancel_abort : (item : ℕ) → Task
  cancel_delete : (item : ℕ) → Task
  -- `discard` at `deletePhoto`
  discard_delete : (key : String) (item : ℕ) → Task
  -- `reconcile` at `uploadStatus`
  reconcile_status : (entry : Entry) (rest : List Entry) → Task

-- The calls that leave the queue: a listener, `deps.onChanged`, and a rejected promise.
pub data Call : Type 0 where
  listener : ℕ → Call
  changed : ℕ → Call
  throws : UploadError → Call

pub record Deps : Type 0 where
  pub event_id : String
  pub concurrency : Option ℕ
  pub max_attempts : Option ℕ
  -- the results of `randomUUID`, by the number of the call
  pub random_uuid : ℕ → String

pub record UploadQueue : Type 0 where
  pub deps : Deps
  pub registry : Option (Option Storage)
  pub items : Keyed ℕ
  pub heap : ℕ → UploadItem
  pub next_object : ℕ
  pub controllers : Keyed ℕ
  pub aborted : ℕ → Bool
  pub next_controller : ℕ
  pub next_uuid : ℕ
  pub clock : ℕ
  pub active : ℕ
  pub stopped : Bool
  pub cached : List ℕ
  pub listeners : List ℕ
  pub tasks : List Task
  pub calls : List Call

abbrev pub default_concurrency : ℕ
default_concurrency = 3

abbrev pub default_max_attempts : ℕ
default_max_attempts = 3

abbrev pub limit : UploadQueue → ℕ
limit q = or_default q.deps.concurrency default_concurrency

abbrev pub max_attempts : UploadQueue → ℕ
max_attempts q = or_default q.deps.max_attempts default_max_attempts

-- A write to the fields of an object.
abbrev pub write : ℕ → UploadItem → UploadQueue → UploadQueue
write r item q = record q { heap = λ k. if k == r then item else q.heap k }

-- `this.items.get(item.key) === item`
abbrev pub is_ref : ℕ → Option ℕ → Bool
is_ref r none = false
is_ref r (some k) = k == r

unfoldable pub is_current : UploadQueue → ℕ → Bool
is_current q r = is_ref r (get (q.heap r).key q.items)

unfoldable pub notify : UploadQueue → UploadQueue
notify q = record q { cached = values q.items; calls = q.calls ++ map listener q.listeners }

-- `this.deps.registry?.remove(key)`
abbrev pub registry_remove : String → UploadQueue → UploadQueue
registry_remove key q = record q { registry = Option.map (λ s. Registry.remove s key) q.registry }

-- The entry that `persist` writes for an item.
abbrev pub entry_of : UploadQueue → UploadItem → Entry
entry_of q item = record {
  key = item.key;
  event_id = q.deps.event_id;
  photo_id = item.photo_id;
  upload_kind = item.upload_kind;
  filename = item.filename;
  updated_at = q.clock;
}

unfoldable pub persist : ℕ → UploadQueue → UploadQueue
persist r q = record q {
  registry = Option.map (λ s. Registry.upsert s (entry_of q (q.heap r))) q.registry;
}

-- `newKey()`: the key is `q.deps.random_uuid q.next_uuid`.
abbrev pub new_key : UploadQueue → String
new_key q = q.deps.random_uuid q.next_uuid

abbrev pub count_key : UploadQueue → UploadQueue
count_key q = record q { next_uuid = q.next_uuid + 1 }

abbrev pub is_queued : UploadItemStatus → Bool
is_queued queued = true
is_queued _ = false

abbrev pub is_uploading : UploadItemStatus → Bool
is_uploading uploading = true
is_uploading _ = false
