-- ===== src/Photos/Queue/Actions.antt =====
-- The public methods of `UploadQueue` and `pump`. An `async` method runs to its first `await`, which
-- it leaves as a task; `Tasks` has what follows.
use cloud_photo_delivery.Prelude.{
  ℕ, ◌+◌, String, Bool, true, false, not, ◌&&◌, ◌||◌, Option, none, some, List, [], ◌∷◌, ◌++◌, ◌==◌,
  leb, if◌then◌else◌, Keyed, get, put, remove, values, or_default, truthy, is_some, str_eq, find,
  filter, any,
}
use cloud_photo_delivery.Photos.Schema.{FileDescriptor, validate_file}
use cloud_photo_delivery.Photos.Registry
use cloud_photo_delivery.Photos.Registry.{Storage, Entry}
use cloud_photo_delivery.Photos.Item.{
  UploadItem, UploadItemStatus, queued, uploading, processing, ready, failed, new_item,
}
use cloud_photo_delivery.Photos.Queue.State.{
  UploadQueue, Task, process, cancel_abort, cancel_delete, discard_delete, reconcile_status, write,
  notify, registry_remove, new_key, count_key, limit, is_queued, is_uploading,
}
use cloud_photo_delivery.Photos.Queue.Process.{begin_process, is_multipart}

-- `subscribe` and the function that it returns.
unfoldable pub subscribe : ℕ → UploadQueue → UploadQueue
subscribe l q = record q {
  listeners = if any (λ k. k == l) q.listeners then q.listeners else q.listeners ++ l ∷ [];
}

unfoldable pub unsubscribe : ℕ → UploadQueue → UploadQueue
unsubscribe l q = record q { listeners = filter (λ k. not (k == l)) q.listeners }

-- The body of `pump`'s loop behind its guards: `process` runs to its first `await`.
unfoldable pub launch : ℕ → FileDescriptor → UploadQueue → UploadQueue
launch r file q =
    let (q', await) =
      begin_process r file
        (write r (record (q.heap r) { status = uploading }) (record q { active = q.active + 1 })) in
    record q' { tasks = q'.tasks ++ process r file await ∷ [] }

-- The guards: not queued, or without a file, is passed over.
unfoldable pub launch_if_queued : ℕ → UploadQueue → UploadQueue
launch_if_queued r q = elim (q.heap r).file [
  | none ↦ q
  | some file ↦ if is_queued (q.heap r).status then launch r file q else q
]

unfoldable pub pump_loop : List ℕ → UploadQueue → UploadQueue
pump_loop [] q = q
pump_loop (r ∷ rs) q =
    let rest = pump_loop rs (launch_if_queued r q) in if leb (limit q) q.active then q else rest

unfoldable pub pump : UploadQueue → UploadQueue
pump q = if q.stopped then q else notify (pump_loop (values q.items) q)

abbrev pub resume : UploadQueue → UploadQueue
resume q = record q { stopped = false }

abbrev pub is_ready : UploadItemStatus → Bool
is_ready ready = true
is_ready _ = false

-- The loop that drops the finished rows, over the entries that the map had.
unfoldable pub drop_ready : Keyed ℕ → UploadQueue → UploadQueue
drop_ready [] q = q
drop_ready ((key, r) ∷ rest) q = drop_ready rest (
    if is_ready (q.heap r).status
    then registry_remove key (record q { items = remove key q.items })
    else q)

-- A new object in the store and in the map.
unfoldable pub add_item : String → UploadItem → UploadQueue → UploadQueue
add_item key item q = record (write q.next_object item q) {
  items = put key q.next_object q.items;
  next_object = q.next_object + 1;
}

unfoldable pub add_file : FileDescriptor → UploadQueue → UploadQueue
add_file file q = add_item (new_key q) (new_item (new_key q) file) (count_key q)

-- The loop over the files, with the refused ones and their reasons.
unfoldable pub add_loop : List FileDescriptor → UploadQueue → UploadQueue × List (String × String)
add_loop [] q = (q, [])
add_loop (file ∷ files) q = elim (validate_file file) [
  | some reason ↦ let (q', rejected) = add_loop files q in (q', (file.name, reason) ∷ rejected)
  | none ↦ add_loop files (add_file file q)
]

unfoldable pub add_files : List FileDescriptor → UploadQueue → UploadQueue × List (String × String)
add_files files q =
    let (q', rejected) = add_loop files (drop_ready q.items (resume q)) in
    (pump (notify q'), rejected)

-- The item that `retry` queues again.
abbrev pub retried : UploadItem → UploadItem
retried item = record item { status = queued; error = none; error_code = none; attempts = 0 }

unfoldable pub retry_ref : Option ℕ → UploadQueue → UploadQueue
retry_ref none q = q
retry_ref (some r) q =
    if is_some (q.heap r).file then pump (notify (write r (retried (q.heap r)) (resume q))) else q

unfoldable pub retry : String → UploadQueue → UploadQueue
retry key q = retry_ref (get key q.items) q

-- `this.controllers.get(key)?.abort()`
abbrev pub abort : Option ℕ → UploadQueue → UploadQueue
abort none q = q
abort (some c) q = record q { aborted = λ k. if k == c then true else q.aborted k }

abbrev pub add_task : Task → UploadQueue → UploadQueue
add_task t q = record q { tasks = q.tasks ++ t ∷ [] }

-- The lines of `cancel` up to its `try`.
unfoldable pub cancel_item : String → UploadQueue → UploadQueue
cancel_item key q =
    let aborting = abort (get key q.controllers) q in
    notify (
      registry_remove key
        (record aborting { controllers = remove key q.controllers; items = remove key q.items }))

unfoldable pub cancel_ref : String → Option ℕ → UploadQueue → UploadQueue
cancel_ref key none q = q
cancel_ref key (some r) q =
    let photo_id = (q.heap r).photo_id in
    if truthy photo_id && is_multipart (q.heap r).upload_kind
    then add_task (cancel_abort r) (cancel_item key q)
    else if truthy photo_id
    then add_task (cancel_delete r) (cancel_item key q)
    else pump (cancel_item key q)

unfoldable pub cancel : String → UploadQueue → UploadQueue
cancel key q = cancel_ref key (get key q.items) q

-- The lines of `discard` behind the deletion.
unfoldable pub discard_item : String → UploadQueue → UploadQueue
discard_item key q = notify (record (registry_remove key q) { items = remove key q.items })

unfoldable pub discard_ref : String → Option ℕ → UploadQueue → UploadQueue
discard_ref key none q = q
discard_ref key (some r) q =
    if truthy (q.heap r).photo_id then add_task (discard_delete key r) q else discard_item key q

unfoldable pub discard : String → UploadQueue → UploadQueue
discard key q = discard_ref key (get key q.items) q

abbrev pub has_ready : Keyed ℕ → (ℕ → UploadItem) → Bool
has_ready [] heap = false
has_ready ((key, r) ∷ rest) heap = is_ready (heap r).status || has_ready rest heap

unfoldable pub clear_finished : UploadQueue → UploadQueue
clear_finished q =
    if has_ready q.items q.heap then notify (drop_ready q.items q) else drop_ready q.items q

-- `controller.abort()` for each controller of the map.
unfoldable pub abort_controllers : List ℕ → UploadQueue → UploadQueue
abort_controllers [] q = q
abort_controllers (c ∷ cs) q = abort_controllers cs (abort (some c) q)

unfoldable pub requeue : List ℕ → UploadQueue → UploadQueue
requeue [] q = q
requeue (r ∷ rs) q = requeue rs (
    if is_uploading (q.heap r).status then write r (record (q.heap r) { status = queued }) q else q)

unfoldable pub abort_all : UploadQueue → UploadQueue
abort_all q = notify (
    requeue (values q.items)
      (abort_controllers (values q.controllers) (record q { stopped = true })))

-- A photo of the authoritative list.
pub record PhotoStatus : Type 0 where
  pub id : String
  pub status : String
  pub error_message : Option String

-- `photos.find((candidate) => candidate.id === item.photoId)`
abbrev pub photo_of : Option String → List PhotoStatus → Option PhotoStatus
photo_of none photos = none
photo_of (some id) photos = find (λ p. str_eq p.id id) photos

-- The item after its photo's status is read, and whether it changed.
unfoldable pub apply_status : PhotoStatus → UploadItem → UploadItem × Bool
apply_status photo item =
    if str_eq photo.status "READY"
    then (record item { status = ready; error = none }, true)
    else if str_eq photo.status "FAILED"
    then (
      record item {
        status = failed;
        error = some (or_default photo.error_message "Processing failed.");
      },
      true,
    )
    else (item, false)

abbrev pub is_processing : UploadItemStatus → Bool
is_processing processing = true
is_processing _ = false

unfoldable pub resolve_item : List PhotoStatus → UploadItem → UploadItem × Bool
resolve_item photos item =
    if not (truthy item.photo_id) || not (is_processing item.status)
    then (item, false)
    else (elim (photo_of item.photo_id photos) [
      | none ↦ (item, false)
      | some photo ↦ apply_status photo item
    ])

unfoldable pub apply_loop : List PhotoStatus → List ℕ → Bool → UploadQueue → UploadQueue × Bool
apply_loop photos [] changed q = (q, changed)
apply_loop photos (r ∷ rs) changed q =
    let (item, now_changed) = resolve_item photos (q.heap r) in
    apply_loop photos rs (changed || now_changed) (write r item q)

unfoldable pub apply_photo_statuses : List PhotoStatus → UploadQueue → UploadQueue
apply_photo_statuses photos q =
    let (q', changed) = apply_loop photos (values q.items) false q in
    if changed then notify q' else q'

-- `reconcile`: its loop from the top, to the next `uploadStatus` or to the end.
unfoldable pub reconcile_loop : List Entry → UploadQueue → UploadQueue
reconcile_loop [] q = notify q
reconcile_loop (e ∷ es) q =
    let skipped = reconcile_loop es q in
    let dropped = reconcile_loop es (registry_remove e.key q) in
    if is_some (get e.key q.items)
    then skipped
    else if not (truthy e.photo_id)
    then dropped
    else add_task (reconcile_status e es) q

unfoldable pub reconcile : UploadQueue → UploadQueue
reconcile q = elim q.registry [
  | none ↦ q
  | some storage ↦
      let (entries, storage') = Registry.list storage q.deps.event_id q.clock in
      reconcile_loop entries (record q { registry = some storage' })
]
