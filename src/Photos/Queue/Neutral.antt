-- ===== src/Photos/Queue/Neutral.antt =====
-- The loops of the public methods that start no request: they leave the tasks, the count of running
-- calls and the configuration alone.
use cloud_photo_delivery.Prelude.{
  ℕ, String, Bool, some, List, [], ◌∷◌, ◌≡◌, arith, ◌∙◌, Option-cases, inl, inr, Keyed, remove,
  if◌then◌else◌, ◌||◌,
}
use cloud_photo_delivery.Photos.Schema.{FileDescriptor, validate_file}
use cloud_photo_delivery.Photos.Item.{UploadItem, queued}
use cloud_photo_delivery.Photos.Queue.State.{
  UploadQueue, notify, registry_remove, write, is_uploading,
}
use cloud_photo_delivery.Photos.Queue.Actions.{
  PhotoStatus, drop_ready, add_loop, add_file, add_item, abort_controllers, abort, requeue,
  apply_loop, resolve_item, is_ready, cancel_item, discard_item,
}
use cloud_photo_delivery.Photos.Queue.Frame.{IsFramed}

pub record IsNeutral (q q' : UploadQueue) : Type 0 where
  pub deps : q'.deps ≡ q.deps
  pub active : q'.active ≡ q.active
  pub tasks : q'.tasks ≡ q.tasks

pub IsNeutral-trans : (a b c : UploadQueue) → IsNeutral a b → IsNeutral b c → IsNeutral a c
IsNeutral-trans a b c h k = record {
  deps = k.deps ∙ h.deps;
  active = k.active ∙ h.active;
  tasks = k.tasks ∙ h.tasks;
}

pub IsNeutral-of_IsFramed : (q q' : UploadQueue) → IsFramed q q' → IsNeutral q q'
IsNeutral-of_IsFramed q q' f = record { deps = f.deps; active = f.active; tasks = f.tasks }

pub drop_ready-IsNeutral : (m : Keyed ℕ) (q : UploadQueue) → IsNeutral q (drop_ready m q)
unfolding drop_ready
drop_ready-IsNeutral [] q = ground arith
drop_ready-IsNeutral ((key, r) ∷ m) q =
    let q₁ : UploadQueue =
      if is_ready (q.heap r).status
      then registry_remove key (record q { items = remove key q.items })
      else q in
    IsNeutral-trans q q₁ (drop_ready m q₁) (ground arith) (drop_ready-IsNeutral m q₁)

pub add_loop-IsNeutral :
    (files : List FileDescriptor) (q : UploadQueue) → IsNeutral q (add_loop files q).0
unfolding add_loop add_file add_item
add_loop-IsNeutral [] q = ground arith
add_loop-IsNeutral (file ∷ files) q = elim (Option-cases (validate_file file)) [
  | inl e ↦
      rw (e, add_loop)
        (IsNeutral-trans q (add_file file q) (add_loop files (add_file file q)).0 (ground arith)
          (add_loop-IsNeutral files (add_file file q)))
  | inr (reason, e) ↦ rw (e, add_loop) (add_loop-IsNeutral files q)
]

pub abort_controllers-IsNeutral :
    (cs : List ℕ) (q : UploadQueue) → IsNeutral q (abort_controllers cs q)
unfolding abort_controllers
abort_controllers-IsNeutral [] q = ground arith
abort_controllers-IsNeutral (c ∷ cs) q =
    IsNeutral-trans q (abort (some c) q) (abort_controllers cs (abort (some c) q)) (ground arith)
      (abort_controllers-IsNeutral cs (abort (some c) q))

pub requeue-IsNeutral : (rs : List ℕ) (q : UploadQueue) → IsNeutral q (requeue rs q)
unfolding requeue
requeue-IsNeutral [] q = ground arith
requeue-IsNeutral (r ∷ rs) q =
    let q₁ : UploadQueue =
      if is_uploading (q.heap r).status
      then write r (record (q.heap r) { status = queued }) q
      else q in
    IsNeutral-trans q q₁ (requeue rs q₁) (ground arith) (requeue-IsNeutral rs q₁)

pub apply_loop-IsNeutral :
    (photos : List PhotoStatus) (rs : List ℕ) (changed : Bool) (q : UploadQueue)
    → IsNeutral q (apply_loop photos rs changed q).0
unfolding apply_loop
apply_loop-IsNeutral photos [] changed q = ground arith
apply_loop-IsNeutral photos (r ∷ rs) changed q =
    let found : UploadItem × Bool = resolve_item photos (q.heap r) in
    let q₁ : UploadQueue = write r found.0 q in
    IsNeutral-trans q q₁ (apply_loop photos rs (changed || found.1) q₁).0 (ground arith)
      (apply_loop-IsNeutral photos rs (changed || found.1) q₁)

pub cancel_item-IsNeutral : (key : String) (q : UploadQueue) → IsNeutral q (cancel_item key q)
unfolding cancel_item notify
cancel_item-IsNeutral key q = ground arith

pub discard_item-IsNeutral : (key : String) (q : UploadQueue) → IsNeutral q (discard_item key q)
unfolding discard_item notify
discard_item-IsNeutral key q = ground arith
