-- ===== src/Photos/Queue/Bounded.antt =====
-- The counter `active` through the public methods.
use cloud_photo_delivery.Prelude.{
  ℕ, String, true, false, not, Option, none, some, List, [], ◌∷◌, ◌≡◌, refl, arith, Bool-cases,
  Option-cases, inl, inr, values, get, is_some, truthy,
}
use cloud_photo_delivery.Photos.Schema.{FileDescriptor}
use cloud_photo_delivery.Photos.Registry.{Entry}
use cloud_photo_delivery.Photos.Queue.State.{
  UploadQueue, Task, notify, cancel_abort, cancel_delete, discard_delete, reconcile_status,
  registry_remove, write,
}
use cloud_photo_delivery.Photos.Queue.Actions.{
  PhotoStatus, subscribe, unsubscribe, add_files, add_loop, drop_ready, resume, retry, retry_ref,
  retried, cancel, cancel_ref, cancel_item, discard, discard_ref, discard_item, clear_finished,
  abort_all, abort_controllers, apply_photo_statuses, apply_loop, reconcile, reconcile_loop,
  add_task,
}
use cloud_photo_delivery.Photos.Queue.Neutral.{
  drop_ready-IsNeutral, add_loop-IsNeutral, abort_controllers-IsNeutral, requeue-IsNeutral,
  apply_loop-IsNeutral, cancel_item-IsNeutral, discard_item-IsNeutral,
}
use cloud_photo_delivery.Photos.Queue.Steps.{
  Action, act, on_subscribe, on_unsubscribe, on_add_files, on_retry, on_cancel, on_discard,
  on_clear_finished, on_abort_all, on_reconcile, on_photo_statuses,
}
use cloud_photo_delivery.Photos.Queue.Active.{
  IsBounded, running, running-append, IsBounded-neutral, pump-IsBounded,
}

pub notify-IsBounded : (q : UploadQueue) → IsBounded q → IsBounded (notify q)
unfolding notify
notify-IsBounded q b = ground arith

-- A task that is no call of `process`.
abbrev IsOther : Task → Type 0
IsOther t = running (t ∷ []) ≡ 0

add_task-IsBounded :
    (t : Task) (q : UploadQueue) → IsOther t → IsBounded q → IsBounded (add_task t q)
add_task-IsBounded t q h b = ground (arith, running-append q.tasks (t ∷ []))

pub reconcile_loop-IsBounded :
    (es : List Entry) (q : UploadQueue) → IsBounded q → IsBounded (reconcile_loop es q)
unfolding reconcile_loop
reconcile_loop-IsBounded [] q b = notify-IsBounded q b
reconcile_loop-IsBounded (e ∷ es) q b = elim (Bool-cases (is_some (get e.key q.items))) [
  | inl known ↦ rw known (reconcile_loop-IsBounded es q b)
  | inr absent ↦ elim (Bool-cases (not (truthy e.photo_id))) [
    | inl unstarted ↦
        rw (absent, unstarted)
          (reconcile_loop-IsBounded es (registry_remove e.key q) (ground arith))
    | inr started ↦ rw (absent, started) (add_task-IsBounded (reconcile_status e es) q refl b)
  ]
]

retry_ref-IsBounded : (o : Option ℕ) (q : UploadQueue) → IsBounded q → IsBounded (retry_ref o q)
unfolding retry_ref
retry_ref-IsBounded none q b = b
retry_ref-IsBounded (some r) q b = ground (
  arith,
  pump-IsBounded (notify (write r (retried (q.heap r)) (resume q))),
  notify-IsBounded (write r (retried (q.heap r)) (resume q)),
)

cancel_ref-IsBounded :
    (key : String) (o : Option ℕ) (q : UploadQueue) → IsBounded q → IsBounded (cancel_ref key o q)
unfolding cancel_ref
cancel_ref-IsBounded key none q b = b
cancel_ref-IsBounded key (some r) q b =
    let b' = IsBounded-neutral q (cancel_item key q) (cancel_item-IsNeutral key q) b in
    ground (
      arith,
      add_task-IsBounded (cancel_abort r) (cancel_item key q) refl b',
      add_task-IsBounded (cancel_delete r) (cancel_item key q) refl b',
      pump-IsBounded (cancel_item key q) b',
    )

discard_ref-IsBounded :
    (key : String) (o : Option ℕ) (q : UploadQueue) → IsBounded q → IsBounded (discard_ref key o q)
unfolding discard_ref
discard_ref-IsBounded key none q b = b
discard_ref-IsBounded key (some r) q b = ground (
  arith,
  IsBounded-neutral q (discard_item key q) (discard_item-IsNeutral key q) b,
  add_task-IsBounded (discard_delete key r) q refl b,
)

add_files-IsBounded :
    (files : List FileDescriptor) (q : UploadQueue) → IsBounded q → IsBounded (add_files files q).0
unfolding add_files
add_files-IsBounded files q b =
    let q₁ : UploadQueue = resume q in
    let q₂ : UploadQueue = drop_ready q.items q₁ in
    let b₁ : IsBounded q₁ = ground arith in
    let b₂ = IsBounded-neutral q₁ q₂ (drop_ready-IsNeutral q.items q₁) b₁ in
    let b₃ = IsBounded-neutral q₂ (add_loop files q₂).0 (add_loop-IsNeutral files q₂) b₂ in
    pump-IsBounded (notify (add_loop files q₂).0) (notify-IsBounded (add_loop files q₂).0 b₃)

abort_all-IsBounded : (q : UploadQueue) → IsBounded q → IsBounded (abort_all q)
unfolding abort_all
abort_all-IsBounded q b =
    let q₁ : UploadQueue = record q { stopped = true } in
    let q₂ : UploadQueue = abort_controllers (values q.controllers) q₁ in
    let b₁ : IsBounded q₁ = ground arith in
    let b₂ = IsBounded-neutral q₁ q₂ (abort_controllers-IsNeutral (values q.controllers) q₁) b₁ in
    notify-IsBounded _ (IsBounded-neutral q₂ _ (requeue-IsNeutral (values q.items) q₂) b₂)

apply_photo_statuses-IsBounded :
    (photos : List PhotoStatus) (q : UploadQueue)
    → IsBounded q
    → IsBounded (apply_photo_statuses photos q)
unfolding apply_photo_statuses
apply_photo_statuses-IsBounded photos q b =
    let q₁ : UploadQueue = (apply_loop photos (values q.items) false q).0 in
    let b₁ = IsBounded-neutral q q₁ (apply_loop-IsNeutral photos (values q.items) false q) b in
    ground (arith, notify-IsBounded q₁ b₁)

clear_finished-IsBounded : (q : UploadQueue) → IsBounded q → IsBounded (clear_finished q)
unfolding clear_finished
clear_finished-IsBounded q b =
    let b₁ = IsBounded-neutral q (drop_ready q.items q) (drop_ready-IsNeutral q.items q) b in
    ground (arith, notify-IsBounded (drop_ready q.items q) b₁)

reconcile-IsBounded : (q : UploadQueue) → IsBounded q → IsBounded (reconcile q)
unfolding reconcile
reconcile-IsBounded q b = elim (Option-cases q.registry) [
  | inl e ↦ rw (e, reconcile) b
  | inr (s, e) ↦ rw (e, reconcile) (reconcile_loop-IsBounded _ _ (ground arith))
]

pub act-IsBounded : (a : Action) (q : UploadQueue) → IsBounded q → IsBounded (act a q)
unfolding act
act-IsBounded (on_subscribe l) q b = unfold subscribe in ground arith
act-IsBounded (on_unsubscribe l) q b = unfold unsubscribe in ground arith
act-IsBounded (on_add_files files) q b = add_files-IsBounded files q b
act-IsBounded (on_retry key) q b = unfold retry in retry_ref-IsBounded (get key q.items) q b
act-IsBounded (on_cancel key) q b = unfold cancel in cancel_ref-IsBounded key (get key q.items) q b
act-IsBounded (on_discard key) q b =
    unfold discard in discard_ref-IsBounded key (get key q.items) q b
act-IsBounded on_clear_finished q b = clear_finished-IsBounded q b
act-IsBounded on_abort_all q b = abort_all-IsBounded q b
act-IsBounded on_reconcile q b = reconcile-IsBounded q b
act-IsBounded (on_photo_statuses photos) q b = apply_photo_statuses-IsBounded photos q b
