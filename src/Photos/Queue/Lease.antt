-- ===== src/Photos/Queue/Lease.antt =====
-- The lease of a call of `process`: what `cancel` takes back, and where a call goes on all the same.
use cloud_photo_delivery.Prelude.{
  ℕ, String, Bool, Option, Option-cases, refl, true, false, none, some, ◌≡◌, ap, ◌∙◌, arith,
  Bool-cases, inl, inr, Keyed, get, remove, ◌&&◌, truthy, get-remove, eq_refl,
}
use mathlib.Core.Option
use cloud_photo_delivery.Photos.Schema.{FileDescriptor}
use cloud_photo_delivery.Photos.Errors.{abort_error, is_abort_error}
use cloud_photo_delivery.Photos.Registry
use cloud_photo_delivery.Photos.Registry.{Storage}
use cloud_photo_delivery.Photos.Queue.State.{
  UploadQueue, Await, Task, returned, is_current, notify, cancel_abort, cancel_delete,
}
use cloud_photo_delivery.Photos.Queue.Process.{wake, fail, drop_controller, is_multipart}
use cloud_photo_delivery.Photos.Queue.Actions.{cancel, cancel_ref, cancel_item, pump, add_task}
use cloud_photo_delivery.Photos.Queue.Pumping.{pump-IsKept, pump-keys}

-- What `cancel` leaves of a row, whichever requests it makes and whatever it starts instead.
pub record IsGone (key : String) (r : ℕ) (before q : UploadQueue) : Type 0 where
  items : q.items ≡ remove key before.items
  registry : q.registry ≡ Option.map (λ s. Registry.remove s key) before.registry
  keyed : (q.heap r).key ≡ (before.heap r).key
  aborted : (c : ℕ) → get key before.controllers ≡ some c → q.aborted c ≡ true

cancel_item-IsGone : (key : String) (r : ℕ) (q : UploadQueue) → IsGone key r q (cancel_item key q)
unfolding cancel_item notify
cancel_item-IsGone key r q = record {
  items = ground arith;
  registry = ground arith;
  keyed = ground arith;
  aborted = λ c h. ground arith;
}

pump-IsGone :
    (key : String) (r : ℕ) (before q : UploadQueue)
    → IsGone key r before q
    → IsGone key r before (pump q)
pump-IsGone key r before q g =
    let k = pump-IsKept q in
    record {
      items = k.items ∙ g.items;
      registry = k.registry ∙ g.registry;
      keyed = pump-keys r q ∙ g.keyed;
      aborted = λ c h. ap (λ (f : ℕ → Bool). f c) k.aborted ∙ g.aborted c h;
    }

add_task-IsGone :
    (key : String) (r : ℕ) (t : Task) (before q : UploadQueue)
    → IsGone key r before q
    → IsGone key r before (add_task t q)
add_task-IsGone key r t before q g = record {
  items = g.items;
  registry = g.registry;
  keyed = g.keyed;
  aborted = g.aborted;
}

cancel_ref-IsGone :
    (key : String) (r : ℕ) (q : UploadQueue) → IsGone key r q (cancel_ref key (some r) q)
unfolding cancel_ref
cancel_ref-IsGone key r q =
    let g = cancel_item-IsGone key r q in
    let photo_id = (q.heap r).photo_id in
    elim (Bool-cases (truthy photo_id && is_multipart (q.heap r).upload_kind)) [
      | inl multi ↦ rw multi (add_task-IsGone key r (cancel_abort r) q (cancel_item key q) g)
      | inr other ↦ elim (Bool-cases (truthy photo_id)) [
        | inl started ↦
            rw (other, started) (add_task-IsGone key r (cancel_delete r) q (cancel_item key q) g)
        | inr unstarted ↦ rw (other, unstarted) (pump-IsGone key r q (cancel_item key q) g)
      ]
    ]

pub cancel-IsGone :
    (key : String) (r : ℕ) (q : UploadQueue)
    → get key q.items ≡ some r
    → IsGone key r q (cancel key q)
unfolding cancel
cancel-IsGone key r q h = rw h (cancel_ref-IsGone key r q)

pub not_current :
    (key : String) (r : ℕ) (before q : UploadQueue)
    → (before.heap r).key ≡ key
    → IsGone key r before q
    → is_current q r ≡ false
unfolding is_current
not_current key r before q k g = ground (
  arith,
  ap (λ (m : Keyed ℕ). get key m) g.items,
  get-remove key key before.items,
  eq_refl key,
  ap (λ (j : String). get j q.items) (g.keyed ∙ k),
)

fail_without_lease :
    (r : ℕ) (q : UploadQueue)
    → is_current q r ≡ false
    → fail r abort_error q ≡ (drop_controller r q, returned)
unfolding fail is_abort_error
fail_without_lease r q h = ground arith

-- Whether a controller is aborted, if there is one.
abbrev pub none_runs : Option ℕ → UploadQueue → Bool
none_runs none q = true
none_runs (some c) q = q.aborted c

cancel-none_runs :
    (key : String) (r : ℕ) (q : UploadQueue)
    → IsGone key r q (cancel key q)
    → none_runs (get key q.controllers) (cancel key q) ≡ true
cancel-none_runs key r q g = elim (Option-cases (get key q.controllers)) [
  | inl asleep ↦ rw asleep refl
  | inr (c, running) ↦ rw running (g.aborted c running)
]

-- Right after `cancel` of a row that the queue holds under its own key: the key is in the map no
-- more, the registry has lost the key's entry, the controller that was under the key, where there
-- was one, is aborted, and the row's lease is gone. So a call of `process` for it that was asleep,
-- which has no controller, returns when it wakes, and one whose request is rejected with an abort
-- returns with the row's status as it is: neither queues the row again.
pub cancel_ends_lease :
    (key : String) (r : ℕ) (file : FileDescriptor) (q : UploadQueue)
    → get key q.items ≡ some r
    → (q.heap r).key ≡ key
    → (get key (cancel key q).items ≡ none)
      × ((cancel key q).registry ≡ Option.map (λ s. Registry.remove s key) q.registry)
      × (none_runs (get key q.controllers) (cancel key q) ≡ true)
      × (wake r file (cancel key q) ≡ (cancel key q, returned))
      × ((fail r abort_error (cancel key q)).1 ≡ returned)
      × (((fail r abort_error (cancel key q)).0.heap r).status ≡ ((cancel key q).heap r).status)
unfolding wake
cancel_ends_lease key r file q h k =
    let p : UploadQueue = cancel key q in
    let g = cancel-IsGone key r q h in
    let gone = not_current key r q p k g in
    (
      ground
          (arith, ap (λ (m : Keyed ℕ). get key m) g.items, get-remove key key q.items, eq_refl key),
      g.registry,
      cancel-none_runs key r q g,
      ground (arith, gone),
      ap (λ (x : UploadQueue × Await). x.1) (fail_without_lease r p gone),
      ap (λ (x : UploadQueue × Await). (x.0.heap r).status) (fail_without_lease r p gone),
    )
