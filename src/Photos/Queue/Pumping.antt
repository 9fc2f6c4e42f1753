-- ===== src/Photos/Queue/Pumping.antt =====
-- What `pump` starts and what it leaves waiting.
use cloud_photo_delivery.Prelude.{
  ℕ, ◌+◌, ◌≤◌, Bool, true, false, not, List, [], ◌∷◌, leb, ◌≡◌, refl, ap, sym, ◌∙◌, arith,
  Bool-cases, Option-cases, inl, inr, ◌⊎◌, Keyed, values, is_some, ◌&&◌, ◌==◌, All,
}
use mathlib.Core.Path.{subst}
use cloud_photo_delivery.Photos.Schema.{FileDescriptor}
use cloud_photo_delivery.Photos.Item.{UploadItem, uploading}
use cloud_photo_delivery.Photos.Queue.State.{UploadQueue, limit, notify, write, is_queued}
use cloud_photo_delivery.Photos.Queue.Process.{begin_process}
use cloud_photo_delivery.Photos.Queue.Actions.{launch, launch_if_queued, pump_loop, pump}

-- Whether the row could start: it is queued and has a file.
abbrev pub waits : UploadItem → Bool
waits item = is_queued item.status && is_some item.file

-- What starting a row keeps of the queue.
pub record IsKept (q q' : UploadQueue) : Type 0 where
  pub deps : q'.deps ≡ q.deps
  pub items : q'.items ≡ q.items
  pub registry : q'.registry ≡ q.registry
  pub aborted : q'.aborted ≡ q.aborted
  pub stopped : q'.stopped ≡ q.stopped

IsKept-trans : (a b c : UploadQueue) → IsKept a b → IsKept b c → IsKept a c
IsKept-trans a b c h k = record {
  deps = k.deps ∙ h.deps;
  items = k.items ∙ h.items;
  registry = k.registry ∙ h.registry;
  aborted = k.aborted ∙ h.aborted;
  stopped = k.stopped ∙ h.stopped;
}

begin_process-IsKept :
    (r : ℕ) (file : FileDescriptor) (q : UploadQueue) → IsKept q (begin_process r file q).0
unfolding begin_process
begin_process-IsKept r file q = ground arith

-- The key, the status and the file of every object.
begin_process-status :
    (r k : ℕ) (file : FileDescriptor) (q : UploadQueue)
    → (((begin_process r file q).0.heap k).status ≡ (q.heap k).status)
      × (((begin_process r file q).0.heap k).file ≡ (q.heap k).file)
      × (((begin_process r file q).0.heap k).key ≡ (q.heap k).key)
unfolding begin_process
begin_process-status r k file q = ground arith

launch-IsKept : (r : ℕ) (file : FileDescriptor) (q : UploadQueue) → IsKept q (launch r file q)
unfolding launch
launch-IsKept r file q =
    let q₀ : UploadQueue =
      write r (record (q.heap r) { status = uploading }) (record q { active = q.active + 1 }) in
    let f = begin_process-IsKept r file q₀ in
    record {
      deps = f.deps;
      items = f.items;
      registry = f.registry;
      aborted = f.aborted;
      stopped = f.stopped;
    }

launch-waits :
    (r k : ℕ) (file : FileDescriptor) (q : UploadQueue)
    → (waits ((launch r file q).heap k) ≡ (not (k == r) && waits (q.heap k)))
      × (((launch r file q).heap k).key ≡ (q.heap k).key)
unfolding launch
launch-waits r k file q =
    let q₀ : UploadQueue =
      write r (record (q.heap r) { status = uploading }) (record q { active = q.active + 1 }) in
    let (s, f, e) = begin_process-status r k file q₀ in
    (rw (s, f, e)
      (elim (Bool-cases (k == r)) [
        | inl same ↦
            let at : k ≡ r = ground arith in rw same (refl, ap (λ j. (q.heap j).key) (sym at))
        | inr other ↦ rw other (refl, refl)
      ]))

pub launch_if_queued-IsKept : (r : ℕ) (q : UploadQueue) → IsKept q (launch_if_queued r q)
unfolding launch_if_queued
launch_if_queued-IsKept r q = elim (Option-cases (q.heap r).file) [
  | inl e ↦ rw (e, launch_if_queued) (ground arith)
  | inr (file, e) ↦ elim (Bool-cases (is_queued (q.heap r).status)) [
    | inl due ↦ rw (e, launch_if_queued, due) (launch-IsKept r file q)
    | inr other ↦ rw (e, launch_if_queued, other) (ground arith)
  ]
]

-- A row that has been passed is not waiting, and no row begins to wait.
launch_if_queued-waits :
    (r k : ℕ) (q : UploadQueue)
    → (waits ((launch_if_queued r q).heap k) ≡ (not (k == r) && waits (q.heap k)))
      × (((launch_if_queued r q).heap k).key ≡ (q.heap k).key)
unfolding launch_if_queued
launch_if_queued-waits r k q = elim (Option-cases (q.heap r).file) [
  | inl e ↦ rw (e, launch_if_queued) (still (rw e (ground arith)), refl)
  | inr (file, e) ↦ elim (Bool-cases (is_queued (q.heap r).status)) [
    | inl due ↦ rw (e, launch_if_queued, due) (launch-waits r k file q)
    | inr other ↦ rw (e, launch_if_queued, other) (still (rw other refl), refl)
  ]
]
  where
    still : waits (q.heap r) ≡ false → waits (q.heap k) ≡ (not (k == r) && waits (q.heap k))
    still h = elim (Bool-cases (k == r)) [
      | inl same ↦ let at : k ≡ r = ground arith in rw same (ap (λ j. waits (q.heap j)) at ∙ h)
      | inr other ↦ rw other refl
    ]

pub pump_loop-IsKept : (rs : List ℕ) (q : UploadQueue) → IsKept q (pump_loop rs q)
unfolding pump_loop
pump_loop-IsKept [] q = ground arith
pump_loop-IsKept (r ∷ rs) q =
    let step =
      IsKept-trans q (launch_if_queued r q) (pump_loop rs (launch_if_queued r q))
        (launch_if_queued-IsKept r q) (pump_loop-IsKept rs (launch_if_queued r q)) in
    ground (arith, step)

pump_loop-keeps :
    (rs : List ℕ) (k : ℕ) (q : UploadQueue)
    → waits (q.heap k) ≡ false
    → waits ((pump_loop rs q).heap k) ≡ false
unfolding pump_loop
pump_loop-keeps [] k q h = h
pump_loop-keeps (r ∷ rs) k q h =
    ground (arith, pump_loop-keeps rs k (launch_if_queued r q), launch_if_queued-waits r k q)

abbrev pub IsFull : UploadQueue → Type 0
IsFull q = limit q ≤ q.active

All-keeps :
    (rs : List ℕ) (q q' : UploadQueue)
    → ((k : ℕ) → waits (q.heap k) ≡ false → waits (q'.heap k) ≡ false)
    → All (λ r. waits (q.heap r) ≡ false) rs
    → All (λ r. waits (q'.heap r) ≡ false) rs
All-keeps [] q q' h a = tt
All-keeps (r ∷ rs) q q' h a = (h r a.0, All-keeps rs q q' h a.1)

abbrev Drained : List ℕ → UploadQueue → Type 0
Drained rs q = IsFull q ⊎ All (λ r. waits (q.heap r) ≡ false) rs

pump_loop-full :
    (r : ℕ) (rs : List ℕ) (q : UploadQueue)
    → leb (limit q) q.active ≡ true
    → pump_loop (r ∷ rs) q ≡ q
unfolding pump_loop
pump_loop-full r rs q h = rw h

pub pump_loop-room :
    (r : ℕ) (rs : List ℕ) (q : UploadQueue)
    → leb (limit q) q.active ≡ false
    → pump_loop (r ∷ rs) q ≡ pump_loop rs (launch_if_queued r q)
unfolding pump_loop
pump_loop-room r rs q h = rw h

pump_loop_drains : (rs : List ℕ) (q : UploadQueue) → Drained rs (pump_loop rs q)
pump_loop_drains [] q = inr tt
pump_loop_drains (r ∷ rs) q = elim (Bool-cases (leb (limit q) q.active)) [
  | inl full ↦ subst (Drained (r ∷ rs)) (sym (pump_loop-full r rs q full)) (inl (ground arith))
  | inr room ↦
      subst (Drained (r ∷ rs)) (sym (pump_loop-room r rs q room))
        (elim (pump_loop_drains rs (launch_if_queued r q)) [
          | inl full ↦ inl full
          | inr rest ↦ inr (
            pump_loop-keeps rs r (launch_if_queued r q)
                (ground (arith, launch_if_queued-waits r r q)),
            rest,
          )
        ])
]

pub pump_going :
    (q : UploadQueue) → q.stopped ≡ false → pump q ≡ notify (pump_loop (values q.items) q)
unfolding pump
pump_going q going = ground arith

-- After `pump` on a queue that is not stopped, either as many uploads run as the limit allows, or no
-- row of the queue that is queued and has a file is left: nothing that could start is held back.
-- The rows themselves stay.
pub pump_drains :
    (q : UploadQueue)
    → q.stopped ≡ false
    → (IsFull (pump q) ⊎ All (λ r. waits ((pump q).heap r) ≡ false) (values (pump q).items))
      × ((pump q).items ≡ q.items)
unfolding notify
pump_drains q going =
    let p : UploadQueue = pump_loop (values q.items) q in
    let kept = pump_loop-IsKept (values q.items) q in
    subst (λ (t : UploadQueue). Drained (values t.items) t × (t.items ≡ q.items))
      (sym (pump_going q going))
      (
        subst (λ (m : Keyed ℕ). Drained (values m) p) (sym kept.items)
            (pump_loop_drains (values q.items) q),
        kept.items,
      )

pump_loop-keys :
    (rs : List ℕ) (k : ℕ) (q : UploadQueue) → ((pump_loop rs q).heap k).key ≡ (q.heap k).key
unfolding pump_loop
pump_loop-keys [] k q = refl
pump_loop-keys (r ∷ rs) k q =
    ground (arith, pump_loop-keys rs k (launch_if_queued r q), launch_if_queued-waits r k q)

pub pump-IsKept : (q : UploadQueue) → IsKept q (pump q)
unfolding pump notify
pump-IsKept q = ground (arith, pump_loop-IsKept (values q.items) q)

pub pump-keys : (k : ℕ) (q : UploadQueue) → ((pump q).heap k).key ≡ (q.heap k).key
unfolding pump notify
pump-keys k q = ground (arith, pump_loop-keys (values q.items) k q)
