-- ===== src/Photos/Queue/Active.antt =====
-- The counter `active` and the running calls of `process`.
use cloud_photo_delivery.Prelude.{
  ℕ, suc, ◌+◌, ◌≤◌, false, List, [], ◌∷◌, ◌++◌, leb, ◌≡◌, ap, arith, Bool-cases, Option-cases, inl,
  inr, or_default, values,
}
use cloud_photo_delivery.Photos.Schema.{FileDescriptor}
use cloud_photo_delivery.Photos.Item.{uploading}
use cloud_photo_delivery.Photos.Queue.State.{
  notify, UploadQueue, Task, limit, write, Deps, default_concurrency, process, cancel_abort,
  cancel_delete, discard_delete, reconcile_status, is_queued,
}
use cloud_photo_delivery.Photos.Queue.Process.{begin_process}
use cloud_photo_delivery.Photos.Queue.Actions.{launch, launch_if_queued, pump_loop, pump}
use cloud_photo_delivery.Photos.Queue.Frame.{begin_process-IsFramed}
use cloud_photo_delivery.Photos.Queue.Neutral.{IsNeutral}

-- The running calls of `process`.
abbrev pub running : List Task → ℕ
running [] = 0
running (process r file await ∷ ts) = suc (running ts)
running (cancel_abort r ∷ ts) = running ts
running (cancel_delete r ∷ ts) = running ts
running (discard_delete key r ∷ ts) = running ts
running (reconcile_status e es ∷ ts) = running ts

pub record IsBounded (q : UploadQueue) : Type 0 where
  pub counted : q.active ≡ running q.tasks
  pub bounded : q.active ≤ limit q

pub running-append : (ts us : List Task) → running (ts ++ us) ≡ running ts + running us
running-append [] us = omega arith
running-append (process r file await ∷ ts) us = omega (arith, running-append ts us)
running-append (cancel_abort r ∷ ts) us = running-append ts us
running-append (cancel_delete r ∷ ts) us = running-append ts us
running-append (discard_delete key r ∷ ts) us = running-append ts us
running-append (reconcile_status e es ∷ ts) us = running-append ts us

launch-IsBounded :
    (r : ℕ) (file : FileDescriptor) (q : UploadQueue)
    → leb (limit q) q.active ≡ false
    → IsBounded q
    → IsBounded (launch r file q)
unfolding launch
launch-IsBounded r file q room b =
    let q₀ : UploadQueue =
      write r (record (q.heap r) { status = uploading }) (record q { active = q.active + 1 }) in
    let f = begin_process-IsFramed r file q₀ in
    let t = process r file (begin_process r file q₀).1 in
    ground (
      arith,
      f,
      running-append (begin_process r file q₀).0.tasks (t ∷ []),
      ap running f.tasks,
      ap (λ (d : Deps). or_default d.concurrency default_concurrency) f.deps,
    )

pub IsBounded-neutral : (q q' : UploadQueue) → IsNeutral q q' → IsBounded q → IsBounded q'
IsBounded-neutral q q' n b = ground (
  arith,
  ap running n.tasks,
  ap (λ (d : Deps). or_default d.concurrency default_concurrency) n.deps,
)

pump_loop-IsBounded : (rs : List ℕ) (q : UploadQueue) → IsBounded q → IsBounded (pump_loop rs q)
unfolding pump_loop launch_if_queued
pump_loop-IsBounded [] q b = b
pump_loop-IsBounded (r ∷ rs) q b = elim (Bool-cases (leb (limit q) q.active)) [
  | inl full ↦ rw full b
  | inr room ↦ rw room (pump_loop-IsBounded rs (launch_if_queued r q) (step room))
]
  where
    step : leb (limit q) q.active ≡ false → IsBounded (launch_if_queued r q)
    step room = elim (Option-cases (q.heap r).file) [
      | inl e ↦ rw (e, launch_if_queued) b
      | inr (file, e) ↦ elim (Bool-cases (is_queued (q.heap r).status)) [
        | inl due ↦ rw (e, launch_if_queued, due) (launch-IsBounded r file q room b)
        | inr other ↦ rw (e, launch_if_queued, other) b
      ]
    ]

pub pump-IsBounded : (q : UploadQueue) → IsBounded q → IsBounded (pump q)
unfolding pump notify
pump-IsBounded q b = ground (arith, pump_loop-IsBounded (values q.items) q b)
