-- ===== src/Photos/Queue/Overlap.antt =====
-- Two ways in which a call of `process` outlives its lease.
use cloud_photo_delivery.Prelude.{
  ℕ, zero, suc, ◌+◌, ◌≤◌, ◌<◌, String, true, false, some, List, [], ◌∷◌, ◌++◌, ◌≡◌, refl, ap, ◌∙◌,
  arith, Bool-cases, Option-cases, inl, inr, Keyed, values, if◌then◌else◌, ◌==◌, or_default,
}
use mathlib.Core.Option
use cloud_photo_delivery.Photos.Schema.{FileDescriptor}
use cloud_photo_delivery.Photos.Errors.{UploadError, is_retryable_error, is_abort_error}
use cloud_photo_delivery.Photos.Registry
use cloud_photo_delivery.Photos.Item.{ok, queued, uploading}
use cloud_photo_delivery.Prelude.{get}
use cloud_photo_delivery.Photos.Queue.State.{is_current}
use cloud_photo_delivery.Photos.Queue.State.{
  UploadQueue, Await, Task, process, cancel_abort, cancel_delete, discard_delete, reconcile_status,
  notify, entry_of, limit, default_concurrency, Deps, max_attempts, write, is_queued,
}
use cloud_photo_delivery.Photos.Queue.Process.{
  InitializeResult, after_initialize, begin_process, fail,
}
use cloud_photo_delivery.Photos.Queue.Actions.{cancel, launch, launch_if_queued, pump_loop, pump}
use cloud_photo_delivery.Photos.Queue.Pumping.{pump_loop-room, pump_going}
use cloud_photo_delivery.Photos.Queue.Frame.{begin_process-IsFramed, fail-IsFramed}
use cloud_photo_delivery.Photos.Queue.Lease.{cancel-IsGone, not_current}
use cloud_photo_delivery.Photos.Queue.Retrying.{fail_lem, fail-file}
use cloud_photo_delivery.Photos.Queue.Answered.{
  follows, follows-after_initialize, is_current-after_initialize,
}
use cloud_photo_delivery.Photos.Queue.Tasks.{task_at, replace, go_on}

-- A call that awaits `initialize` when its row is cancelled is not stopped: the row has lost its
-- lease, but whatever else the queue holds, a successful answer to `initialize` is followed by the
-- next await of the upload, of the file or of its parts, and the entry that `cancel` removed is
-- written to the registry again.
pub cancelled_initialize_goes_on :
    (key : String) (r : ℕ) (file : FileDescriptor) (init : InitializeResult) (q : UploadQueue)
    → get key q.items ≡ some r
    → (q.heap r).key ≡ key
    → let x = after_initialize r file (ok init) (cancel key q) in
      (is_current x.0 r ≡ false)
      × (follows init init.upload_kind x.1 ≡ true)
      × (x.0.registry
          ≡ Option.map
              (λ s. Registry.upsert s (entry_of (cancel key q) (x.0.heap r)))
              (cancel key q).registry)
cancelled_initialize_goes_on key r file init q held own =
    let next = follows-after_initialize r file init init.upload_kind (cancel key q) refl in
    (
      is_current-after_initialize r file init (cancel key q)
          (not_current key r q (cancel key q) own (cancel-IsGone key r q held)),
      next.0,
      next.1,
    )

-- The calls of `process` for the row `r`.
abbrev pub calls_for : ℕ → List Task → ℕ
calls_for r [] = 0
calls_for r (process k file await ∷ ts) = (if k == r then 1 else 0) + calls_for r ts
calls_for r (cancel_abort k ∷ ts) = calls_for r ts
calls_for r (cancel_delete k ∷ ts) = calls_for r ts
calls_for r (discard_delete key k ∷ ts) = calls_for r ts
calls_for r (reconcile_status e es ∷ ts) = calls_for r ts

calls_for-append :
    (r : ℕ) (ts us : List Task) → calls_for r (ts ++ us) ≡ calls_for r ts + calls_for r us
calls_for-append r [] us = omega arith
calls_for-append r (process k file await ∷ ts) us = omega (arith, calls_for-append r ts us)
calls_for-append r (cancel_abort k ∷ ts) us = calls_for-append r ts us
calls_for-append r (cancel_delete k ∷ ts) us = calls_for-append r ts us
calls_for-append r (discard_delete key k ∷ ts) us = calls_for-append r ts us
calls_for-append r (reconcile_status e es ∷ ts) us = calls_for-append r ts us

launch-calls_for :
    (r k : ℕ) (file : FileDescriptor) (q : UploadQueue)
    → calls_for k (launch r file q).tasks ≡ calls_for k q.tasks + (if r == k then 1 else 0)
unfolding launch
launch-calls_for r k file q =
    let q₀ : UploadQueue =
      write r (record (q.heap r) { status = uploading }) (record q { active = q.active + 1 }) in
    let p = begin_process r file q₀ in
    omega (
      arith,
      calls_for-append k p.0.tasks (process r file p.1 ∷ []),
      ap (calls_for k) (begin_process-IsFramed r file q₀).tasks,
    )

launch_if_queued-calls_for :
    (r k : ℕ) (q : UploadQueue) → calls_for k q.tasks ≤ calls_for k (launch_if_queued r q).tasks
unfolding launch_if_queued
launch_if_queued-calls_for r k q = elim (Option-cases (q.heap r).file) [
  | inl e ↦ rw (e, launch_if_queued) (omega arith)
  | inr (file, e) ↦ elim (Bool-cases (is_queued (q.heap r).status)) [
    | inl due ↦ rw (e, launch_if_queued, due) (omega (arith, launch-calls_for r k file q))
    | inr other ↦ rw (e, launch_if_queued, other) (omega arith)
  ]
]

pump_loop-calls_for :
    (rs : List ℕ) (k : ℕ) (q : UploadQueue)
    → calls_for k q.tasks ≤ calls_for k (pump_loop rs q).tasks
unfolding pump_loop
pump_loop-calls_for [] k q = omega arith
pump_loop-calls_for (r ∷ rs) k q =
    ground
      (arith, pump_loop-calls_for rs k (launch_if_queued r q), launch_if_queued-calls_for r k q)

-- `pump` on a queue with room whose first row is queued and has a file starts one more call for it.
pump-calls_for :
    (key : String) (r : ℕ) (rest : Keyed ℕ) (file : FileDescriptor) (q : UploadQueue)
    → q.items ≡ (key, r) ∷ rest
    → q.stopped ≡ false
    → q.active < limit q
    → (q.heap r).status ≡ queued
    → (q.heap r).file ≡ some file
    → calls_for r q.tasks + 1 ≤ calls_for r (pump q).tasks
unfolding notify
pump-calls_for key r rest file q i going room due has =
    let rs = values rest in
    let launched : launch_if_queued r q ≡ launch r file q =
      unfold launch_if_queued in rw (has, launch_if_queued, due) in
    let started : pump_loop (values q.items) q ≡ pump_loop rs (launch r file q) =
      ap (λ (m : Keyed ℕ). pump_loop (values m) q) i
      ∙ pump_loop-room r rs q (ground arith)
      ∙ ap (pump_loop rs) launched in
    omega (
      arith,
      ap (λ (p : UploadQueue). calls_for r p.tasks) (pump_going q going),
      ap (λ (p : UploadQueue). calls_for r p.tasks) started,
      pump_loop-calls_for rs r (launch r file q),
      launch-calls_for r r file q,
      one r,
    )
  where
    one : (k : ℕ) → ◌≡◌ {A = ℕ} (if k == k then 1 else 0) 1
    one k = ground arith

calls_for-replace :
    (i r : ℕ) (file : FileDescriptor) (await : Await) (t : Task) (ts : List Task)
    → task_at i ts ≡ some t
    → 1 ≤ calls_for r (replace i (process r file await) ts)
calls_for-replace i r file await t [] h = cc
calls_for-replace zero r file await t (u ∷ ts) h = ground arith
calls_for-replace (suc i) r file await t (u ∷ ts) h =
    let ih = calls_for-replace i r file await t ts h in
    omega (arith, ih, calls_for-append r (u ∷ []) (replace i (process r file await) ts))

-- A call for the first row of a queue that is not stopped and has room fails with an error that is
-- retried, and sleeps. `pump`, which any row that finishes and any file that is added runs, then
-- starts a second call for the same row beside the one that sleeps: the row is queued while it
-- waits. For any such error, with an attempt left, and whatever else the queue holds.
pub retry_wait_starts_second_call :
    (key : String) (i r : ℕ) (rest : Keyed ℕ) (file : FileDescriptor) (await : Await)
    (e : UploadError) (q : UploadQueue)
    → q.items ≡ (key, r) ∷ rest
    → (q.heap r).file ≡ some file
    → q.stopped ≡ false
    → q.active < limit q
    → task_at i q.tasks ≡ some (process r file await)
    → is_abort_error e ≡ false
    → is_retryable_error e ≡ true
    → (q.heap r).attempts + 1 < max_attempts q
    → 2 ≤ calls_for r (pump (go_on i r file (fail r e q))).tasks
retry_wait_starts_second_call key i r rest file await e q held has going room at plain again left =
    let f = fail-IsFramed r e q in
    let q₁ : UploadQueue = go_on i r file (fail r e q) in
    let status = (fail_lem r e q plain).1 in
    omega (
      arith,
      pump-calls_for key r rest file q₁ (f.items ∙ held) (f.stopped ∙ going)
          (omega (
            arith,
            f.active,
            ap (λ (d : Deps). or_default d.concurrency default_concurrency) f.deps,
          ))
          (ground (arith, status)) (fail-file r r e q ∙ has),
      calls_for-replace i r file (fail r e q).1 (process r file await) (fail r e q).0.tasks
          (ap (task_at i) f.tasks ∙ at),
    )
