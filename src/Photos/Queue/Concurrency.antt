-- ===== src/Photos/Queue/Concurrency.antt =====
-- The counter `active` through every step of a queue in use.
use cloud_photo_delivery.Prelude.{
  ℕ, zero, suc, ◌+◌, ◌-◌, ◌≤◌, String, Option, some, List, [], ◌∷◌, ◌≡◌, refl, ap, ◌∙◌, arith,
  Option-cases, inl, inr, or_default,
}
use cloud_photo_delivery.Photos.Schema.{FileDescriptor}
use cloud_photo_delivery.Photos.Registry.{Entry, Storage}
use cloud_photo_delivery.Photos.Item.{Result, ok, err}
use cloud_photo_delivery.Photos.Queue.State.{
  UploadQueue, Await, Task, Deps, limit, notify, process, returned, cancel_abort, cancel_delete,
  discard_delete, reconcile_status, default_concurrency,
}
use cloud_photo_delivery.Photos.Queue.Process.{progress_simple, progress_part}
use cloud_photo_delivery.Photos.Queue.Actions.{add_item}
use cloud_photo_delivery.Photos.Queue.Frame.{
  IsFramed, wake-IsFramed, after_initialize-IsFramed, after_re_presign-IsFramed,
  after_put_simple-IsFramed, after_part_urls-IsFramed, after_part-IsFramed, after_pool-IsFramed,
  after_complete_multipart-IsFramed, after_complete-IsFramed,
}
use cloud_photo_delivery.Photos.Queue.Neutral.{IsNeutral, discard_item-IsNeutral}
use cloud_photo_delivery.Photos.Queue.Tasks.{
  UploadStatus, task_at, without, replace, end_task, finish, go_on, refuses, after_cancel_abort,
  after_cancel_delete, after_discard_delete, after_status, restore,
}
use cloud_photo_delivery.Photos.Queue.Steps.{
  Step, Reach, Answers, initialized, re_presigned, simple_put, urls_given, part_put, pool_settled,
  multipart_completed, completed, slept, calls, answers, finishes, multipart_aborted, cancelled,
  discarded, status_given, simple_progress, part_progresses, time_passes, here, next, new_queue,
}
use cloud_photo_delivery.Photos.Queue.Active.{
  IsBounded, running, running-append, IsBounded-neutral, pump-IsBounded,
}
use cloud_photo_delivery.Photos.Queue.Bounded.{
  notify-IsBounded, act-IsBounded, reconcile_loop-IsBounded,
}

abbrev weight : Task → ℕ
weight t = running (t ∷ [])

running-cons : (t : Task) (ts : List Task) → running (t ∷ ts) ≡ weight t + running ts
running-cons t ts = running-append (t ∷ []) ts

running-without :
    (i : ℕ) (t : Task) (ts : List Task)
    → task_at i ts ≡ some t
    → running ts ≡ weight t + running (without i ts)
running-without i t [] h = cc
running-without zero t (u ∷ ts) h =
    let e : u ≡ t = ground arith in ap (λ v. running (v ∷ ts)) e ∙ running-cons t ts
running-without (suc i) t (u ∷ ts) h =
    omega (arith, running-cons u ts, running-cons u (without i ts), running-without i t ts h)

running-replace :
    (i : ℕ) (t u : Task) (ts : List Task)
    → task_at i ts ≡ some t
    → running (replace i u ts) + weight t ≡ running ts + weight u
running-replace i t u [] h = cc
running-replace zero t u (v ∷ ts) h =
    let e : v ≡ t = ground arith in omega (arith, ap weight e, running-cons v ts, running-cons u ts)
running-replace (suc i) t u (v ∷ ts) h =
    omega (arith, running-cons v ts, running-cons v (replace i u ts), running-replace i t u ts h)

Answers-IsFramed :
    (r : ℕ) (file : FileDescriptor) (await : Await) (next : UploadQueue → UploadQueue × Await)
    (q : UploadQueue)
    → Answers r file await next
    → IsFramed q (next q).0
Answers-IsFramed r file _ _ q (initialized key reply) = after_initialize-IsFramed r file reply q
Answers-IsFramed r file _ _ q (re_presigned photo_id reply) = after_re_presign-IsFramed r reply q
Answers-IsFramed r file _ _ q (simple_put url reply) = after_put_simple-IsFramed r reply q
Answers-IsFramed r file _ _ q (urls_given photo_id size missing batch rest urls reply) =
    after_part_urls-IsFramed r photo_id size missing rest urls reply q
Answers-IsFramed r file _ _ q (part_put photo_id size urls pool i reply) =
    after_part-IsFramed r photo_id size urls pool i reply q
Answers-IsFramed r file _ _ q (pool_settled photo_id size urls pool quiet) =
    after_pool-IsFramed r photo_id pool q
Answers-IsFramed r file _ _ q (multipart_completed photo_id parts reply) =
    after_complete_multipart-IsFramed r reply q
Answers-IsFramed r file _ _ q (completed photo_id key reply) = after_complete-IsFramed r reply q
Answers-IsFramed r file _ _ q (slept ms) = wake-IsFramed r file q

go_on-IsBounded :
    (i r : ℕ) (file : FileDescriptor) (await : Await) (q q' : UploadQueue) (await' : Await)
    → task_at i q.tasks ≡ some (process r file await)
    → IsFramed q q'
    → IsBounded q
    → IsBounded (go_on i r file (q', await'))
go_on-IsBounded i r file await q q' await' at f b =
    let t = process r file await in
    let u = process r file await' in
    let e = ap (λ (ts : List Task). running (replace i u ts)) f.tasks in
    let d = ap (λ (d : Deps). or_default d.concurrency default_concurrency) f.deps in
    record {
      counted = omega (arith, e, running-replace i t u q.tasks at, f.active, b.counted);
      bounded = omega (arith, d, f.active, b.bounded);
    }

end_task-IsBounded :
    (i : ℕ) (t : Task) (q : UploadQueue)
    → task_at i q.tasks ≡ some t
    → weight t ≡ 0
    → IsBounded q
    → IsBounded (end_task i q)
end_task-IsBounded i t q at w b = ground (arith, running-without i t q.tasks at)

finish-IsBounded :
    (i : ℕ) (t : Task) (q : UploadQueue)
    → task_at i q.tasks ≡ some t
    → weight t ≡ 1
    → IsBounded q
    → IsBounded (finish i q)
unfolding finish
finish-IsBounded i t q at w b =
    let q₁ : UploadQueue = record (end_task i q) { active = q.active - 1 } in
    let b₁ : IsBounded q₁ = record {
      counted = omega (arith, running-without i t q.tasks at);
      bounded = omega arith;
    } in
    pump-IsBounded (notify q₁) (notify-IsBounded q₁ b₁)

after_cancel_abort-IsBounded :
    (i r : ℕ) (q : UploadQueue)
    → task_at i q.tasks ≡ some (cancel_abort r)
    → IsBounded q
    → IsBounded (after_cancel_abort i r q)
unfolding after_cancel_abort
after_cancel_abort-IsBounded i r q at b = ground (
  arith,
  running-replace i (cancel_abort r) (cancel_delete r) q.tasks at,
  pump-IsBounded (end_task i q) (end_task-IsBounded i (cancel_abort r) q at refl b),
)

after_cancel_delete-IsBounded :
    (i r : ℕ) (reply : Result (Unit {0})) (q : UploadQueue)
    → task_at i q.tasks ≡ some (cancel_delete r)
    → IsBounded q
    → IsBounded (after_cancel_delete i reply q)
unfolding after_cancel_delete
after_cancel_delete-IsBounded i r reply q at b =
    let b₁ = pump-IsBounded (end_task i q) (end_task-IsBounded i (cancel_delete r) q at refl b) in
    elim (Option-cases (refuses reply)) [
      | inl e ↦ rw (e, after_cancel_delete) b₁
      | inr (x, e) ↦ rw (e, after_cancel_delete) (ground (arith, b₁.counted, b₁.bounded))
    ]

after_discard_delete-IsBounded :
    (i r : ℕ) (key : String) (reply : Result (Unit {0})) (q : UploadQueue)
    → task_at i q.tasks ≡ some (discard_delete key r)
    → IsBounded q
    → IsBounded (after_discard_delete i key reply q)
unfolding after_discard_delete
after_discard_delete-IsBounded i r key reply q at b =
    let b₁ = end_task-IsBounded i (discard_delete key r) q at refl b in
    elim (Option-cases (refuses reply)) [
      | inl e ↦
          rw (e, after_discard_delete)
            (IsBounded-neutral (end_task i q) _ (discard_item-IsNeutral key (end_task i q)) b₁)
      | inr (x, e) ↦ rw (e, after_discard_delete) (ground (arith, b₁.counted, b₁.bounded))
    ]

restore-IsNeutral :
    (entry : Entry) (reply : Result UploadStatus) (q : UploadQueue)
    → IsNeutral q (restore entry reply q)
unfolding restore add_item
restore-IsNeutral entry (err e) q = ground arith
restore-IsNeutral entry (ok s) q = ground arith

after_status-IsBounded :
    (i : ℕ) (entry : Entry) (rest : List Entry) (reply : Result UploadStatus) (q : UploadQueue)
    → task_at i q.tasks ≡ some (reconcile_status entry rest)
    → IsBounded q
    → IsBounded (after_status i entry rest reply q)
unfolding after_status
after_status-IsBounded i entry rest reply q at b =
    let b₁ = end_task-IsBounded i (reconcile_status entry rest) q at refl b in
    reconcile_loop-IsBounded rest (restore entry reply (end_task i q))
      (IsBounded-neutral (end_task i q) _ (restore-IsNeutral entry reply (end_task i q)) b₁)

Step-IsBounded : {q q' : UploadQueue} → Step q q' → IsBounded q → IsBounded q'
Step-IsBounded {q} (calls a) b = act-IsBounded a q b
Step-IsBounded {q} (answers i r file await go at answer) b =
    go_on-IsBounded i r file await q (go q).0 (go q).1 at
      (Answers-IsFramed r file await go q answer) b
Step-IsBounded {q} (finishes i r file at) b =
    finish-IsBounded i (process r file returned) q at refl b
Step-IsBounded {q} (multipart_aborted i r at) b = after_cancel_abort-IsBounded i r q at b
Step-IsBounded {q} (cancelled i r reply at) b = after_cancel_delete-IsBounded i r reply q at b
Step-IsBounded {q} (discarded i r key reply at) b =
    after_discard_delete-IsBounded i r key reply q at b
Step-IsBounded {q} (status_given i entry rest reply at) b =
    after_status-IsBounded i entry rest reply q at b
Step-IsBounded {q} (simple_progress r loaded total) b = unfold progress_simple in ground arith
Step-IsBounded {q} (part_progresses r size base loaded) b = unfold progress_part in ground arith
Step-IsBounded {q} (time_passes ms) b = ground arith

Reach-IsBounded : {s q : UploadQueue} → IsBounded s → Reach s q → IsBounded q
Reach-IsBounded b here = b
Reach-IsBounded b (next reach step) = Step-IsBounded step (Reach-IsBounded b reach)

-- In every state that a new queue reaches, whatever is called, in whatever order, and however the
-- server answers: `active` is the number of calls of `process` that have not finished, and no more
-- of them run at once than the configured concurrency, or 3 without one.
pub concurrency_bounded :
    (deps : Deps) (registry : Option (Option Storage)) (clock : ℕ) (q : UploadQueue)
    → Reach (new_queue deps registry clock) q
    → (q.active ≡ running q.tasks) × (running q.tasks ≤ limit q)
concurrency_bounded deps registry clock q reach =
    let start : IsBounded (new_queue deps registry clock) = omega arith in
    let b = Reach-IsBounded start reach in (b.counted, omega (arith, b.counted, b.bounded))
