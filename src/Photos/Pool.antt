-- ===== src/Photos/Pool.antt =====
-- `runPool` in apps/web/src/features/photos/uploader.ts as a state machine: the workers share the
-- counter `next`, so the items that no worker has taken are the rest of the list. A worker that
-- throws rejects its own promise and takes no further item; the others go on. `Promise.allSettled`
-- resolves when no worker is at work.
pub mod Laws
use cloud_photo_delivery.Prelude.{
  ℕ, zero, suc, min, Bool, true, false, not, ◌&&◌, Option, none, some, List, [], ◌∷◌, ◌++◌, length,
}

-- A worker awaits its item, has returned because no item was left, or has thrown.
pub data Worker {ℓ} (T E : Type ℓ) : Type ℓ where
  working : T → Worker T E
  idle : Worker T E
  rejected : E → Worker T E

pub record Pool {ℓ} (T E : Type ℓ) : Type ℓ where
  pub todo : List T
  pub workers : List (Worker T E)

module _ {ℓ} {T E : Type ℓ} where
  -- `worker(item)` either throws before its first `await`, or awaits.
  abbrev pub begin_item : (T → Option E) → T → Worker T E
  begin_item throws x = elim (throws x) [ none ↦ working x | some e ↦ rejected e ]

  -- A worker's next round of `while (true)`: what it does, and the items left.
  unfoldable pub take_next : (T → Option E) → List T → Worker T E × List T
  take_next throws [] = (idle, [])
  take_next throws (x ∷ todo) = (begin_item throws x, todo)

  -- `Array.from({ length: … }, async () => …)`: each worker runs to its first `await` in turn.
  unfoldable pub start_workers : (T → Option E) → ℕ → List T → List (Worker T E) → Pool T E
  unfolding take_next
  start_workers throws zero todo started = record { todo = todo; workers = started }
  start_workers throws (suc n) todo started =
      start_workers throws n (take_next throws todo).1 (started ++ (take_next throws todo).0 ∷ [])

  unfoldable pub start_pool : (T → Option E) → ℕ → List T → Pool T E
  unfolding start_workers
  start_pool throws limit items = start_workers throws (min limit (length items)) items []

  -- The `await` of a worker ends, with the error that it throws if any. Its next round follows.
  abbrev pub continue_worker : (T → Option E) → Option E → List T → Worker T E × List T
  continue_worker throws none todo = take_next throws todo
  continue_worker throws (some e) todo = (rejected e, todo)

  -- The workers after worker `i` went on, if it was at work.
  unfoldable pub settle_worker :
      (T → Option E) → ℕ → Option E → List (Worker T E) → List T → List (Worker T E) × List T
  unfolding take_next
  settle_worker throws i failed [] todo = ([], todo)
  settle_worker throws zero failed (working x ∷ ws) todo =
      ((continue_worker throws failed todo).0 ∷ ws, (continue_worker throws failed todo).1)
  settle_worker throws zero failed (w ∷ ws) todo = (w ∷ ws, todo)
  settle_worker throws (suc i) failed (w ∷ ws) todo =
      let (ws', todo') = settle_worker throws i failed ws todo in (w ∷ ws', todo')

  unfoldable pub settle : (T → Option E) → ℕ → Option E → Pool T E → Pool T E
  unfolding settle_worker
  settle throws i failed pool =
      let (ws, todo) = settle_worker throws i failed pool.workers pool.todo in
      record { todo = todo; workers = ws }

  -- The number of workers that await an item.
  abbrev pub in_flight : List (Worker T E) → ℕ
  in_flight [] = 0
  in_flight (working x ∷ ws) = suc (in_flight ws)
  in_flight (idle ∷ ws) = in_flight ws
  in_flight (rejected e ∷ ws) = in_flight ws

  -- `results.find((result) => result.status === "rejected")`
  abbrev pub first_rejection : List (Worker T E) → Option E
  first_rejection [] = none
  first_rejection (working x ∷ ws) = first_rejection ws
  first_rejection (idle ∷ ws) = first_rejection ws
  first_rejection (rejected e ∷ ws) = some e

  -- Whether worker `i` awaits an item.
  abbrev pub at_work : ℕ → List (Worker T E) → Bool
  at_work i [] = false
  at_work zero (working x ∷ ws) = true
  at_work zero (w ∷ ws) = false
  at_work (suc i) (w ∷ ws) = at_work i ws
