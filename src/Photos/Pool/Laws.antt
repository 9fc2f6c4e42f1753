-- ===== src/Photos/Pool/Laws.antt =====
-- Laws of the worker pool: its size, and what is left for it to do.
use cloud_photo_delivery.Prelude.{
  ℕ, zero, suc, ◌+◌, ◌≤◌, ◌<◌, min, ◌≡◌, refl, ap, true, Option, none, some, List, [], ◌∷◌, ◌++◌,
  length, arith, length-append,
}
use cloud_photo_delivery.Photos.Pool.{
  Worker, working, idle, rejected, Pool, begin_item, take_next, start_workers, start_pool,
  settle_worker, settle, in_flight, at_work,
}

module _ {ℓ} {T E : Type ℓ} where
  in_flight-le-length : (ws : List (Worker T E)) → in_flight ws ≤ length ws
  in_flight-le-length [] = omega arith
  in_flight-le-length (working x ∷ ws) = omega (arith, in_flight-le-length ws)
  in_flight-le-length (idle ∷ ws) = omega (arith, in_flight-le-length ws)
  in_flight-le-length (rejected e ∷ ws) = omega (arith, in_flight-le-length ws)

  pub length-start_workers :
      (throws : T → Option E) (n : ℕ) (todo : List T) (started : List (Worker T E))
      → length (start_workers throws n todo started).workers ≡ length started + n
  unfolding start_workers
  length-start_workers throws zero todo started = omega arith
  length-start_workers throws (suc n) todo started = omega (
    arith,
    length-start_workers throws n (take_next throws todo).1
        (started ++ (take_next throws todo).0 ∷ []),
    length-append started ((take_next throws todo).0 ∷ []),
  )

  pub length-settle_worker :
      (throws : T → Option E) (i : ℕ) (failed : Option E) (ws : List (Worker T E)) (todo : List T)
      → length (settle_worker throws i failed ws todo).0 ≡ length ws
  unfolding settle_worker
  length-settle_worker throws i failed [] todo = refl
  length-settle_worker throws zero failed (working x ∷ ws) todo = refl
  length-settle_worker throws zero failed (idle ∷ ws) todo = refl
  length-settle_worker throws zero failed (rejected e ∷ ws) todo = refl
  length-settle_worker throws (suc i) failed (w ∷ ws) todo =
      ap suc (length-settle_worker throws i failed ws todo)

  in_flight-begin_item :
      (throws : T → Option E) (x : T) (ws : List (Worker T E))
      → in_flight (begin_item throws x ∷ ws) ≤ in_flight ws + 1
  in_flight-begin_item throws x ws = ground arith

  in_flight-cons :
      (w : Worker T E) (ws vs : List (Worker T E))
      → in_flight ws ≤ in_flight vs
      → in_flight (w ∷ ws) ≤ in_flight (w ∷ vs)
  in_flight-cons (working x) ws vs h = omega arith
  in_flight-cons idle ws vs h = h
  in_flight-cons (rejected e) ws vs h = h

  -- What an await leaves to be done: the items in flight and those that no worker has taken.
  abbrev pub pending : List (Worker T E) → List T → ℕ
  pending ws todo = in_flight ws + length todo

  pending-cons :
      (w : Worker T E) (ws vs : List (Worker T E)) (t u : List T)
      → pending ws t < pending vs u
      → pending (w ∷ ws) t < pending (w ∷ vs) u
  pending-cons (working x) ws vs t u h = omega arith
  pending-cons idle ws vs t u h = h
  pending-cons (rejected e) ws vs t u h = h

  settle_worker-falls :
      (throws : T → Option E) (i : ℕ) (failed : Option E) (ws : List (Worker T E)) (todo : List T)
      → at_work i ws ≡ true
      → pending (settle_worker throws i failed ws todo).0 (settle_worker throws i failed ws todo).1
        < pending ws todo
  unfolding settle_worker
  settle_worker-falls throws i failed [] todo h = cc
  settle_worker-falls throws zero none (working x ∷ ws) [] h = omega arith
  settle_worker-falls throws zero none (working x ∷ ws) (y ∷ todo) h =
      omega (arith, in_flight-begin_item throws y ws)
  settle_worker-falls throws zero (some e) (working x ∷ ws) todo h = omega arith
  settle_worker-falls throws zero failed (idle ∷ ws) todo h = cc
  settle_worker-falls throws zero failed (rejected e ∷ ws) todo h = cc
  settle_worker-falls throws (suc i) failed (w ∷ ws) todo h =
      pending-cons w (settle_worker throws i failed ws todo).0 ws
        (settle_worker throws i failed ws todo).1 todo
        (settle_worker-falls throws i failed ws todo h)

  -- A pool for `items` has as many workers as the limit and the items allow, so no more items are
  -- in flight than that. When a worker that is at work goes on, the number of workers stays, and
  -- strictly less is left to be awaited, whether its item failed or not.
  pub pool_bounds :
      (throws : T → Option E) (limit i : ℕ) (items : List T) (failed : Option E) (pool : Pool T E)
      → at_work i pool.workers ≡ true
      → (length (start_pool throws limit items).workers ≡ min limit (length items))
        × (in_flight (start_pool throws limit items).workers ≤ limit)
        × (length (settle throws i failed pool).workers ≡ length pool.workers)
        × (pending (settle throws i failed pool).workers (settle throws i failed pool).todo
            < pending pool.workers pool.todo)
  unfolding start_pool settle
  pool_bounds throws limit i items failed pool h =
      let n = min limit (length items) in
      let e = length-start_workers throws n items [] in
      (
        omega (arith, e),
        omega (arith, e, in_flight-le-length (start_workers throws n items []).workers),
        length-settle_worker throws i failed pool.workers pool.todo,
        settle_worker-falls throws i failed pool.workers pool.todo h,
      )
