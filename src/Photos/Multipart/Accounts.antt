-- ===== src/Photos/Multipart/Accounts.antt =====
-- Where a part is while the pool runs: awaited by a worker, not taken yet, or neither.
use cloud_photo_delivery.Prelude.{
  ℕ, zero, suc, ◌≤◌, ◌<◌, ◌⊎◌, ◌≡◌, refl, Bool, true, false, not, ◌||◌, ◌&&◌, Option, none, some,
  List, [], ◌∷◌, ◌++◌, length, arith, inl, inr, ◌==◌, Bool-cases, is_some,
}
use cloud_photo_delivery.Photos.Errors.{UploadError}
use cloud_photo_delivery.Photos.Parts.{has_part}
use cloud_photo_delivery.Photos.Pool.{
  Worker, working, idle, rejected, begin_item, start_workers, settle_worker, in_flight,
  first_rejection,
}
use cloud_photo_delivery.Photos.Pool.Laws.{length-settle_worker}
use cloud_photo_delivery.Photos.Multipart.{part_of}

abbrev pub Workers : Type 0
Workers = List (Worker ℕ UploadError)

abbrev pub works : ℕ → Workers → Bool
works m [] = false
works m (working n ∷ ws) = n == m || works m ws
works m (w ∷ ws) = works m ws

abbrev pub broken : Workers → Bool
broken [] = false
broken (rejected e ∷ ws) = true
broken (w ∷ ws) = broken ws

-- A worker has returned.
abbrev pub has_idle : Workers → Bool
has_idle [] = false
has_idle (idle ∷ ws) = true
has_idle (w ∷ ws) = has_idle ws

-- Part `m` is awaited or not taken yet, or a worker has thrown.
abbrev pub accounted : ℕ → Workers → List ℕ → Bool
accounted m ws todo = works m ws || has_part todo m || broken ws

abbrev pub held : ℕ → Workers → List ℕ → Bool
held m ws todo = works m ws || has_part todo m

module _ (throws : ℕ → Option UploadError) where
  -- A part stays accounted for when a worker goes on, but for the part that it awaited; and if it
  -- threw, the pool is broken.
  pub settle_worker-accounted :
      (i : ℕ) (failed : Option UploadError) (ws : Workers) (todo : List ℕ) (n m : ℕ)
      → part_of i ws ≡ some n
      → accounted m ws todo ≡ true
      → ((n == m && not (is_some failed))
          || accounted m
              (settle_worker throws i failed ws todo).0
              (settle_worker throws i failed ws todo).1)
        ≡ true
  unfolding settle_worker
  settle_worker-accounted i failed [] todo n m p h = cc
  settle_worker-accounted zero none (working x ∷ ws) [] n m p h = ground arith
  settle_worker-accounted zero none (working x ∷ ws) (y ∷ todo) n m p h = ground arith
  settle_worker-accounted zero (some e) (working x ∷ ws) todo n m p h = ground arith
  settle_worker-accounted zero failed (idle ∷ ws) todo n m p h = cc
  settle_worker-accounted zero failed (rejected e ∷ ws) todo n m p h = cc
  settle_worker-accounted (suc i) failed (w ∷ ws) todo n m p h =
      ground (arith, settle_worker-accounted i failed ws todo n m p)

  -- What is awaited or not taken afterwards was so before.
  pub settle_worker-held :
      (i : ℕ) (failed : Option UploadError) (ws : Workers) (todo : List ℕ) (m : ℕ)
      → held m (settle_worker throws i failed ws todo).0 (settle_worker throws i failed ws todo).1
        ≡ true
      → held m ws todo ≡ true
  unfolding settle_worker
  settle_worker-held i failed [] todo m h = h
  settle_worker-held zero none (working x ∷ ws) [] m h = ground arith
  settle_worker-held zero none (working x ∷ ws) (y ∷ todo) m h = ground arith
  settle_worker-held zero (some e) (working x ∷ ws) todo m h = ground arith
  settle_worker-held zero failed (idle ∷ ws) todo m h = h
  settle_worker-held zero failed (rejected e ∷ ws) todo m h = h
  settle_worker-held (suc i) failed (w ∷ ws) todo m h =
      ground (arith, settle_worker-held i failed ws todo m)

  -- Nothing is taken from an empty list.
  settle_worker-nil :
      (i : ℕ) (failed : Option UploadError) (ws : Workers)
      → (settle_worker throws i failed ws []).1 ≡ []
  unfolding settle_worker
  settle_worker-nil i failed [] = refl
  settle_worker-nil zero none (working x ∷ ws) = refl
  settle_worker-nil zero (some e) (working x ∷ ws) = refl
  settle_worker-nil zero failed (idle ∷ ws) = refl
  settle_worker-nil zero failed (rejected e ∷ ws) = refl
  settle_worker-nil (suc i) failed (w ∷ ws) = settle_worker-nil i failed ws

  settle_worker-busy :
      (i : ℕ) (failed : Option UploadError) (ws : Workers) (y : ℕ) (todo : List ℕ)
      → has_idle ws ≡ false
      → has_idle (settle_worker throws i failed ws (y ∷ todo)).0 ≡ false
  unfolding settle_worker
  settle_worker-busy i failed [] y todo h = h
  settle_worker-busy zero none (working x ∷ ws) y todo h = ground arith
  settle_worker-busy zero (some e) (working x ∷ ws) y todo h = ground arith
  settle_worker-busy zero failed (idle ∷ ws) y todo h = h
  settle_worker-busy zero failed (rejected e ∷ ws) y todo h = h
  settle_worker-busy (suc i) failed (working x ∷ ws) y todo h =
      settle_worker-busy i failed ws y todo h
  settle_worker-busy (suc i) failed (idle ∷ ws) y todo h = cc
  settle_worker-busy (suc i) failed (rejected e ∷ ws) y todo h =
      settle_worker-busy i failed ws y todo h

  -- A worker returns only when no part is left.
  pub settle_worker-idle :
      (i : ℕ) (failed : Option UploadError) (ws : Workers) (todo : List ℕ)
      → (has_idle ws ≡ true → todo ≡ [])
      → has_idle (settle_worker throws i failed ws todo).0 ≡ true
      → (settle_worker throws i failed ws todo).1 ≡ []
  settle_worker-idle i failed ws [] k h = settle_worker-nil i failed ws
  settle_worker-idle i failed ws (y ∷ todo) k h = elim (Bool-cases (has_idle ws)) [
    | inl e ↦ absurd (cc (k e))
    | inr e ↦ absurd (cc (settle_worker-busy i failed ws y todo e))
  ]

  pub settle_worker-staffed :
      (i : ℕ) (failed : Option UploadError) (ws : Workers) (todo : List ℕ)
      → (todo ≡ []) ⊎ (0 < length ws)
      → ((settle_worker throws i failed ws todo).1 ≡ [])
        ⊎ (0 < length (settle_worker throws i failed ws todo).0)
  settle_worker-staffed i failed ws todo (inl e) = inl (rw e (settle_worker-nil i failed ws))
  settle_worker-staffed i failed ws todo (inr h) =
      inr (rw (length-settle_worker throws i failed ws todo) h)

  works-append : (m : ℕ) (ws vs : Workers) → works m (ws ++ vs) ≡ (works m ws || works m vs)
  works-append m [] vs = refl
  works-append m (working n ∷ ws) vs = ground (arith, works-append m ws vs)
  works-append m (idle ∷ ws) vs = works-append m ws vs
  works-append m (rejected e ∷ ws) vs = works-append m ws vs

  broken-append : (ws vs : Workers) → broken (ws ++ vs) ≡ (broken ws || broken vs)
  broken-append [] vs = refl
  broken-append (working n ∷ ws) vs = broken-append ws vs
  broken-append (idle ∷ ws) vs = broken-append ws vs
  broken-append (rejected e ∷ ws) vs = refl

  has_idle-append : (ws vs : Workers) → has_idle (ws ++ vs) ≡ (has_idle ws || has_idle vs)
  has_idle-append [] vs = refl
  has_idle-append (working n ∷ ws) vs = has_idle-append ws vs
  has_idle-append (idle ∷ ws) vs = refl
  has_idle-append (rejected e ∷ ws) vs = has_idle-append ws vs

  pub start_workers-accounted :
      (k : ℕ) (todo : List ℕ) (ws : Workers) (m : ℕ)
      → accounted m ws todo ≡ true
      → accounted m (start_workers throws k todo ws).workers (start_workers throws k todo ws).todo
        ≡ true
  unfolding start_workers
  start_workers-accounted zero todo ws m h = h
  start_workers-accounted (suc k) [] ws m h =
      start_workers-accounted k [] (ws ++ idle ∷ []) m
        (ground (arith, works-append m ws (idle ∷ []), broken-append ws (idle ∷ [])))
  start_workers-accounted (suc k) (y ∷ todo) ws m h =
      let w = begin_item throws y in
      start_workers-accounted k todo (ws ++ w ∷ []) m
        (ground (arith, works-append m ws (w ∷ []), broken-append ws (w ∷ [])))

  pub start_workers-held :
      (k : ℕ) (todo : List ℕ) (ws : Workers) (m : ℕ)
      → held m (start_workers throws k todo ws).workers (start_workers throws k todo ws).todo ≡ true
      → held m ws todo ≡ true
  unfolding start_workers
  start_workers-held zero todo ws m h = h
  start_workers-held (suc k) [] ws m h =
      let before = start_workers-held k [] (ws ++ idle ∷ []) m h in
      ground (arith, works-append m ws (idle ∷ []))
  start_workers-held (suc k) (y ∷ todo) ws m h =
      let w = begin_item throws y in
      let before = start_workers-held k todo (ws ++ w ∷ []) m h in
      ground (arith, works-append m ws (w ∷ []))

  pub start_workers-busy :
      (k : ℕ) (todo : List ℕ) (ws : Workers)
      → k ≤ length todo
      → has_idle ws ≡ false
      → has_idle (start_workers throws k todo ws).workers ≡ false
  unfolding start_workers
  start_workers-busy zero todo ws h b = b
  start_workers-busy (suc k) [] ws h b = absurd (omega arith)
  start_workers-busy (suc k) (y ∷ todo) ws h b =
      let w = begin_item throws y in
      start_workers-busy k todo (ws ++ w ∷ []) (omega arith)
        (ground (arith, has_idle-append ws (w ∷ [])))

-- What the end of the pool means: nothing is awaited, and without a rejection someone returned.
pub works_at_end : (ws : Workers) (m : ℕ) → in_flight ws ≡ 0 → works m ws ≡ false
works_at_end [] m h = refl
works_at_end (working n ∷ ws) m h = absurd (omega arith)
works_at_end (idle ∷ ws) m h = works_at_end ws m h
works_at_end (rejected e ∷ ws) m h = works_at_end ws m h

pub broken_of_none : (ws : Workers) → first_rejection ws ≡ none → broken ws ≡ false
broken_of_none [] h = refl
broken_of_none (working n ∷ ws) h = broken_of_none ws h
broken_of_none (idle ∷ ws) h = broken_of_none ws h
broken_of_none (rejected e ∷ ws) h = cc

pub idle_at_end :
    (ws : Workers)
    → in_flight ws ≡ 0
    → first_rejection ws ≡ none
    → 0 < length ws
    → has_idle ws ≡ true
idle_at_end [] h r s = elim s [ ]
idle_at_end (working n ∷ ws) h r s = absurd (omega arith)
idle_at_end (idle ∷ ws) h r s = refl
idle_at_end (rejected e ∷ ws) h r s = cc

pub works-part_of : (i : ℕ) (ws : Workers) (n : ℕ) → part_of i ws ≡ some n → works n ws ≡ true
works-part_of i [] n h = cc
works-part_of zero (working x ∷ ws) n h = ground arith
works-part_of zero (idle ∷ ws) n h = cc
works-part_of zero (rejected e ∷ ws) n h = cc
works-part_of (suc i) (working x ∷ ws) n h = ground (arith, works-part_of i ws n h)
works-part_of (suc i) (idle ∷ ws) n h = works-part_of i ws n h
works-part_of (suc i) (rejected e ∷ ws) n h = works-part_of i ws n h
