-- ===== src/Photos/Multipart/Complete.antt =====
-- The pool of parts from its start to its end, and the list that completes the upload.
use cloud_photo_delivery.Prelude.{
  ℕ, ◌+◌, ◌<◌, min, ◌≡◌, refl, ap, ◌∙◌, true, false, ◌||◌, ◌&&◌, Option, none, some, List, [], ◌∷◌,
  map, length, arith, All, ◌≢◌, inl, inr, ◌⊎◌, leb, ltb, Bool-cases, Option-cases, String, truthy,
  or_default, eq_iff,
}
use mathlib.Core.Path.{subst}
use cloud_photo_delivery.Photos.Errors.{UploadError}
use cloud_photo_delivery.Photos.Item.{UploadItem, Result}
use cloud_photo_delivery.Photos.Parts.{has_part, part_concurrency, missing_parts}
use cloud_photo_delivery.Photos.Parts.Cover.{has_part-missing_parts}
use cloud_photo_delivery.Photos.Pool.{start_pool, settle, in_flight, first_rejection}
use cloud_photo_delivery.Photos.Pool.Laws.{length-start_workers}
use cloud_photo_delivery.Photos.Multipart.{
  Parts, part_of, record_part, settle_part, start_parts, part_throws, completed_parts, get_part,
}
use cloud_photo_delivery.Photos.Multipart.Recorded.{IsRecorded, in_range, record_part-IsRecorded}
use cloud_photo_delivery.Photos.Multipart.Sorting.{
  Rises-eq-range, range_from, sort, sort-Rises, has_part-sort, Rises-from_one,
}
use cloud_photo_delivery.Photos.Multipart.Accounts.{
  has_idle, accounted, held, settle_worker-accounted, settle_worker-held, settle_worker-idle,
  settle_worker-staffed, start_workers-accounted, start_workers-held, start_workers-busy,
  works-part_of, works_at_end, broken_of_none, idle_at_end,
}

record IsRunning (total : ℕ) (pool : Parts) (item : UploadItem) : Type 0 where
  recorded : IsRecorded total item
  ranged : (m : ℕ) → held m pool.workers pool.todo ≡ true → in_range total m ≡ true
  covered :
      (m : ℕ)
      → in_range total m ≡ true
      → (has_part item.uploaded_parts m || accounted m pool.workers pool.todo) ≡ true
  returned : has_idle pool.workers ≡ true → pool.todo ≡ []
  staffed : (pool.todo ≡ []) ⊎ (0 < length pool.workers)

start_pool-staffed :
    (throws : ℕ → Option UploadError) (missing : List ℕ)
    → ((start_pool throws part_concurrency missing).todo ≡ [])
      ⊎ (0 < length (start_pool throws part_concurrency missing).workers)
unfolding start_pool
start_pool-staffed throws [] = inl refl
start_pool-staffed throws (n ∷ missing) =
    let k = min part_concurrency (length (n ∷ missing)) in
    inr (omega (arith, length-start_workers throws k (n ∷ missing) []))

-- At the end of a pool without a rejection every part of the upload is recorded.
recorded_at_end :
    (total m : ℕ) (pool : Parts) (item : UploadItem)
    → IsRunning total pool item
    → in_flight pool.workers ≡ 0
    → first_rejection pool.workers ≡ none
    → has_part item.uploaded_parts m ≡ (leb 1 m && ltb m (1 + total))
recorded_at_end total m pool item r quiet clean =
    let none_left : pool.todo ≡ [] = elim r.staffed [
      | inl e ↦ e
      | inr h ↦ r.returned (idle_at_end pool.workers quiet clean h)
    ] in
    let untaken : has_part pool.todo m ≡ false = ap (λ t. has_part t m) none_left in
    elim (Bool-cases (in_range total m)) [
      | inl inside ↦ ground (
        arith,
        r.covered m inside,
        works_at_end pool.workers m quiet,
        broken_of_none pool.workers clean,
        untaken,
      )
      | inr outside ↦ ground (arith, r.recorded.ranged m)
    ]

module _ (etags : ℕ → String) where
  abbrev with_etags : List ℕ → List (ℕ × String)
  with_etags = map (λ n. (n, etags n))

  map-with_etags : (ns : List ℕ) → map (λ p. p.0) (with_etags ns) ≡ ns
  map-with_etags [] = refl
  map-with_etags (n ∷ ns) = ap (λ t. n ∷ t) (map-with_etags ns)

  All-with_etags :
      (ns : List ℕ)
      → ((m : ℕ) → has_part ns m ≡ true → etags m ≢ "")
      → All (λ p. p.1 ≢ "") (with_etags ns)
  All-with_etags [] h = tt
  All-with_etags (n ∷ ns) h = (h n (ground arith), All-with_etags ns (λ m p. h m (ground arith)))

signed_etag : (o : Option String) → truthy o ≡ true → or_default o "" ≢ ""
signed_etag none h = cc
signed_etag (some s) h = ground (arith, eq_iff s "")

module _ (show : ℕ → String) (urls : List (ℕ × String)) where
  settled :
      (total i n : ℕ) (reply : Result (Option String)) (pool : Parts) (item : UploadItem)
      → part_of i pool.workers ≡ some n
      → IsRunning total pool item
      → IsRunning total
          (settle (part_throws show urls) i (record_part n reply item).0 pool)
          (record_part n reply item).1
  unfolding settle
  settled total i n reply pool item at r =
      let throws = part_throws show urls in
      let failed = (record_part n reply item).0 in
      let here : in_range total n ≡ true =
        r.ranged n (ground (arith, works-part_of i pool.workers n at)) in
      record {
        recorded = (record_part-IsRecorded total n n reply item here r.recorded).0;
        ranged = λ m h. r.ranged m (settle_worker-held throws i failed pool.workers pool.todo m h);
        covered = λ m h. ground (
          arith,
          r.covered m h,
          settle_worker-accounted throws i failed pool.workers pool.todo n m at,
          (record_part-IsRecorded total n m reply item here r.recorded).1,
        );
        returned = settle_worker-idle throws i failed pool.workers pool.todo r.returned;
        staffed = settle_worker-staffed throws i failed pool.workers pool.todo r.staffed;
      }

  settle_part-IsRunning :
      (total i : ℕ) (reply : Result (Option String)) (pool : Parts) (item : UploadItem)
      → IsRunning total pool item
      → IsRunning total
          (settle_part show urls i reply (pool, item)).0
          (settle_part show urls i reply (pool, item)).1
  unfolding settle_part
  settle_part-IsRunning total i reply pool item r = elim (Option-cases (part_of i pool.workers)) [
    | inl e ↦ rw (e, settle_part) r
    | inr (n, e) ↦ rw (e, settle_part) (settled total i n reply pool item e r)
  ]

  -- The answers to the workers' calls of `put`, in the order in which they arrive.
  unfoldable pub run_parts :
      List (ℕ × Result (Option String)) → Parts × UploadItem → Parts × UploadItem
  unfolding settle_part
  run_parts [] state = state
  run_parts ((i, reply) ∷ replies) state = run_parts replies (settle_part show urls i reply state)

  run_parts-IsRunning :
      (total : ℕ) (replies : List (ℕ × Result (Option String))) (pool : Parts) (item : UploadItem)
      → IsRunning total pool item
      → IsRunning total (run_parts replies (pool, item)).0 (run_parts replies (pool, item)).1
  unfolding run_parts
  run_parts-IsRunning total [] pool item r = r
  run_parts-IsRunning total ((i, reply) ∷ replies) pool item r =
      let after = settle_part show urls i reply (pool, item) in
      run_parts-IsRunning total replies after.0 after.1
        (settle_part-IsRunning total i reply pool item r)

  start_parts-IsRunning :
      (total : ℕ) (item : UploadItem)
      → IsRecorded total item
      → IsRunning total (start_parts show urls (missing_parts item.uploaded_parts total)) item
  unfolding start_parts start_pool
  start_parts-IsRunning total item r =
      let throws = part_throws show urls in
      let missing = missing_parts item.uploaded_parts total in
      let k = min part_concurrency (length missing) in
      let busy = start_workers-busy throws k missing [] (omega arith) refl in
      record {
        recorded = r;
        ranged = λ m h. ground (
          arith,
          start_workers-held throws k missing [] m h,
          has_part-missing_parts item.uploaded_parts total m,
        );
        covered = λ m h. ground (
          arith,
          start_workers-accounted throws k missing [] m,
          has_part-missing_parts item.uploaded_parts total m,
        );
        returned = λ h. absurd (cc busy);
        staffed = start_pool-staffed throws missing;
      }

completed_of_running :
    (total : ℕ) (pool : Parts) (item : UploadItem)
    → IsRunning total pool item
    → in_flight pool.workers ≡ 0
    → first_rejection pool.workers ≡ none
    → (map (λ p. p.0) (completed_parts item) ≡ range_from 1 total)
      × All (λ p. p.1 ≢ "") (completed_parts item)
unfolding completed_parts
completed_of_running total pool item r quiet clean =
    let etags = λ (n : ℕ). or_default (get_part n item.part_etags) "" in
    let ns = item.uploaded_parts in
    let exact = λ (m : ℕ). has_part-sort ns m ∙ recorded_at_end total m pool item r quiet clean in
    (
      map-with_etags etags (sort ns)
          ∙ Rises-eq-range 1 total (sort ns)
              (Rises-from_one (sort ns) (sort-Rises ns r.recorded.distinct)
                (ground (arith, exact 0)))
              exact,
      All-with_etags etags (sort ns) λ m p.
          signed_etag (get_part m item.part_etags)
            (r.recorded.signed m (ground (arith, has_part-sort ns m))),
    )

-- A pool that starts with the missing parts of an item whose recorded parts are distinct, signed
-- and parts of the upload, and that ends, after any answers, with no worker at work and none
-- rejected, leaves for `completeMultipart` a list with the numbers 1 to `total` in their order,
-- and no signature in it is empty.
pub completed_parts_lem :
    (show : ℕ → String) (urls : List (ℕ × String)) (total : ℕ) (item item' : UploadItem)
    (pool : Parts) (replies : List (ℕ × Result (Option String)))
    → IsRecorded total item
    → run_parts show urls replies
        (start_parts show urls (missing_parts item.uploaded_parts total), item)
      ≡ (pool, item')
    → in_flight pool.workers ≡ 0
    → first_rejection pool.workers ≡ none
    → (map (λ p. p.0) (completed_parts item') ≡ range_from 1 total)
      × All (λ p. p.1 ≢ "") (completed_parts item')
completed_parts_lem show urls total item item' pool replies r e quiet clean =
    let start = start_parts show urls (missing_parts item.uploaded_parts total) in
    let running =
      run_parts-IsRunning show urls total replies start item
        (start_parts-IsRunning show urls total item r) in
    completed_of_running total pool item'
      (subst (λ (s : Parts × UploadItem). IsRunning total s.0 s.1) e running) quiet clean
