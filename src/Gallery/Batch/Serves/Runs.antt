-- ===== src/Gallery/Batch/Serves/Runs.antt =====
-- The batched fetcher behind a service, in use.
use mathlib.Core.Path.{subst}
use cloud_photo_delivery.Prelude.{
  append_nil, append_assoc, ℕ, ◌<◌, ◌≡◌, refl, ap, ◌∙◌, String, Option, List, [], ◌∷◌, ◌++◌,
  length-append, get_elem?, All, All-append, All-map, arith, get,
}
use cloud_photo_delivery.Gallery.Variant.{UrlVariant, key_of}
use cloud_photo_delivery.Gallery.UrlCache.{SignedUrl}
use cloud_photo_delivery.Gallery.Batch.{Batcher, flush, fetch, add_waiter, dispatched}
use cloud_photo_delivery.Gallery.Batch.Runs.{new_batcher}
use cloud_photo_delivery.Gallery.Batch.Serves.{
  ServiceEvent, asks, timer_fires, serves, fails, Calls, calls_of, on_service, run_service,
  AskedFor, PendingOk, BatchOk, IsServed, get_elem?-last, PendingOk-grows, BatchOk-grows,
  IsServed-grows,
}
use cloud_photo_delivery.Gallery.Batch.Serves.Moves.{All-put, add_waiter-PendingOk}
use cloud_photo_delivery.Gallery.Batch.Serves.Laws.{
  IsServing, serves-IsServed, fails-IsServed, without_batch-BatchOk, flush-IsServing, if-IsServing,
  schedule-IsServing,
}

module _ (E : Type 0) (serve : String → UrlVariant → Option SignedUrl) where
  fetch-IsServing :
      (photo_id : String) (variant : UrlVariant) (calls : Calls) (b : Batcher E)
      → IsServing serve calls b
      → IsServing serve (calls ++ (photo_id, variant) ∷ []) (fetch photo_id variant b)
  unfolding fetch
  fetch-IsServing photo_id variant calls b s =
      let calls' = calls ++ (photo_id, variant) ∷ [] in
      let key = key_of photo_id variant in
      let more : Calls = (photo_id, variant) ∷ [] in
      let pending =
        All-map (PendingOk calls) (PendingOk calls') b.pending (PendingOk-grows calls more)
          s.pending in
      let asked : AskedFor calls' photo_id variant b.next_waiter =
        ap (get_elem? calls') s.counted ∙ get_elem?-last calls (photo_id, variant) in
      schedule-IsServing E serve calls' _ (record {
        sized = s.sized;
        counted = omega (arith, s.counted, length-append calls more);
        pending =
            All-put (PendingOk calls') key
              (add_waiter b.next_waiter photo_id variant (get key b.pending)) b.pending pending
              (add_waiter-PendingOk calls' b.next_waiter photo_id variant b.pending asked pending);
        batches =
            All-map (BatchOk calls) (BatchOk calls') b.batches (BatchOk-grows calls more) s.batches;
        settled =
            All-map (IsServed serve calls) (IsServed serve calls') b.settled
              (IsServed-grows calls more serve) s.settled;
      })

  -- The calls after an event.
  on_service-IsServing :
      (e : ServiceEvent E) (calls : Calls) (b : Batcher E)
      → IsServing serve calls b
      → IsServing serve (calls ++ calls_of (e ∷ [])) (on_service serve e b)
  unfolding on_service
  on_service-IsServing (asks photo_id variant) calls b s =
      fetch-IsServing photo_id variant calls b s
  on_service-IsServing timer_fires calls b s =
      rw (append_nil calls)
        (if-IsServing E serve calls b.timer (flush b) b (flush-IsServing E serve calls b s) s)
  on_service-IsServing (serves i) calls b s = rw (append_nil calls) (
      unfold dispatched in
      record {
        sized = s.sized;
        counted = s.counted;
        pending = s.pending;
        batches = without_batch-BatchOk E serve calls i b.batches s.batches;
        settled =
            All-append (IsServed serve calls) b.settled _ s.settled
              (serves-IsServed E serve calls i b.batches s.batches);
      })
  on_service-IsServing (fails i x) calls b s = rw (append_nil calls) (
      unfold dispatched in
      record {
        sized = s.sized;
        counted = s.counted;
        pending = s.pending;
        batches = without_batch-BatchOk E serve calls i b.batches s.batches;
        settled =
            All-append (IsServed serve calls) b.settled _ s.settled
              (fails-IsServed E serve calls i x b.batches s.batches);
      })

  calls_of-cons :
      (e : ServiceEvent E) (es : List (ServiceEvent E))
      → calls_of (e ∷ []) ++ calls_of es ≡ calls_of (e ∷ es)
  calls_of-cons (asks photo_id variant) es = refl
  calls_of-cons timer_fires es = refl
  calls_of-cons (serves i) es = refl
  calls_of-cons (fails i x) es = refl

  run_service-IsServing :
      (es : List (ServiceEvent E)) (calls : Calls) (b : Batcher E)
      → IsServing serve calls b
      → IsServing serve (calls ++ calls_of es) (run_service serve es b)
  unfolding run_service
  run_service-IsServing [] calls b s = rw (append_nil calls) s
  run_service-IsServing (e ∷ es) calls b s =
      let after =
        run_service-IsServing es (calls ++ calls_of (e ∷ [])) (on_service serve e b)
          (on_service-IsServing e calls b s) in
      subst (λ c. IsServing serve c (run_service serve es (on_service serve e b)))
        (append_assoc calls (calls_of (e ∷ [])) (calls_of es)
          ∙ ap (λ c. calls ++ c) (calls_of-cons e es))
        after

-- The batched fetcher is the service that answers each call by itself: after any calls, timer
-- firings, answers and failures, in any order and for any batch size above 0, what a caller's
-- promise has settled with is the service's answer for the photo and the variant of that very call,
-- or the error of a batch that failed.
pub serves_each_call :
    (E : Type 0) (serve : String → UrlVariant → Option SignedUrl) (size : ℕ)
    (es : List (ServiceEvent E))
    → 0 < size
    → All (IsServed serve (calls_of es)) (run_service serve es (new_batcher size)).settled
serves_each_call E serve size es pos =
    (run_service-IsServing E serve es [] (new_batcher size)
      (record { sized = pos; counted = refl; pending = tt; batches = tt; settled = tt })).settled
