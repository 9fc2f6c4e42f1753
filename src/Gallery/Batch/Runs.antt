-- ===== src/Gallery/Batch/Runs.antt =====
-- A batched fetcher in use: calls, the timer, and answers, in any order.
use cloud_photo_delivery.Prelude.{
  ℕ, ◌+◌, ◌<◌, ◌≡◌, refl, ap, sym, ◌∙◌, String, Bool, true, false, List, [], ◌∷◌, ltb, ◌==◌,
  if◌then◌else◌, arith, inl, inr, ◌⊎◌,
}
use cloud_photo_delivery.Gallery.Variant.{UrlVariant}
use cloud_photo_delivery.Gallery.Batch.{Batcher, BatchReply, flush, schedule, fetch, dispatched}
use cloud_photo_delivery.Gallery.Batch.Settled.{
  places, count_settled, places-flush, places-schedule, places-put, places-dispatched,
}

pub data Event (E : Type 0) : Type 0 where
  asks : String → UrlVariant → Event E
  timer_fires : Event E
  answered : ℕ → BatchReply E → Event E

-- A timer that is not set does not fire.
unfoldable pub on_event : {E : Type 0} → Event E → Batcher E → Batcher E
on_event (asks photo_id variant) b = fetch photo_id variant b
on_event timer_fires b = if b.timer then flush b else b
on_event (answered i reply) b = dispatched i reply b

unfoldable pub run : {E : Type 0} → List (Event E) → Batcher E → Batcher E
run [] b = b
run (e ∷ es) b = run es (on_event e b)

abbrev pub new_batcher : {E : Type 0} → ℕ → Batcher E
new_batcher max_batch_size = record {
  max_batch_size = max_batch_size;
  pending = [];
  timer = false;
  batches = [];
  settled = [];
  next_waiter = 0;
}

record IsSound {E : Type 0} (size : ℕ) (b : Batcher E) : Type 0 where
  sized : b.max_batch_size ≡ size
  placed : (w : ℕ) → places w b ≡ (if ltb w b.next_waiter then 1 else 0)
  timed : (b.timer ≡ true) ⊎ (b.pending ≡ [])

ltb-zero : (w : ℕ) → ltb w 0 ≡ false
ltb-zero w = ground arith

ltb-one : (w n : ℕ) → w < n → ltb w n ≡ true
ltb-one w n h = ground arith

places-idle :
    {E : Type 0} (w : ℕ) (b : Batcher E)
    → b.pending ≡ []
    → b.batches ≡ []
    → places w b ≡ count_settled w b.settled
places-idle w b idle none_open = rw (idle, none_open) (omega arith)

ltb-suc :
    (w n : ℕ)
    → (if ltb w (n + 1) then 1 else 0) ≡ (if n == w then 1 else 0) + (if ltb w n then 1 else 0)
ltb-suc w n = ground arith

module _ {E : Type 0} {size : ℕ} (pos : 0 < size) where
  flush-IsSound : (b : Batcher E) → IsSound size b → IsSound size (flush b)
  unfolding flush
  flush-IsSound b s = record {
    sized = s.sized;
    placed = λ w. places-flush w b (omega (arith, s.sized)) ∙ s.placed w;
    timed = inr refl;
  }

  schedule_timed : (b : Batcher E) → ((schedule b).timer ≡ true) ⊎ ((schedule b).pending ≡ [])
  unfolding schedule flush
  schedule_timed b = ground arith

  schedule_frame :
      (b : Batcher E)
      → ((schedule b).max_batch_size ≡ b.max_batch_size)
        × ((schedule b).next_waiter ≡ b.next_waiter)
  unfolding schedule flush
  schedule_frame b = ground arith

  schedule-IsSound :
      (b : Batcher E)
      → b.max_batch_size ≡ size
      → ((w : ℕ) → places w b ≡ (if ltb w b.next_waiter then 1 else 0))
      → IsSound size (schedule b)
  schedule-IsSound b sized placed = record {
    sized = (schedule_frame b).0 ∙ sized;
    placed = λ w. rw (schedule_frame b).1 (places-schedule w b (omega (arith, sized)) ∙ placed w);
    timed = schedule_timed b;
  }

  fetch-IsSound :
      (photo_id : String) (variant : UrlVariant) (b : Batcher E)
      → IsSound size b
      → IsSound size (fetch photo_id variant b)
  unfolding fetch
  fetch-IsSound photo_id variant b s =
      schedule-IsSound _ s.sized
        (λ w. omega (arith, places-put w photo_id variant b, s.placed w, ltb-suc w b.next_waiter))

  if-IsSound :
      (t : Bool) (x y : Batcher E)
      → IsSound size x
      → IsSound size y
      → IsSound size (if t then x else y)
  if-IsSound true x y sx sy = sx
  if-IsSound false x y sx sy = sy

  on_event-IsSound : (e : Event E) (b : Batcher E) → IsSound size b → IsSound size (on_event e b)
  unfolding on_event
  on_event-IsSound (asks photo_id variant) b s = fetch-IsSound photo_id variant b s
  on_event-IsSound timer_fires b s = if-IsSound b.timer (flush b) b (flush-IsSound b s) s
  on_event-IsSound (answered i reply) b s = record {
    sized = unfold dispatched in s.sized;
    placed = λ w. places-dispatched w i reply b ∙ (unfold dispatched in s.placed w);
    timed = unfold dispatched in s.timed;
  }

  run-IsSound : (es : List (Event E)) (b : Batcher E) → IsSound size b → IsSound size (run es b)
  unfolding run
  run-IsSound [] b s = s
  run-IsSound (e ∷ es) b s = run-IsSound es (on_event e b) (on_event-IsSound e b s)

  new_batcher-IsSound : IsSound size (new_batcher {E = E} size)
  new_batcher-IsSound = record { sized = refl; placed = λ w. rw (ltb-zero w); timed = inr refl }

-- Whatever calls, timer firings and answers have come, in any order, each caller so far stands in
-- exactly one place (an entry that is pending, a batch that is not answered, or the settled
-- promises), once, and nobody else stands anywhere; where the batch size is above 0.
pub places-run :
    {E : Type 0} (size : ℕ) (es : List (Event E)) (w : ℕ)
    → 0 < size
    → places w (run es (new_batcher size))
      ≡ (if ltb w (run es (new_batcher {E = E} size)).next_waiter then 1 else 0)
places-run size es w pos =
    (run-IsSound pos es (new_batcher size) (new_batcher-IsSound pos)).placed w

-- Once the timer is not set and every batch is answered, every caller's promise has settled exactly
-- once, where the batch size is above 0: nobody is forgotten and nobody is answered twice.
pub settles_once :
    {E : Type 0} (size : ℕ) (es : List (Event E)) (w : ℕ)
    → 0 < size
    → (run es (new_batcher {E = E} size)).timer ≡ false
    → (run es (new_batcher {E = E} size)).batches ≡ []
    → w < (run es (new_batcher {E = E} size)).next_waiter
    → count_settled w (run es (new_batcher {E = E} size)).settled ≡ 1
settles_once {E} size es w pos off none_open asked =
    let s = run-IsSound pos es (new_batcher {E = E} size) (new_batcher-IsSound pos) in
    elim s.timed [
      | inl on ↦ cc
      | inr idle ↦
          (sym (places-idle w (run es (new_batcher {E = E} size)) idle none_open)
            ∙ s.placed w
            ∙ ap (λ t. if t then 1 else 0)
                (ltb-one w (run es (new_batcher {E = E} size)).next_waiter asked))
    ]
