-- ===== src/Gallery/Batch/Serves/Laws.antt =====
-- What the callers of the batched fetcher are given.
use cloud_photo_delivery.Prelude.{
  ℕ, zero, suc, ◌<◌, ◌≡◌, refl, ap, sym, ◌∙◌, String, Bool, true, false, Option, none, List, [],
  ◌∷◌, length, get_elem?, All, All-append, All-map, any, if◌then◌else◌, ◌⊎◌, arith, get, get-put,
  values, str_eq, eq_iff, eq_refl, inl, inr, Option-cases, Bool-cases,
}
use cloud_photo_delivery.Gallery.Variant.{UrlVariant}
use cloud_photo_delivery.Gallery.UrlCache.{SignedUrl}
use cloud_photo_delivery.Gallery.Batch.{
  PendingEntry, Outcome, Batcher, flush, schedule, settle_waiters, settle_ok, settle_error,
  entries_at, without_batch, outcome_of, rejected_with, group, cut_groups,
}
use cloud_photo_delivery.Gallery.Batch.Serves.{
  Calls, sign_all, sign_batch, AskedFor, PendingOk, InGroup, BatchOk, IsServed,
}
use cloud_photo_delivery.Gallery.Batch.Serves.Moves.{
  values-EntryOk, group-BatchOk, cut_groups-BatchOk,
}

pub record IsServing {E : Type 0} (serve : String → UrlVariant → Option SignedUrl) (calls : Calls)
    (b : Batcher E) : Type 0 where
  pub sized : 0 < b.max_batch_size
  pub counted : b.next_waiter ≡ length calls
  pub pending : All (PendingOk calls) b.pending
  pub batches : All (BatchOk calls) b.batches
  pub settled : All (IsServed serve calls) b.settled

module _ (serve : String → UrlVariant → Option SignedUrl) (v : UrlVariant) where
  -- The answer to a batch holds what the service says of each of its photos.
  get-sign_all :
      (photo_id : String) (es : List PendingEntry)
      → get photo_id (sign_all serve v es)
        ≡ (if any (λ e. str_eq e.photo_id photo_id) es then serve photo_id v else none)
  unfolding get
  get-sign_all photo_id [] = refl
  get-sign_all photo_id (e ∷ es) = elim (Bool-cases (str_eq e.photo_id photo_id)) [
    | inl t ↦
        let same : e.photo_id ≡ photo_id = ground (arith, eq_iff e.photo_id photo_id) in
        elim (Option-cases (serve e.photo_id v)) [
          | inl n ↦ ground (arith, get-sign_all photo_id es, ap (λ p. serve p v) same)
          | inr (r, s) ↦
              ground (
                arith,
                get-put e.photo_id photo_id r (sign_all serve v es),
                ap (λ p. serve p v) same,
              )
        ]
    | inr t ↦ elim (Option-cases (serve e.photo_id v)) [
      | inl n ↦ ground (arith, get-sign_all photo_id es)
      | inr (r, s) ↦
          ground
            (arith, get-put e.photo_id photo_id r (sign_all serve v es), get-sign_all photo_id es)
    ]
  ]

  abbrev IsAmong : List PendingEntry → PendingEntry → Type 0
  IsAmong es e = any (λ x. str_eq x.photo_id e.photo_id) es ≡ true

  IsAmong-all : (es : List PendingEntry) → All (IsAmong es) es
  IsAmong-all [] = tt
  IsAmong-all (e ∷ es) = (
    ground (arith, eq_refl e.photo_id),
    All-map (IsAmong es) (IsAmong (e ∷ es)) es (λ x h. ground (arith, h)) (IsAmong-all es),
  )

module _ (E : Type 0) (serve : String → UrlVariant → Option SignedUrl) (calls : Calls) where
  settle_waiters-IsServed :
      (photo_id : String) (variant : UrlVariant) (o : Outcome E) (ws : List ℕ)
      → All (AskedFor calls photo_id variant) ws
      → ((o ≡ outcome_of (serve photo_id variant)) ⊎ ((x : E) × (o ≡ rejected_with x)))
      → All (IsServed serve calls) (settle_waiters o ws)
  settle_waiters-IsServed photo_id variant o [] h k = tt
  settle_waiters-IsServed photo_id variant o (w ∷ ws) h k =
      ((photo_id, variant, h.0, k), settle_waiters-IsServed photo_id variant o ws h.1 k)

  settle_ok-IsServed :
      (v : UrlVariant) (all_of es : List PendingEntry)
      → All (IsAmong serve v all_of) es
      → All (InGroup calls v) es
      → All (IsServed {E = E} serve calls) (settle_ok (sign_all serve v all_of) es)
  unfolding settle_ok
  settle_ok-IsServed v all_of [] a h = tt
  settle_ok-IsServed v all_of (e ∷ es) a h =
      let own =
        get-sign_all serve v e.photo_id all_of
        ∙ ap (λ t. if t then serve e.photo_id v else none) a.0
        ∙ ap (serve e.photo_id) (sym h.0.0) in
      All-append (IsServed serve calls)
        (settle_waiters (outcome_of (get e.photo_id (sign_all serve v all_of))) e.waiters)
        (settle_ok (sign_all serve v all_of) es)
        (settle_waiters-IsServed e.photo_id e.variant
          (outcome_of (get e.photo_id (sign_all serve v all_of))) e.waiters h.0.1
          (inl (ap (outcome_of {E = E}) own)))
        (settle_ok-IsServed v all_of es a.1 h.1)

  settle_error-IsServed :
      (v : UrlVariant) (x : E) (es : List PendingEntry)
      → All (InGroup calls v) es
      → All (IsServed serve calls) (settle_error x es)
  unfolding settle_error
  settle_error-IsServed v x [] h = tt
  settle_error-IsServed v x (e ∷ es) h =
      All-append (IsServed serve calls) (settle_waiters (rejected_with x) e.waiters)
        (settle_error x es)
        (settle_waiters-IsServed e.photo_id e.variant (rejected_with x) e.waiters h.0.1
          (inr (x, refl)))
        (settle_error-IsServed v x es h.1)

  -- The answer of the service, and an error, for the batch at a place.
  pub serves-IsServed :
      (i : ℕ) (bs : List (UrlVariant × List PendingEntry))
      → All (BatchOk calls) bs
      → All
          (IsServed {E = E} serve calls)
          (settle_ok (sign_batch serve (get_elem? bs i)) (entries_at i bs))
  serves-IsServed i [] h = unfold settle_ok in tt
  serves-IsServed zero ((v, es) ∷ bs) h = settle_ok-IsServed v es es (IsAmong-all serve v es) h.0
  serves-IsServed (suc i) (x ∷ bs) h = serves-IsServed i bs h.1

  pub fails-IsServed :
      (i : ℕ) (x : E) (bs : List (UrlVariant × List PendingEntry))
      → All (BatchOk calls) bs
      → All (IsServed serve calls) (settle_error x (entries_at i bs))
  fails-IsServed i x [] h = unfold settle_error in tt
  fails-IsServed zero x ((v, es) ∷ bs) h = settle_error-IsServed v x es h.0
  fails-IsServed (suc i) x (b ∷ bs) h = fails-IsServed i x bs h.1

  pub without_batch-BatchOk :
      (i : ℕ) (bs : List (UrlVariant × List PendingEntry))
      → All (BatchOk calls) bs
      → All (BatchOk calls) (without_batch i bs)
  without_batch-BatchOk i [] h = tt
  without_batch-BatchOk zero (b ∷ bs) h = h.1
  without_batch-BatchOk (suc i) (b ∷ bs) h = (h.0, without_batch-BatchOk i bs h.1)

  pub flush-IsServing : (b : Batcher E) → IsServing serve calls b → IsServing serve calls (flush b)
  unfolding flush
  flush-IsServing b s = record {
    sized = s.sized;
    counted = s.counted;
    pending = tt;
    batches =
        All-append (BatchOk calls) b.batches
          (cut_groups b.max_batch_size (group (values b.pending) [])) s.batches
          (cut_groups-BatchOk calls b.max_batch_size (group (values b.pending) []) s.sized (
            group-BatchOk calls (values b.pending) [] (values-EntryOk calls b.pending s.pending)
              tt));
    settled = s.settled;
  }

  pub if-IsServing :
      (t : Bool) (x y : Batcher E)
      → IsServing serve calls x
      → IsServing serve calls y
      → IsServing serve calls (if t then x else y)
  if-IsServing true x y h k = h
  if-IsServing false x y h k = k

  pub schedule-IsServing :
      (b : Batcher E) → IsServing serve calls b → IsServing serve calls (schedule b)
  unfolding schedule
  schedule-IsServing b s = if-IsServing _ (flush b) _ (flush-IsServing b s) (record {
    sized = s.sized;
    counted = s.counted;
    pending = s.pending;
    batches = s.batches;
    settled = s.settled;
  })
