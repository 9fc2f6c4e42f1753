-- ===== src/Gallery/Batch/Settled.antt =====
-- Where a caller of the batched fetcher waits, counted over the state.
use cloud_photo_delivery.Prelude.{
  ℕ, zero, suc, ◌+◌, ◌<◌, ◌≡◌, refl, ap, String, Option, none, some, List, [], ◌∷◌, ◌++◌, leb, ◌==◌,
  if◌then◌else◌, Keyed, get, put, values, length, str_eq, arith, Bool-cases, inl, inr, concat,
}
use cloud_photo_delivery.Photos.Parts.{chunk}
use cloud_photo_delivery.Photos.Parts.Batches.{chunk-partition}
use cloud_photo_delivery.Gallery.Variant.{UrlVariant, key_of}
use cloud_photo_delivery.Gallery.Batch.{
  PendingEntry, Outcome, Batcher, BatchReply, urls_for, failed_with, add_to_group, group,
  with_variant, cut_groups, flush, schedule, add_waiter, settle_waiters, settle_ok, settle_error,
  settle_entries, entries_at, without_batch, dispatched, outcome_of, rejected_with,
}

-- How often a waiter stands in a list of waiters, of entries, of batches, and of outcomes.
abbrev pub count : ℕ → List ℕ → ℕ
count w [] = 0
count w (k ∷ ks) = (if k == w then 1 else 0) + count w ks

abbrev pub count_entries : ℕ → List PendingEntry → ℕ
count_entries w [] = 0
count_entries w (e ∷ es) = count w e.waiters + count_entries w es

abbrev pub count_batches : ℕ → List (UrlVariant × List PendingEntry) → ℕ
count_batches w [] = 0
count_batches w ((v, es) ∷ bs) = count_entries w es + count_batches w bs

abbrev pub count_settled : {E : Type 0} → ℕ → List (ℕ × Outcome E) → ℕ
count_settled w [] = 0
count_settled w ((k, o) ∷ ss) = (if k == w then 1 else 0) + count_settled w ss

count-append : (w : ℕ) (xs ys : List ℕ) → count w (xs ++ ys) ≡ count w xs + count w ys
count-append w [] ys = omega arith
count-append w (x ∷ xs) ys = omega (arith, count-append w xs ys)

count_entries-append :
    (w : ℕ) (xs ys : List PendingEntry)
    → count_entries w (xs ++ ys) ≡ count_entries w xs + count_entries w ys
count_entries-append w [] ys = omega arith
count_entries-append w (x ∷ xs) ys = omega (arith, count_entries-append w xs ys)

count_batches-append :
    (w : ℕ) (xs ys : List (UrlVariant × List PendingEntry))
    → count_batches w (xs ++ ys) ≡ count_batches w xs + count_batches w ys
count_batches-append w [] ys = omega arith
count_batches-append w ((v, es) ∷ xs) ys = omega (arith, count_batches-append w xs ys)

count_settled-append :
    {E : Type 0} (w : ℕ) (xs ys : List (ℕ × Outcome E))
    → count_settled w (xs ++ ys) ≡ count_settled w xs + count_settled w ys
count_settled-append w [] ys = omega arith
count_settled-append w ((k, o) ∷ xs) ys = omega (arith, count_settled-append w xs ys)

count_batches-add_to_group :
    (w : ℕ) (e : PendingEntry) (gs : List (UrlVariant × List PendingEntry))
    → count_batches w (add_to_group e gs) ≡ count w e.waiters + count_batches w gs
unfolding add_to_group
count_batches-add_to_group w e [] = omega arith
count_batches-add_to_group w e ((v, es) ∷ gs) =
    ground (arith, count_batches-add_to_group w e gs, count_entries-append w es (e ∷ []))

count_batches-group :
    (w : ℕ) (es : List PendingEntry) (gs : List (UrlVariant × List PendingEntry))
    → count_batches w (group es gs) ≡ count_entries w es + count_batches w gs
unfolding group
count_batches-group w [] gs = omega arith
count_batches-group w (e ∷ es) gs =
    omega (arith, count_batches-group w es (add_to_group e gs), count_batches-add_to_group w e gs)

count_batches-with_variant :
    (w : ℕ) (v : UrlVariant) (ess : List (List PendingEntry))
    → count_batches w (with_variant v ess) ≡ count_entries w (concat ess)
count_batches-with_variant w v [] = refl
count_batches-with_variant w v (es ∷ ess) =
    omega (arith, count_batches-with_variant w v ess, count_entries-append w es (concat ess))

count_batches-cut_groups :
    (w size : ℕ) (gs : List (UrlVariant × List PendingEntry))
    → 0 < size
    → count_batches w (cut_groups size gs) ≡ count_batches w gs
unfolding cut_groups
count_batches-cut_groups w size [] h = refl
count_batches-cut_groups w size ((v, es) ∷ gs) h = omega (
  arith,
  count_batches-append w (with_variant v (chunk es size)) (cut_groups size gs),
  count_batches-with_variant w v (chunk es size),
  ap (count_entries w) (chunk-partition es size h).0,
  count_batches-cut_groups w size gs h,
)

abbrev found : ℕ → Option PendingEntry → ℕ
found w none = 0
found w (some e) = count w e.waiters

count-put :
    (w : ℕ) (key : String) (p : PendingEntry) (m : Keyed PendingEntry)
    → count_entries w (values (put key p m)) + found w (get key m)
      ≡ count w p.waiters + count_entries w (values m)
unfolding put get
count-put w key p [] = omega arith
count-put w key p ((j, e) ∷ m) = elim (Bool-cases (str_eq j key)) [
  | inl same ↦ rw same (omega arith)
  | inr other ↦ rw other (omega (arith, count-put w key p m))
]

count-add_waiter :
    (w n : ℕ) (photo_id : String) (variant : UrlVariant) (o : Option PendingEntry)
    → count w (add_waiter n photo_id variant o).waiters ≡ (if n == w then 1 else 0) + found w o
count-add_waiter w n photo_id variant none = omega arith
count-add_waiter w n photo_id variant (some e) = omega (arith, count-append w e.waiters (n ∷ []))

count-settle_waiters :
    {E : Type 0} (w : ℕ) (o : Outcome E) (ws : List ℕ)
    → count_settled w (settle_waiters o ws) ≡ count w ws
count-settle_waiters w o [] = refl
count-settle_waiters w o (k ∷ ws) = omega (arith, count-settle_waiters w o ws)

count-settle_entries :
    {E : Type 0} (w : ℕ) (reply : BatchReply E) (es : List PendingEntry)
    → count_settled w (settle_entries reply es) ≡ count_entries w es
unfolding settle_ok settle_error
count-settle_entries w (urls_for urls) [] = refl
count-settle_entries w (failed_with x) [] = refl
count-settle_entries {E} w (urls_for urls) (e ∷ es) = omega (
  arith,
  count_settled-append w (settle_waiters (outcome_of {E = E} (get e.photo_id urls)) e.waiters)
      (settle_ok {E = E} urls es),
  count-settle_waiters w (outcome_of {E = E} (get e.photo_id urls)) e.waiters,
  count-settle_entries {E = E} w (urls_for urls) es,
)
count-settle_entries w (failed_with x) (e ∷ es) = omega (
  arith,
  count_settled-append w (settle_waiters (rejected_with x) e.waiters) (settle_error x es),
  count-settle_waiters w (rejected_with x) e.waiters,
  count-settle_entries w (failed_with x) es,
)

count_batches-without :
    (w i : ℕ) (bs : List (UrlVariant × List PendingEntry))
    → count_batches w bs ≡ count_entries w (entries_at i bs) + count_batches w (without_batch i bs)
count_batches-without w i [] = refl
count_batches-without w zero ((v, es) ∷ bs) = refl
count_batches-without w (suc i) ((v, es) ∷ bs) = omega (arith, count_batches-without w i bs)

-- In how many places a waiter stands: pending, in a batch that is not answered, or settled.
abbrev pub places : {E : Type 0} → ℕ → Batcher E → ℕ
places w b =
    count_entries w (values b.pending) + count_batches w b.batches + count_settled w b.settled

module _ {E : Type 0} where
  pub places-flush :
      (w : ℕ) (b : Batcher E) → 0 < b.max_batch_size → places w (flush b) ≡ places w b
  unfolding flush
  places-flush w b h =
      let groups = group (values b.pending) [] in
      omega (
        arith,
        count_batches-append w b.batches (cut_groups b.max_batch_size groups),
        count_batches-cut_groups w b.max_batch_size groups h,
        count_batches-group w (values b.pending) [],
      )

  pub places-schedule :
      (w : ℕ) (b : Batcher E) → 0 < b.max_batch_size → places w (schedule b) ≡ places w b
  unfolding schedule
  places-schedule w b h = elim (Bool-cases (leb b.max_batch_size (length b.pending))) [
    | inl full ↦ rw full (places-flush w b h)
    | inr room ↦ rw room
  ]

  -- A call makes one caller more.
  pub places-put :
      (w : ℕ) (photo_id : String) (variant : UrlVariant) (b : Batcher E)
      → places w (record b {
        pending =
            put
              (key_of photo_id variant)
              (add_waiter b.next_waiter photo_id variant (get (key_of photo_id variant) b.pending))
              b.pending;
        next_waiter = b.next_waiter + 1;
      })
        ≡ (if b.next_waiter == w then 1 else 0) + places w b
  places-put w photo_id variant b =
      let key = key_of photo_id variant in
      let p : PendingEntry = add_waiter b.next_waiter photo_id variant (get key b.pending) in
      omega (
        arith,
        count-put w key p b.pending,
        count-add_waiter w b.next_waiter photo_id variant (get key b.pending),
      )

  pub places-dispatched :
      (w i : ℕ) (reply : BatchReply E) (b : Batcher E)
      → places w (dispatched i reply b) ≡ places w b
  unfolding dispatched
  places-dispatched w i reply b = omega (
    arith,
    count_settled-append w b.settled (settle_entries reply (entries_at i b.batches)),
    count-settle_entries w reply (entries_at i b.batches),
    count_batches-without w i b.batches,
  )
