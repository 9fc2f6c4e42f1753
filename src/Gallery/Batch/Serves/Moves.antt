-- ===== src/Gallery/Batch/Serves/Moves.antt =====
-- The entries of the batched fetcher keep the calls of their waiters through every move.
use mathlib.Core.Path.{subst}
use cloud_photo_delivery.Prelude.{
  ℕ, ◌<◌, ◌≡◌, refl, ap, sym, ◌∙◌, String, true, some, List, [], ◌∷◌, All, All-append, All-concat,
  arith, Keyed, get, put, values, str_eq, eq_iff, inl, inr, Bool-cases, Option-cases,
}
use cloud_photo_delivery.Photos.Parts.{chunk}
use cloud_photo_delivery.Photos.Parts.Batches.{chunk-partition}
use cloud_photo_delivery.Gallery.Variant.{
  UrlVariant, thumbnail, medium, large, original, key_of, key_of_injective,
}
use cloud_photo_delivery.Gallery.Batch.{
  PendingEntry, add_to_group, group, same_variant, with_variant, cut_groups, add_waiter,
}
use cloud_photo_delivery.Gallery.Batch.Serves.{
  Calls, AskedFor, EntryOk, PendingOk, InGroup, BatchOk,
}

module _ {V : Type 0} (P : String × V → Type 0) where
  pub All-put : (k : String) (v : V) (m : Keyed V) → All P m → P (k, v) → All P (put k v m)
  unfolding put
  All-put k v [] h p = (p, tt)
  All-put k v ((j, w) ∷ m) h p = elim (Bool-cases (str_eq j k)) [
    | inl e ↦ rw e (p, h.1)
    | inr e ↦ rw e (h.0, All-put k v m h.1 p)
  ]

  All-get : (k : String) (v : V) (m : Keyed V) → All P m → get k m ≡ some v → P (k, v)
  unfolding get
  All-get k v [] h e = cc
  All-get k v ((j, w) ∷ m) h e = elim (Bool-cases (str_eq j k)) [
    | inl t ↦
        let same_key : j ≡ k = ground (arith, eq_iff j k) in
        let same : w ≡ v = ground arith in
        subst P (ap (λ i. (i, w)) same_key ∙ ap (λ x. (k, x)) same) h.0
    | inr t ↦ All-get k v m h.1 (ground arith)
  ]

same_variant_lem : (v w : UrlVariant) → same_variant v w ≡ true → w ≡ v
same_variant_lem thumbnail w h = ground arith
same_variant_lem medium w h = ground arith
same_variant_lem large w h = ground arith
same_variant_lem original w h = ground arith

module _ (calls : Calls) where
  pub values-EntryOk :
      (m : Keyed PendingEntry) → All (PendingOk calls) m → All (EntryOk calls) (values m)
  values-EntryOk [] h = tt
  values-EntryOk (x ∷ m) h = (h.0.1, values-EntryOk m h.1)

  add_to_group-BatchOk :
      (e : PendingEntry) (groups : List (UrlVariant × List PendingEntry))
      → EntryOk calls e
      → All (BatchOk calls) groups
      → All (BatchOk calls) (add_to_group e groups)
  unfolding add_to_group
  add_to_group-BatchOk e [] h k = (((refl, h), tt), tt)
  add_to_group-BatchOk e ((v, es) ∷ groups) h k = elim (Bool-cases (same_variant v e.variant)) [
    | inl t ↦ rw t (
      All-append (InGroup calls v) es (e ∷ []) k.0 ((same_variant_lem v e.variant t, h), tt),
      k.1,
    )
    | inr t ↦ rw t (k.0, add_to_group-BatchOk e groups h k.1)
  ]

  pub group-BatchOk :
      (es : List PendingEntry) (groups : List (UrlVariant × List PendingEntry))
      → All (EntryOk calls) es
      → All (BatchOk calls) groups
      → All (BatchOk calls) (group es groups)
  unfolding group
  group-BatchOk [] groups h k = k
  group-BatchOk (e ∷ es) groups h k =
      group-BatchOk es (add_to_group e groups) h.1 (add_to_group-BatchOk e groups h.0 k)

  with_variant-BatchOk :
      (v : UrlVariant) (ess : List (List PendingEntry))
      → All (All (InGroup calls v)) ess
      → All (BatchOk calls) (with_variant v ess)
  with_variant-BatchOk v [] h = tt
  with_variant-BatchOk v (es ∷ ess) h = (h.0, with_variant-BatchOk v ess h.1)

  pub cut_groups-BatchOk :
      (size : ℕ) (groups : List (UrlVariant × List PendingEntry))
      → 0 < size
      → All (BatchOk calls) groups
      → All (BatchOk calls) (cut_groups size groups)
  unfolding cut_groups
  cut_groups-BatchOk size [] pos h = tt
  cut_groups-BatchOk size ((v, es) ∷ groups) pos h =
      All-append (BatchOk calls) (with_variant v (chunk es size)) (cut_groups size groups)
        (with_variant-BatchOk v (chunk es size) (
          All-concat (InGroup calls v) (chunk es size)
            (subst (All (InGroup calls v)) (sym (chunk-partition es size pos).0) h.0)))
        (cut_groups-BatchOk size groups pos h.1)

  -- A call joins the entry of its own photo and variant.
  pub add_waiter-PendingOk :
      (w : ℕ) (photo_id : String) (variant : UrlVariant) (m : Keyed PendingEntry)
      → AskedFor calls photo_id variant w
      → All (PendingOk calls) m
      → let key = key_of photo_id variant in
        PendingOk calls (key, add_waiter w photo_id variant (get key m))
  add_waiter-PendingOk w photo_id variant m asked h =
      elim (Option-cases (get (key_of photo_id variant) m)) [
        | inl t ↦ rw t (refl, (asked, tt))
        | inr (e, t) ↦
            let found = All-get (PendingOk calls) (key_of photo_id variant) e m h t in
            let same = key_of_injective photo_id e.photo_id variant e.variant found.0 in
            let own : AskedFor calls e.photo_id e.variant w =
              asked ∙ ap (λ p. some (p, variant)) same.0 ∙ ap (λ v. some (e.photo_id, v)) same.1 in
            rw t (
              found.0,
              All-append (AskedFor calls e.photo_id e.variant) e.waiters (w ∷ []) found.1 (own, tt),
            )
      ]
