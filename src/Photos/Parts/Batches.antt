-- ===== src/Photos/Parts/Batches.antt =====
-- The batches of `chunk`.
use cloud_photo_delivery.Prelude.{
  ℕ, zero, suc, ◌≤◌, ◌<◌, ◌≡◌, refl, ap, ◌∙◌, List, [], ◌∷◌, ◌++◌, arith, take, drop, length, All,
  concat, length-drop, length-take, take-append-drop,
}
use cloud_photo_delivery.Photos.Parts.{chunk, chunk_from}

module _ {ℓ} {A : Type ℓ} where
  concat-chunk_from :
      (fuel : ℕ) (items : List A) (size : ℕ)
      → 0 < size
      → length items ≤ fuel
      → concat (chunk_from fuel items size) ≡ items
  unfolding chunk_from
  concat-chunk_from zero [] size h k = refl
  concat-chunk_from zero (x ∷ items) size h k = absurd (omega arith)
  concat-chunk_from (suc fuel) [] size h k = refl
  concat-chunk_from (suc fuel) (x ∷ items) size h k =
      ap (λ t. take size (x ∷ items) ++ t)
        (concat-chunk_from fuel (drop size (x ∷ items)) size h
          (omega (arith, length-drop size (x ∷ items))))
      ∙ take-append-drop size (x ∷ items)

  chunk_from-sizes :
      (fuel : ℕ) (items : List A) (size : ℕ)
      → 0 < size
      → All (λ batch. (0 < length batch) × (length batch ≤ size)) (chunk_from fuel items size)
  unfolding chunk_from
  chunk_from-sizes zero items size h = tt
  chunk_from-sizes (suc fuel) [] size h = tt
  chunk_from-sizes (suc fuel) (x ∷ items) size h = (
    (omega (arith, length-take size (x ∷ items)), omega (arith, length-take size (x ∷ items))),
    chunk_from-sizes fuel (drop size (x ∷ items)) size h,
  )

  -- For a positive size the batches, joined, are the items in their order, and every batch holds at
  -- least one item and at most `size`.
  pub chunk-partition :
      (items : List A) (size : ℕ)
      → 0 < size
      → (concat (chunk items size) ≡ items)
        × All (λ batch. (0 < length batch) × (length batch ≤ size)) (chunk items size)
  unfolding chunk
  chunk-partition items size h = (
    concat-chunk_from (length items) items size h (omega arith),
    chunk_from-sizes (length items) items size h,
  )
