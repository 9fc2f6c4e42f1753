-- ===== src/Photos/Parts/Cover.antt =====
-- The byte ranges of the parts, and the numbers of those that are missing.
use cloud_photo_delivery.Prelude.{
  ℕ, zero, suc, ◌+◌, ◌-◌, ◌*◌, ◌/◌, ◌%◌, ◌≤◌, ◌<◌, ◌≡◌, ap, Bool-cases, inl, inr, List, [], arith,
  min, max, leb, ltb, ◌&&◌, not, ◌==◌, if◌then◌else◌,
}
use native.Mathlib.Nat.{mod-lt, div-add-mod}
use cloud_photo_delivery.Photos.Parts.{
  total_parts, slice_start, slice_end, completed_bytes, missing_from, missing_parts, has_part,
}

mul_mono : (a b p : ℕ) → a ≤ b → a * p ≤ b * p
mul_mono a b p h = grind arith

pred_mul : (a p : ℕ) → 0 < a → (a - 1) * p + p ≡ a * p
pred_mul zero p h = elim h [ ]
pred_mul (suc a) p h = let e : suc a - 1 ≡ a = omega arith in rw e (omega arith)

rounded_up :
    (q r s p : ℕ)
    → p * q + r ≡ s + p - 1
    → r < p
    → 0 < s
    → (0 < q) × ((q - 1) * p < s) × (s ≤ q * p)
rounded_up zero r s p e h k = absurd (omega arith)
rounded_up (suc q) r s p e h k =
    (omega arith, omega (arith, pred_mul (suc q) p (omega arith)), omega arith)

-- `total_parts` parts reach the end of the file, and one part fewer does not.
total_parts_bounds :
    (size part_size : ℕ)
    → 0 < size
    → 0 < part_size
    → (0 < total_parts size part_size)
      × ((total_parts size part_size - 1) * part_size < size)
      × (size ≤ total_parts size part_size * part_size)
unfolding total_parts
total_parts_bounds size part_size h k =
    let q : ℕ = (size + part_size - 1) / part_size in
    let (pos, below, reach) =
      rounded_up q ((size + part_size - 1) % part_size) size part_size
        (div-add-mod (size + part_size - 1) part_size) (mod-lt (size + part_size - 1) k) h in
    let same : max 1 q ≡ q = omega arith in rw same (pos, below, reach)

-- For a file that is not empty, a positive part size and a part `n` of it: the first part starts at
-- byte 0 and every other where the part before it ends, the last part ends with the file, and
-- part `n` holds at least one byte and at most `part_size`.
pub slices_cover :
    (size part_size n : ℕ)
    → 0 < size
    → 0 < part_size
    → 0 < n
    → n ≤ total_parts size part_size
    → (slice_start part_size n ≡ (if n == 1 then 0 else slice_end size part_size (n - 1)))
      × (slice_end size part_size (total_parts size part_size) ≡ size)
      × (slice_start part_size n < slice_end size part_size n)
      × (slice_end size part_size n ≤ slice_start part_size n + part_size)
unfolding slice_start slice_end
slices_cover size part_size n h k i j =
    let (pos, last, reach) = total_parts_bounds size part_size h k in
    let t = total_parts size part_size in
    let before = mul_mono (n - 1) (t - 1) part_size (omega arith) in
    let here = pred_mul n part_size i in
    (
      elim (Bool-cases (n == 1)) [
        | inl first ↦ let e : n ≡ 1 = ground arith in rw e (omega arith)
        | inr other ↦ rw other (omega (arith, before))
      ],
      omega arith,
      omega (arith, before, here),
      omega (arith, here),
    )

has_part-missing_from :
    (uploaded : List ℕ) (n left m : ℕ)
    → has_part (missing_from uploaded n left) m
      ≡ (leb n m && ltb m (n + left) && not (has_part uploaded m))
unfolding missing_from
has_part-missing_from uploaded n zero m = ground arith
has_part-missing_from uploaded n (suc left) m = elim (Bool-cases (n == m)) [
  | inl same ↦
      let e : n ≡ m = ground arith in
      ground (arith, has_part-missing_from uploaded (n + 1) left m, ap (has_part uploaded) e)
  | inr other ↦ ground (arith, has_part-missing_from uploaded (n + 1) left m)
]

-- Part `m` is asked for exactly when it is one of the parts 1 to `total` and is not uploaded yet.
pub has_part-missing_parts :
    (uploaded : List ℕ) (total m : ℕ)
    → has_part (missing_parts uploaded total) m
      ≡ (leb 1 m && leb m total && not (has_part uploaded m))
unfolding missing_parts
has_part-missing_parts uploaded total m = ground (arith, has_part-missing_from uploaded 1 total m)

completed_bytes-missing_from :
    (size p n left : ℕ)
    → completed_bytes size p (missing_from [] (n + 1) left) + min (n * p) size
      ≡ min ((n + left) * p) size
unfolding completed_bytes missing_from
completed_bytes-missing_from size p n zero = omega arith
completed_bytes-missing_from size p n (suc left) =
    let e : n + 1 - 1 ≡ n = omega arith in
    rw e (omega (arith, completed_bytes-missing_from size p (n + 1) left))

-- For a file that is not empty and a positive part size: once every part is uploaded, the bytes
-- counted as completed are the file's size.
pub completed_bytes_all :
    (size part_size : ℕ)
    → 0 < size
    → 0 < part_size
    → completed_bytes size part_size (missing_parts [] (total_parts size part_size)) ≡ size
unfolding missing_parts
completed_bytes_all size part_size h k = omega (
  arith,
  completed_bytes-missing_from size part_size 0 (total_parts size part_size),
  (total_parts_bounds size part_size h k).2,
)
