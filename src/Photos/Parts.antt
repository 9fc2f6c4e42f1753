-- ===== src/Photos/Parts.antt =====
-- The arithmetic of a multipart upload in apps/web/src/features/photos/uploader.ts: the parts that
-- a file is cut into, the parts still missing, and the batches in which their URLs are asked for.
pub mod Cover
pub mod Batches
use cloud_photo_delivery.Prelude.{
  ℕ, zero, suc, ◌+◌, ◌-◌, ◌*◌, min, max, Bool, true, false, ◌||◌, List, [], ◌∷◌, ◌==◌,
  if◌then◌else◌, ceil_div, take, drop, any, length,
}

abbrev pub default_part_size : ℕ
default_part_size = 10 * 1024 * 1024

abbrev pub part_concurrency : ℕ
part_concurrency = 3

abbrev pub part_url_batch : ℕ
part_url_batch = 100

-- `Math.max(1, Math.ceil(file.size / partSize))`
unfoldable pub total_parts : ℕ → ℕ → ℕ
total_parts size part_size = max 1 (ceil_div size part_size)

-- `set.has(n)`
abbrev pub has_part : List ℕ → ℕ → Bool
has_part uploaded n = any (λ m. m == n) uploaded

-- The loop `for (let n = 1; n <= totalParts; n += 1)` from `n` on, with `left` rounds to go.
unfoldable pub missing_from : List ℕ → ℕ → ℕ → List ℕ
missing_from uploaded n zero = []
missing_from uploaded n (suc left) =
    if has_part uploaded n
    then missing_from uploaded (n + 1) left
    else n ∷ missing_from uploaded (n + 1) left

unfoldable pub missing_parts : List ℕ → ℕ → List ℕ
unfolding missing_from
missing_parts uploaded total = missing_from uploaded 1 total

-- The bytes `[start, end)` that part `n` sends: `file.slice((n - 1) * partSize, …)`.
unfoldable pub slice_start : ℕ → ℕ → ℕ
slice_start part_size n = (n - 1) * part_size

unfoldable pub slice_end : ℕ → ℕ → ℕ → ℕ
slice_end size part_size n = min (n * part_size) size

-- `completedBytes`. A part that starts behind the end of the file counts 0 here and negatively in the
-- source: there is one only where the part size has grown since the part was uploaded.
unfoldable pub completed_bytes : ℕ → ℕ → List ℕ → ℕ
completed_bytes size part_size [] = 0
completed_bytes size part_size (n ∷ uploaded) =
    min part_size (size - (n - 1) * part_size) + completed_bytes size part_size uploaded

-- `chunk`, with fuel for its rounds.
unfoldable pub chunk_from {ℓ} : {A : Type ℓ} → ℕ → List A → ℕ → List (List A)
chunk_from zero items size = []
chunk_from (suc fuel) [] size = []
chunk_from (suc fuel) (x ∷ items) size =
    take size (x ∷ items) ∷ chunk_from fuel (drop size (x ∷ items)) size

-- As many rounds as there are items are enough for a positive size.
unfoldable pub chunk {ℓ} : {A : Type ℓ} → List A → ℕ → List (List A)
unfolding chunk_from
chunk items size = chunk_from (length items) items size
