-- ===== src/Photos/Multipart.antt =====
-- `putMultipart` in apps/web/src/features/photos/uploader.ts, on the item that it uploads: the pool
-- that sends the parts, what each answer records, and the list that completes the upload.
pub mod Sorting
pub mod Accounts
pub mod Recorded
pub mod Complete
use cloud_photo_delivery.Prelude.{
  ℕ, zero, suc, ◌+◌, ◌-◌, ◌*◌, ◌/◌, ◌%◌, min, ◌≤◌, ◌<◌, String, Bool, true, false, Option, none,
  some, List, [], ◌∷◌, ◌++◌, map, ltb, leb, ◌==◌, if◌then◌else◌, str_eq, truthy, or_default,
  round_percent,
}
use Prim.Native.String
use Prim.Native.Char.{Char}
use cloud_photo_delivery.Photos.Item.{UploadItem, Result, ok, err}
use cloud_photo_delivery.Photos.Errors.{UploadError, plain_error}
use cloud_photo_delivery.Photos.Parts.{
  has_part, total_parts, missing_parts, completed_bytes, default_part_size, part_concurrency,
}
use cloud_photo_delivery.Photos.Pool.{Worker, working, idle, rejected, Pool, start_pool, settle}
use Sorting.{sort}

-- `map.get(n)` and `map.set(n, v)` of a `Map<number, string>`.
abbrev pub get_part : ℕ → List (ℕ × String) → Option String
get_part n [] = none
get_part n ((m, v) ∷ rest) = if m == n then some v else get_part n rest

unfoldable pub put_part : ℕ → String → List (ℕ × String) → List (ℕ × String)
put_part n v [] = (n, v) ∷ []
put_part n v ((m, w) ∷ rest) = if m == n then (n, v) ∷ rest else (m, w) ∷ put_part n v rest

-- `set.add(n)`
abbrev pub add_part : ℕ → List ℕ → List ℕ
add_part n uploaded = if has_part uploaded n then uploaded else uploaded ++ n ∷ []

-- `if (!url) throw new Error(…)`, with the part's number in decimal by `show`.
abbrev pub missing_url : (ℕ → String) → ℕ → UploadError
missing_url show n =
    plain_error (String.◌++◌ "Missing upload URL for part " (String.◌++◌ (show n) "."))

abbrev pub part_throws : (ℕ → String) → List (ℕ × String) → ℕ → Option UploadError
part_throws show urls n = if truthy (get_part n urls) then none else some (missing_url show n)

abbrev missing_etag : UploadError
missing_etag = plain_error "The storage provider did not return an upload signature (ETag)."

abbrev pub Parts : Type 0
Parts = Pool ℕ UploadError

unfoldable pub start_parts : (ℕ → String) → List (ℕ × String) → List ℕ → Parts
start_parts show urls missing = start_pool (part_throws show urls) part_concurrency missing

-- The part that worker `i` awaits.
abbrev pub part_of : ℕ → List (Worker ℕ UploadError) → Option ℕ
part_of i [] = none
part_of zero (working n ∷ ws) = some n
part_of zero (w ∷ ws) = none
part_of (suc i) (w ∷ ws) = part_of i ws

-- What a worker does with the answer to its `put`: the error that it throws, or the item with the
-- part recorded.
unfoldable pub record_part :
    ℕ → Result (Option String) → UploadItem → Option UploadError × UploadItem
record_part n (err e) item = (some e, item)
record_part n (ok none) item = (some missing_etag, item)
record_part n (ok (some etag)) item = if str_eq etag "" then (some missing_etag, item) else (
  none,
  record item {
    part_etags = put_part n etag item.part_etags;
    uploaded_parts = add_part n item.uploaded_parts;
  },
)

-- Worker `i` has its answer: it records the part, and takes the next one unless it throws.
unfoldable pub settle_part :
    (ℕ → String)
    → List (ℕ × String)
    → ℕ
    → Result (Option String)
    → Parts × UploadItem
    → Parts × UploadItem
unfolding record_part
settle_part show urls i reply (pool, item) = elim (part_of i pool.workers) [
  | none ↦ (pool, item)
  | some n ↦ (
    settle (part_throws show urls) i (record_part n reply item).0 pool,
    (record_part n reply item).1,
  )
]

-- `onProgress` of a part, over the bytes completed when it began.
unfoldable pub part_progress : ℕ → ℕ → ℕ → ℕ
part_progress size base loaded = min 99 (round_percent (base + loaded) size)

-- The list for `completeMultipart`: the uploaded parts by number, with their signatures.
unfoldable pub completed_parts : UploadItem → List (ℕ × String)
unfolding sort
completed_parts item =
    map (λ n. (n, or_default (get_part n item.part_etags) "")) (sort item.uploaded_parts)
