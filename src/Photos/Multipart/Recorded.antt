-- ===== src/Photos/Multipart/Recorded.antt =====
-- What an answer to a part's `put` records on the item.
use cloud_photo_delivery.Prelude.{
  ℕ, ◌≡◌, refl, ap, ◌∙◌, Bool, true, false, not, ◌||◌, ◌&&◌, Option, none, some, List, [], ◌∷◌,
  ◌++◌, arith, sym, inl, inr, ◌==◌, leb, Bool-cases, is_some, String, truthy, str_eq, if◌then◌else◌,
}
use cloud_photo_delivery.Photos.Item.{UploadItem, Result, ok, err}
use cloud_photo_delivery.Photos.Parts.{has_part}
use cloud_photo_delivery.Photos.Multipart.{record_part, get_part, put_part, add_part}
use cloud_photo_delivery.Photos.Multipart.Sorting.{IsDistinct}

abbrev pub in_range : ℕ → ℕ → Bool
in_range total m = leb 1 m && leb m total

-- What holds of an item whose recorded parts are parts of the upload, each once and signed.
pub record IsRecorded (total : ℕ) (item : UploadItem) : Type 0 where
  pub distinct : IsDistinct item.uploaded_parts
  pub ranged : (m : ℕ) → has_part item.uploaded_parts m ≡ true → in_range total m ≡ true
  pub signed :
      (m : ℕ) → has_part item.uploaded_parts m ≡ true → truthy (get_part m item.part_etags) ≡ true

has_part-append_one :
    (ns : List ℕ) (n m : ℕ) → has_part (ns ++ n ∷ []) m ≡ (has_part ns m || n == m)
has_part-append_one [] n m = ground arith
has_part-append_one (k ∷ ns) n m = ground (arith, has_part-append_one ns n m)

has_part-add_part : (n m : ℕ) (ns : List ℕ) → has_part (add_part n ns) m ≡ (n == m || has_part ns m)
has_part-add_part n m ns = elim (Bool-cases (has_part ns n)) [
  | inl old ↦ elim (Bool-cases (n == m)) [
    | inl same ↦
        let e : n ≡ m = ground arith in
        let there : has_part ns m ≡ true = ap (has_part ns) (sym e) ∙ old in rw (old, same) there
    | inr other ↦ rw (old, other)
  ]
  | inr new ↦ rw new (ground (arith, has_part-append_one ns n m))
]

append_one-IsDistinct :
    (n : ℕ) (ns : List ℕ) → has_part ns n ≡ false → IsDistinct ns → IsDistinct (ns ++ n ∷ [])
append_one-IsDistinct n [] h d = (refl, tt)
append_one-IsDistinct n (k ∷ ns) h d =
    (ground (arith, has_part-append_one ns n k), append_one-IsDistinct n ns (ground arith) d.1)

add_part-IsDistinct : (n : ℕ) (ns : List ℕ) → IsDistinct ns → IsDistinct (add_part n ns)
add_part-IsDistinct n ns d = elim (Bool-cases (has_part ns n)) [
  | inl old ↦ rw old d
  | inr new ↦ rw new (append_one-IsDistinct n ns new d)
]

get_part-put_part :
    (n m : ℕ) (v : String) (etags : List (ℕ × String))
    → get_part m (put_part n v etags) ≡ (if n == m then some v else get_part m etags)
unfolding put_part
get_part-put_part n m v [] = refl
get_part-put_part n m v ((k, w) ∷ etags) = ground (arith, get_part-put_part n m v etags)

-- Recording the answer for a part of the upload keeps the recorded parts distinct, within the
-- upload and signed. When it does not throw, the part is recorded, and so is every part that was.
pub record_part-IsRecorded :
    (total n m : ℕ) (reply : Result (Option String)) (item : UploadItem)
    → in_range total n ≡ true
    → IsRecorded total item
    → IsRecorded total (record_part n reply item).1
      × (has_part (record_part n reply item).1.uploaded_parts m ≡ (
          (n == m && not (is_some (record_part n reply item).0)) || has_part item.uploaded_parts m))
unfolding record_part
record_part-IsRecorded total n m (err e) item h r = (r, ground arith)
record_part-IsRecorded total n m (ok none) item h r = (r, ground arith)
record_part-IsRecorded total n m (ok (some etag)) item h r = elim (Bool-cases (str_eq etag "")) [
  | inl blank ↦ rw blank (r, ground arith)
  | inr full ↦ rw full (
    record {
      distinct = add_part-IsDistinct n item.uploaded_parts r.distinct;
      ranged = λ k p.
          ground (arith, has_part-add_part n k item.uploaded_parts, r.ranged k, range_at n k);
      signed = λ k p.
          rw (get_part-put_part n k etag item.part_etags)
            (ground (arith, has_part-add_part n k item.uploaded_parts, r.signed k));
    },
    ground (arith, has_part-add_part n m item.uploaded_parts),
  )
]
  where
    range_at : (n k : ℕ) → (n == k) ≡ true → in_range total n ≡ true → in_range total k ≡ true
    range_at n k e q = ground arith
