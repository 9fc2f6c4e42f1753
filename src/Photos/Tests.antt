-- ===== src/Photos/Tests.antt =====
-- Runs of the parts of an upload on small data.
use cloud_photo_delivery.Prelude.{
  ◌↔◌, filter, false, ℕ, ◌+◌, ◌-◌, ◌<◌, ◌≤◌, ◌≡◌, ◌≢◌, ◌∷◌, ◌&&◌, ◌||◌, ◌==◌, [], not, refl, map,
  String, true, Option, none, some, List, leb, min, if◌then◌else◌, arith, length, All, is_some,
  show, ltb,
}
use cloud_photo_delivery.Query.Kept.{Kept, kept_cache}
use cloud_photo_delivery.Photos.Api
use cloud_photo_delivery.Photos.Api.{PhotoPages, on_mutate, on_error}
use cloud_photo_delivery.Photos.Api.Laws.{on_error-on_mutate}
use cloud_photo_delivery.Photos.Schema.{simple}
use cloud_photo_delivery.Photos.Errors.{UploadError, abort_error}
use cloud_photo_delivery.Photos.Parts.{
  total_parts, slice_start, slice_end, missing_parts, missing_from, has_part,
}
use cloud_photo_delivery.Photos.Parts.Cover.{slices_cover}
use cloud_photo_delivery.Photos.Registry.{Entry, Storage, junk, entry, array, read_all}
use cloud_photo_delivery.Photos.Dropzone.{
  drop_error, Entries, one, entry, directory, file_entry, batch, last, is_photo_like, handle_drop,
}
use cloud_photo_delivery.Photos.Schema.{FileDescriptor}
use cloud_photo_delivery.Photos.Dropzone.Names.{IsPhoto}
use cloud_photo_delivery.Photos.Dropzone.Laws.{
  all_readable, all_in_order, drop_of, unreadable_message, handle_drop_lem,
}
use cloud_photo_delivery.Photos.Registry.Table.{
  Operation, upserts, removes, lists, HasUniqueKeys, operate_all, specify_all, table_of,
  operate_all_refines,
}
use cloud_photo_delivery.Photos.Transport.{loads, result_of}
use cloud_photo_delivery.Photos.Transport.Laws.{
  is_ok, is_retried, is_abort, is_load, is_lost, is_aborts, result_of_lem,
}
use cloud_photo_delivery.Photos.Pool.{
  start_pool, start_workers, take_next, settle, settle_worker, at_work, in_flight, first_rejection,
}
use cloud_photo_delivery.Photos.Pool.Laws.{pool_bounds, pending}
use cloud_photo_delivery.Photos.Item.{UploadItem, Result, ok, new_item}
use cloud_photo_delivery.Photos.Multipart.{
  Parts, start_parts, settle_part, put_part, record_part, completed_parts,
}
use cloud_photo_delivery.Photos.Multipart.Sorting.{range_from}
use cloud_photo_delivery.Photos.Multipart.Recorded.{IsRecorded, record_part-IsRecorded}
use cloud_photo_delivery.Photos.Multipart.Complete.{run_parts, completed_parts_lem}

abbrev seven : List ℕ
seven = 1 ∷ 2 ∷ 3 ∷ 4 ∷ 5 ∷ 6 ∷ 7 ∷ []

three_parts : 3 ≤ total_parts 12 5
unfolding total_parts
three_parts = omega arith

slices_cover_example :
    (slice_start 5 3 ≡ (if 3 == 1 then 0 else slice_end 12 5 (3 - 1)))
    × (slice_end 12 5 (total_parts 12 5) ≡ 12)
    × (slice_start 5 3 < slice_end 12 5 3)
    × (slice_end 12 5 3 ≤ slice_start 5 3 + 5)
slices_cover_example = slices_cover 12 5 3 (omega arith) (omega arith) (omega arith) three_parts

abbrev entry_of_key : String → ℕ → Entry
entry_of_key key updated_at = record {
  key = key;
  event_id = "wedding";
  photo_id = none;
  upload_kind = some simple;
  filename = "a.jpg";
  updated_at = updated_at;
}

abbrev local : Option Storage
local = some (record {
  stored = array (junk ∷ entry (entry_of_key "old" 5) ∷ entry (entry_of_key "new" 90_000_000) ∷ []);
  writable = true;
})

-- A new storage, and operations in which an entry is listed when it is stale.
abbrev empty_storage : Option Storage
empty_storage = some (record { stored = array []; writable = true })

abbrev a_day : List Operation
a_day =
    upserts (entry_of_key "old" 5)
    ∷ upserts (entry_of_key "new" 90_000_000)
    ∷ lists "wedding" 100_000_000
    ∷ removes "new"
    ∷ []

empty_storage-HasUniqueKeys : HasUniqueKeys (read_all empty_storage)
unfolding read_all
empty_storage-HasUniqueKeys = tt

operate_all_refines_example :
    table_of (operate_all a_day empty_storage) "old"
    ≡ specify_all a_day (table_of empty_storage) "old"
operate_all_refines_example =
    operate_all_refines a_day empty_storage "old" refl empty_storage-HasUniqueKeys

-- Two workers on three items; the first worker's item fails.
abbrev three : List ℕ
three = 1 ∷ 2 ∷ 3 ∷ []

abbrev never : ℕ → Option UploadError
never n = none

abbrev two_of_three : Parts
two_of_three = start_pool never 2 three

two_at_work : at_work 0 two_of_three.workers ≡ true
unfolding start_pool start_workers take_next
two_at_work = refl

pool_bounds_example :
    (length (start_pool never 2 three).workers ≡ min 2 (length three))
    × (in_flight (start_pool never 2 three).workers ≤ 2)
    × (length (settle never 0 (some abort_error) two_of_three).workers
        ≡ length two_of_three.workers)
    × (pending
          (settle never 0 (some abort_error) two_of_three).workers
          (settle never 0 (some abort_error) two_of_three).todo
        < pending two_of_three.workers two_of_three.todo)
pool_bounds_example = pool_bounds never 2 0 three (some abort_error) two_of_three two_at_work

-- An upload of two parts, the second of which is answered first.
abbrev photo : UploadItem
photo = new_item "k" (record { name = "a.jpg"; type = "image/jpeg"; size = 12 })

photo-IsRecorded : (total : ℕ) → IsRecorded total photo
unfolding new_item
photo-IsRecorded total = record {
  distinct = tt;
  ranged = λ m h. ground arith;
  signed = λ m h. ground arith;
}

record_part-IsRecorded_example :
    IsRecorded 2 (record_part 2 (ok (some "etag")) photo).1
    × (has_part (record_part 2 (ok (some "etag")) photo).1.uploaded_parts 2 ≡ (
        (2 == 2 && not (is_some (record_part 2 (ok (some "etag")) photo).0))
        || has_part photo.uploaded_parts 2))
record_part-IsRecorded_example =
    record_part-IsRecorded 2 2 2 (ok (some "etag")) photo refl (photo-IsRecorded 2)

abbrev part_urls_of : List (ℕ × String)
part_urls_of = (1, "https://s3/1") ∷ (2, "https://s3/2") ∷ []

abbrev replies_of : List (ℕ × Result (Option String))
replies_of = (1, ok (some "e2")) ∷ (0, ok (some "e1")) ∷ []

abbrev two_parts : Parts × UploadItem
two_parts =
    run_parts show part_urls_of replies_of
      (start_parts show part_urls_of (missing_parts photo.uploaded_parts 2), photo)

two_parts_done : (in_flight two_parts.0.workers ≡ 0) × (first_rejection two_parts.0.workers ≡ none)
unfolding run_parts start_parts start_pool start_workers take_next settle_part settle settle_worker
    record_part new_item missing_parts missing_from put_part
two_parts_done = (refl, refl)

completed_parts_lem_example :
    (map (λ p. p.0) (completed_parts two_parts.1) ≡ range_from 1 2)
    × All (λ p. p.1 ≢ "") (completed_parts two_parts.1)
completed_parts_lem_example =
    completed_parts_lem show part_urls_of 2 photo two_parts.1 two_parts.0 replies_of
      (photo-IsRecorded 2) refl two_parts_done.0 two_parts_done.1

result_of_lem_example :
    (is_ok (result_of (loads 503 none)) ≡ is_load (loads 503 none) (λ s. leb 200 s && ltb s 300))
    × (is_retried (result_of (loads 503 none)) ≡ (
        is_lost (loads 503 none)
        || is_load (loads 503 none) (λ s. s == 0 || s == 429 || leb 500 s)))
    × (is_abort (result_of (loads 503 none)) ≡ is_aborts (loads 503 none))
result_of_lem_example = result_of_lem (loads 503 none)

-- The request is lost, and then the user cancels.

-- Two lists that show a photo, which is removed.
abbrev shown : PhotoPages
shown = record {
  pages =
      record {
        items =
            record { id = "p1"; status = Api.ready }
            ∷ record { id = "p2"; status = Api.processing }
            ∷ [];
        next_cursor = none;
      }
      ∷ [];
  page_params = none ∷ [];
}

abbrev two_lists : Kept PhotoPages
two_lists = record { keys = "e1/all" ∷ "e1/READY" ∷ []; held = λ k. some shown }

on_error-on_mutate_example :
    (let x = on_mutate kept_cache "p1" two_lists in
      kept_cache.data_at "e1/all" (on_error kept_cache x.1 x.0)
      ≡ kept_cache.data_at "e1/all" two_lists)
on_error-on_mutate_example = on_error-on_mutate kept_cache "p1" "e1/all" two_lists

-- A folder with a photo and a text, and a photo beside it.
abbrev dropped : Entries
dropped =
    entry
      (directory (
        batch
          (entry (file_entry (some (record { name = "a.JPG"; type = ""; size = 5 })))
            (one (file_entry (some (record { name = "b.txt"; type = "text/plain"; size = 5 })))))
          last))
      (one (file_entry (some (record { name = "c"; type = "image/png"; size = 5 }))))

-- A photo by the ending of its name alone.
abbrev scan : FileDescriptor
scan = record { name = "scan.Jpeg"; type = ""; size = 7 }

handle_drop_lem_example :
    (handle_drop false [] (some dropped) ≡ (
      if all_readable dropped
      then drop_of (filter is_photo_like (all_in_order dropped []))
      else drop_error unreadable_message))
    × ((is_photo_like scan ≡ true) ↔ IsPhoto scan)
handle_drop_lem_example = handle_drop_lem dropped scan
