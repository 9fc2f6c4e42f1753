-- ===== src/Photos/Queue/Answered.antt =====
-- What follows a successful answer to `initialize`.
use cloud_photo_delivery.Prelude.{
  ℕ, true, false, some, List, [], ◌∷◌, ◌≡◌, refl, sym, ap, ◌∙◌, arith, Bool-cases, inl, inr,
  if◌then◌else◌, or_default, Bool, not, ◌&&◌, truthy, str_eq, eq_refl,
}
use mathlib.Core.Option
use cloud_photo_delivery.Photos.Schema.{FileDescriptor, UploadKind, simple, multipart}
use cloud_photo_delivery.Photos.Parts.{
  chunk, default_part_size, missing_parts, part_url_batch, total_parts,
}
use cloud_photo_delivery.Photos.Registry
use cloud_photo_delivery.Photos.Item.{UploadItem, ok}
use cloud_photo_delivery.Photos.Queue.State.{is_current}
use cloud_photo_delivery.Photos.Queue.State.{
  UploadQueue, Await, put_simple, part_urls, put_parts, complete, persist, entry_of, write,
}
use cloud_photo_delivery.Photos.Queue.Process.{
  InitializeResult, after_initialize, begin_multipart, next_urls, is_multipart, set_part_size,
}

-- The answer to `initialize` leaves the map of rows, and the key of the row.
pub is_current-after_initialize :
    (r : ℕ) (file : FileDescriptor) (init : InitializeResult) (q : UploadQueue)
    → is_current q r ≡ false
    → is_current (after_initialize r file (ok init) q).0 r ≡ false
unfolding after_initialize is_current begin_multipart
is_current-after_initialize r file init q h = ground (arith, h)

-- Whether a request is the one that follows an answer to `initialize`: the `put` to its URL; or, of
-- a multipart upload, that for the URLs of its first parts, or the pool of its parts, where none is
-- missing, or, of a photo without an id, the request that completes it.
abbrev pub follows : InitializeResult → UploadKind → Await → Bool
follows init simple (put_simple url) = str_eq url init.upload_url
follows init multipart (part_urls photo_id part_size missing batch rest urls) =
    truthy (some init.photo_id) && str_eq photo_id init.photo_id
follows init multipart (put_parts photo_id part_size urls pool) =
    truthy (some init.photo_id) && str_eq photo_id init.photo_id
follows init multipart (complete photo_id key) = not (truthy (some init.photo_id))
follows init kind await = false

follows-next_urls :
    (init : InitializeResult) (part_size : ℕ) (missing : List ℕ) (batches : List (List ℕ))
    (q : UploadQueue)
    → truthy (some init.photo_id) ≡ true
    → follows init multipart (next_urls init.photo_id part_size missing batches [] q).1 ≡ true
unfolding next_urls
follows-next_urls init part_size missing [] q named = ground (arith, named, eq_refl init.photo_id)
follows-next_urls init part_size missing (batch ∷ rest) q named =
    ground (arith, named, eq_refl init.photo_id)

follows-begin_multipart :
    (r : ℕ) (file : FileDescriptor) (init : InitializeResult) (q : UploadQueue)
    → (q.heap r).photo_id ≡ some init.photo_id
    → follows init multipart (begin_multipart r file q).1 ≡ true
unfolding begin_multipart
follows-begin_multipart r file init q named = elim (Bool-cases (truthy (some init.photo_id))) [
  | inl t ↦
      let part_size : ℕ = or_default (q.heap r).part_size default_part_size in
      let missing : List ℕ =
        missing_parts (q.heap r).uploaded_parts (total_parts file.size part_size) in
      rw (begin_multipart, named, t)
        (follows-next_urls init part_size missing (chunk missing part_url_batch) q t)
  | inr t ↦ rw (begin_multipart, named, t) (ground (arith, t))
]

registry-begin_multipart :
    (r : ℕ) (file : FileDescriptor) (q : UploadQueue)
    → ((begin_multipart r file q).0.registry ≡ q.registry)
      × ((begin_multipart r file q).0.heap ≡ q.heap)
unfolding begin_multipart
registry-begin_multipart r file q = ground arith

-- The queue that an answer to `initialize` leaves, but for the count of the keys.
abbrev begun : ℕ → InitializeResult → UploadQueue → UploadQueue
begun r init q = persist r (
    write r
      (record (q.heap r) {
        photo_id = some init.photo_id;
        upload_kind = some init.upload_kind;
        part_size = set_part_size init.part_size (q.heap r).part_size;
      })
      q)

if_then : {A : Type 0} (b : Bool) (x y : A) → b ≡ true → (if b then x else y) ≡ x
if_then b x y h = rw h refl

pub follows-after_initialize :
    (r : ℕ) (file : FileDescriptor) (init : InitializeResult) (kind : UploadKind) (q : UploadQueue)
    → init.upload_kind ≡ kind
    → let x = after_initialize r file (ok init) q in
      (follows init kind x.1 ≡ true)
      × (x.0.registry ≡ Option.map (λ s. Registry.upsert s (entry_of q (x.0.heap r))) q.registry)
unfolding after_initialize persist
follows-after_initialize r file init simple q kind =
    rw kind (ground (arith, eq_refl init.upload_url), refl)
follows-after_initialize r file init multipart q kind =
    let b : UploadQueue = begun r init q in
    let named : (b.heap r).photo_id ≡ some init.photo_id = ground arith in
    let kept = registry-begin_multipart r file b in
    let parts =
      if_then (is_multipart (some init.upload_kind)) (begin_multipart r file b)
        (b, put_simple init.upload_url) (ap (λ k. is_multipart (some k)) kind) in
    (
      ap (λ (x : UploadQueue × Await). follows init multipart x.1) parts
          ∙ follows-begin_multipart r file init b named,
      ap (λ (x : UploadQueue × Await). x.0.registry) parts
          ∙ kept.0
          ∙ ap
              (λ (h : ℕ → UploadItem).
                Option.map (λ s. Registry.upsert s (entry_of q (h r))) q.registry)
              (sym (ap (λ (x : UploadQueue × Await). x.0.heap) parts ∙ kept.1)),
    )
