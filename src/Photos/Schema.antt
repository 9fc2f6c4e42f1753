-- ===== src/Photos/Schema.antt =====
-- apps/web/src/features/photos/schema.ts: which files may be queued, and how each is uploaded.
use cloud_photo_delivery.Prelude.{
  ℕ, ◌*◌, String, Bool, not, ◌||◌, Option, none, some, leb, ltb, if◌then◌else◌, is_blank, str_eq,
}

abbrev pub max_file_size : ℕ
max_file_size = 100 * 1024 * 1024

abbrev pub multipart_floor : ℕ
multipart_floor = 10 * 1024 * 1024

-- The part of the DOM's `File` that the queue reads.
pub record FileDescriptor : Type 0 where
  pub name : String
  pub type : String
  pub size : ℕ

abbrev pub is_allowed_mime_type : String → Bool
is_allowed_mime_type t = str_eq t "image/jpeg" || str_eq t "image/png" || str_eq t "image/webp"

-- The reason for which a file is refused.
unfoldable pub validate_file : FileDescriptor → Option String
unfolding is_blank
validate_file file =
    if is_blank file.name
    then some "The file needs a name."
    else if not (is_allowed_mime_type file.type)
    then some "Only JPEG, PNG, and WebP photos are supported."
    else if ltb file.size 1
    then some "The file is empty."
    else if ltb max_file_size file.size
    then some "Photos must be 100 MB or smaller."
    else none

pub data UploadKind : Type 0 where
  simple multipart : UploadKind

unfoldable pub upload_kind_for : ℕ → UploadKind
upload_kind_for size = if leb multipart_floor size then multipart else simple
