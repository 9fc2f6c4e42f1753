-- ===== src/Photos/Dropzone.antt =====
-- apps/web/src/features/photos/upload-dropzone.tsx: the photos of a drop, which may hold folders. The
-- entries of a drop stand as the browser answers for them: a file that is read or not, and a folder
-- by the batches that its reader gives.
pub mod Names
pub mod Laws
use Prim.Native.Char.{code}
use Prim.Native.String.{[], ◌∷◌}
use cloud_photo_delivery.Prelude.{
  ℕ, ◌+◌, ◌-◌, String, Bool, true, false, ◌&&◌, ◌||◌, Option, none, some, List, ◌++◌, filter, leb,
  ◌==◌, if◌then◌else◌, length,
}
use cloud_photo_delivery.Photos.Schema.{FileDescriptor, is_allowed_mime_type}

-- `PHOTO_NAME_PATTERN`, which asks for an ending in large or small letters.
abbrev pub lower_code : ℕ → ℕ
lower_code c = if leb 65 c && leb c 90 then c + 32 else c

unfoldable pub matches : String → String → Bool
matches [] [] = true
matches [] (c ∷ s) = false
matches (p ∷ pattern) [] = false
matches (p ∷ pattern) (c ∷ s) =
    let rest = matches pattern s in lower_code (code c) == code p && rest

abbrev pub is_ending : String → Bool
is_ending s = matches ".jpg" s || matches ".jpeg" s || matches ".png" s || matches ".webp" s

unfoldable pub has_photo_name : String → Bool
has_photo_name [] = false
has_photo_name (c ∷ s) = let rest = has_photo_name s in is_ending (c ∷ s) || rest

unfoldable pub is_photo_like : FileDescriptor → Bool
is_photo_like file = is_allowed_mime_type file.type || has_photo_name file.name

mutual
  pub data DropEntry : Type 0 where
    -- `entry.file` resolves or rejects
    file_entry : Option FileDescriptor → DropEntry
    directory : Reads → DropEntry
    neither : DropEntry

  -- What `readEntries` answers in turn: an error, or a batch, of which an empty one is the last.
  pub data Reads : Type 0 where
    fails : Reads
    batch : Entries → Reads → Reads
    last : Reads

  pub data Entries : Type 0 where
    one : DropEntry → Entries
    entry : DropEntry → Entries → Entries

abbrev pub join_files :
    Option (List FileDescriptor) → Option (List FileDescriptor) → Option (List FileDescriptor)
join_files none more = none
join_files (some files) none = none
join_files (some files) (some more) = some (files ++ more)

abbrev pub file_of : Option FileDescriptor → Option (List FileDescriptor)
file_of none = none
file_of (some file) = some (List.◌∷◌ file List.[])

unfoldable mutual
  pub files_from_entry : DropEntry → Option (List FileDescriptor)
  files_from_entry (file_entry read) = file_of read
  files_from_entry (directory reads) = files_from_reads reads
  files_from_entry neither = some List.[]

  pub files_from_reads : Reads → Option (List FileDescriptor)
  files_from_reads fails = none
  files_from_reads (batch entries reads) =
      join_files (files_from_entries entries) (files_from_reads reads)
  files_from_reads last = some List.[]

  pub files_from_entries : Entries → Option (List FileDescriptor)
  files_from_entries (one e) = files_from_entry e
  files_from_entries (entry e entries) =
      join_files (files_from_entry e) (files_from_entries entries)

-- What a drop does: nothing, a message, or files for the queue.
pub data Dropped : Type 0 where
  ignored : Dropped
  drop_error : String → Dropped
  on_files : List FileDescriptor → Dropped

abbrev pub photos_or_error : List FileDescriptor → Dropped
photos_or_error photos =
    if length photos == 0
    then drop_error "No JPEG, PNG, or WebP photos were found in that drop."
    else on_files photos

abbrev pub after_reading : Option (List FileDescriptor) → Dropped
after_reading none =
    drop_error "The dropped files could not be read. Drag them from a folder window instead."
after_reading (some files) = photos_or_error (filter is_photo_like files)

abbrev from_entries : Option Entries → Dropped
from_entries none =
    drop_error "That drop did not contain any files. Drag photos from a folder window instead."
from_entries (some entries) = after_reading (files_from_entries entries)

-- `handleDrop`, with `transfer.files` and the entries of `transfer.items`.
unfoldable pub handle_drop : Bool → List FileDescriptor → Option Entries → Dropped
handle_drop disabled files entries =
    if disabled then ignored else if length files == 0 then from_entries entries else on_files files
