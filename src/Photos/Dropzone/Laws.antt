-- ===== src/Photos/Dropzone/Laws.antt =====
-- The photos that a drop gives.
use cloud_photo_delivery.Prelude.{
  ◌≡◌, ◌↔◌, refl, sym, String, ◌++◌, append_assoc, append_nil, if◌then◌else◌, Bool, true, false,
  ◌&&◌, Option, none, some, List, [], ◌∷◌, filter, arith, ap, ◌∙◌,
}
use cloud_photo_delivery.Photos.Schema.{FileDescriptor}
use cloud_photo_delivery.Photos.Dropzone.Names.{IsPhoto, is_photo_like-IsPhoto}
use cloud_photo_delivery.Photos.Dropzone.{
  DropEntry, file_entry, directory, neither, Reads, fails, batch, last, one, entry, join_files,
  after_reading, photos_or_error, files_from_entry, files_from_reads, is_photo_like, Entries,
  Dropped, drop_error, on_files, handle_drop, files_from_entries,
}

abbrev is_read : Option FileDescriptor → Bool
is_read none = false
is_read (some file) = true

-- Whether the browser reads all that a drop holds.
unfoldable mutual
  pub readable : DropEntry → Bool
  readable (file_entry read) = is_read read
  readable (directory reads) = reads_readable reads
  readable neither = true

  pub reads_readable : Reads → Bool
  reads_readable fails = false
  reads_readable (batch entries reads) = all_readable entries && reads_readable reads
  reads_readable last = true

  pub all_readable : Entries → Bool
  all_readable (one e) = readable e
  all_readable (entry e entries) = readable e && all_readable entries

-- The files of a drop, each before those of the entries behind it, with `more` behind all of them.
abbrev before_more : Option FileDescriptor → List FileDescriptor → List FileDescriptor
before_more none more = more
before_more (some file) more = file ∷ more

unfoldable mutual
  pub in_order : DropEntry → List FileDescriptor → List FileDescriptor
  in_order (file_entry read) more = before_more read more
  in_order (directory reads) more = reads_in_order reads more
  in_order neither more = more

  pub reads_in_order : Reads → List FileDescriptor → List FileDescriptor
  reads_in_order fails more = more
  reads_in_order (batch entries reads) more = all_in_order entries (reads_in_order reads more)
  reads_in_order last more = more

  pub all_in_order : Entries → List FileDescriptor → List FileDescriptor
  all_in_order (one e) more = in_order e more
  all_in_order (entry e entries) more = in_order e (all_in_order entries more)

-- What is read of an entry, with `more` behind it, where all of it is readable.
abbrev followed_by :
    List FileDescriptor → Option (List FileDescriptor) → Option (List FileDescriptor)
followed_by more none = none
followed_by more (some files) = some (files ++ more)

abbrev when : Bool → List FileDescriptor → Option (List FileDescriptor)
when true files = some files
when false files = none

-- Two parts of a drop that are read one behind the other.
join_files-when :
    (r s : Bool) (a b : Option (List FileDescriptor)) (more files whole : List FileDescriptor)
    → followed_by more b ≡ when s files
    → followed_by files a ≡ when r whole
    → followed_by more (join_files a b) ≡ when (r && s) whole
join_files-when false s none b more files whole h k = refl
join_files-when true s none b more files whole h k = cc
join_files-when true false (some xs) none more files whole h k = refl
join_files-when false s (some xs) none more files whole h k = refl
join_files-when true true (some xs) none more files whole h k = cc
join_files-when r false (some xs) (some ys) more files whole h k = cc
join_files-when false true (some xs) (some ys) more files whole h k = cc
join_files-when true true (some xs) (some ys) more files whole h k =
    cc (append_assoc xs ys more, h, k)

mutual
  unfolding files_from_entry readable in_order

  files_from_entry-in_order :
      (e : DropEntry) (more : List FileDescriptor)
      → followed_by more (files_from_entry e) ≡ when (readable e) (in_order e more)
  files_from_entry-in_order (file_entry none) more = refl
  files_from_entry-in_order (file_entry (some file)) more = refl
  files_from_entry-in_order (directory reads) more = files_from_reads-in_order reads more
  files_from_entry-in_order neither more = refl

  files_from_reads-in_order :
      (reads : Reads) (more : List FileDescriptor)
      → followed_by more (files_from_reads reads)
        ≡ when (reads_readable reads) (reads_in_order reads more)
  files_from_reads-in_order fails more = refl
  files_from_reads-in_order (batch entries reads) more =
      join_files-when (all_readable entries) (reads_readable reads) (files_from_entries entries)
        (files_from_reads reads) more (reads_in_order reads more)
        (all_in_order entries (reads_in_order reads more)) (files_from_reads-in_order reads more)
        (files_from_entries-in_order entries (reads_in_order reads more))
  files_from_reads-in_order last more = refl

  files_from_entries-in_order :
      (entries : Entries) (more : List FileDescriptor)
      → followed_by more (files_from_entries entries)
        ≡ when (all_readable entries) (all_in_order entries more)
  files_from_entries-in_order (one e) more = files_from_entry-in_order e more
  files_from_entries-in_order (entry e entries) more =
      join_files-when (readable e) (all_readable entries) (files_from_entry e)
        (files_from_entries entries) more (all_in_order entries more)
        (in_order e (all_in_order entries more)) (files_from_entries-in_order entries more)
        (files_from_entry-in_order e (all_in_order entries more))

followed_by-nothing : (o : Option (List FileDescriptor)) → followed_by [] o ≡ o
followed_by-nothing none = refl
followed_by-nothing (some files) = ap some (append_nil files)

-- What is told when nothing is handed on.
abbrev pub unreadable_message : String
unreadable_message = "The dropped files could not be read. Drag them from a folder window instead."

abbrev pub no_photos_message : String
no_photos_message = "No JPEG, PNG, or WebP photos were found in that drop."

-- What a drop of photos, or of none, does.
abbrev pub drop_of : List FileDescriptor → Dropped
drop_of [] = drop_error no_photos_message
drop_of (photo ∷ photos) = on_files (photo ∷ photos)

photos_or_error-drop_of : (photos : List FileDescriptor) → photos_or_error photos ≡ drop_of photos
photos_or_error-drop_of [] = refl
photos_or_error-drop_of (photo ∷ photos) = ground arith

after_reading-when :
    (readable : Bool) (files : List FileDescriptor)
    → after_reading (when readable files)
      ≡ (if readable then drop_of (filter is_photo_like files) else drop_error unreadable_message)
after_reading-when true files = photos_or_error-drop_of (filter is_photo_like files)
after_reading-when false files = refl

-- A drop of entries hands on just the photos among their files, each before those of the entries
-- behind it, through folders and the batches in which these are read, where a file is a photo by its
-- type or by the ending of its name; it tells that there are none where there are none; and where
-- the browser fails to read one of the entries, it tells so and hands on nothing.
pub handle_drop_lem :
    (entries : Entries) (file : FileDescriptor)
    → (handle_drop false [] (some entries) ≡ (
        if all_readable entries
        then drop_of (filter is_photo_like (all_in_order entries []))
        else drop_error unreadable_message))
      × ((is_photo_like file ≡ true) ↔ IsPhoto file)
unfolding handle_drop
handle_drop_lem entries file = (
  ap after_reading (
        sym (followed_by-nothing (files_from_entries entries))
        ∙ files_from_entries-in_order entries [])
      ∙ after_reading-when (all_readable entries) (all_in_order entries []),
  is_photo_like-IsPhoto file,
)
