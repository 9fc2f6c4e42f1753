-- ===== src/Photos/Registry.antt =====
-- apps/web/src/features/photos/storage.ts: the registry of started uploads in `localStorage`.
-- `JSON.parse` and `isEntry` are modelled by what they find: a stored array is a list of values,
-- each an entry or something that is not one. `Date.now()` is an argument.
pub mod Laws
pub mod Table
use cloud_photo_delivery.Prelude.{
  ℕ, ◌+◌, ◌*◌, String, Bool, true, false, not, Option, none, some, List, [], ◌∷◌, ◌++◌, leb, ◌==◌,
  if◌then◌else◌, str_eq, filter, length,
}
use cloud_photo_delivery.Photos.Schema.{UploadKind}

pub record Entry : Type 0 where
  pub key : String
  pub event_id : String
  pub photo_id : Option String
  pub upload_kind : Option UploadKind
  pub filename : String
  pub updated_at : ℕ

pub data Value : Type 0 where
  entry : Entry → Value
  junk : Value

-- What `getItem` and `JSON.parse` give: nothing, an error or no array, or an array.
pub data Stored : Type 0 where
  absent unreadable : Stored
  array : List Value → Stored

-- `writable` is false where `setItem` throws.
pub record Storage : Type 0 where
  pub stored : Stored
  pub writable : Bool

abbrev pub max_age_ms : ℕ
max_age_ms = 24 * 60 * 60 * 1000

-- `parsed.filter(isEntry)`
abbrev pub entries_of : List Value → List Entry
entries_of [] = []
entries_of (entry e ∷ vs) = e ∷ entries_of vs
entries_of (junk ∷ vs) = entries_of vs

abbrev pub to_values : List Entry → List Value
to_values [] = []
to_values (e ∷ es) = entry e ∷ to_values es

read_stored : Stored → List Entry
read_stored absent = []
read_stored unreadable = []
read_stored (array vs) = entries_of vs

unfoldable pub read_all : Option Storage → List Entry
unfolding read_stored
read_all none = []
read_all (some storage) = read_stored storage.stored

unfoldable pub write_all : Option Storage → List Entry → Option Storage
write_all none entries = none
write_all (some storage) entries =
    if storage.writable
    then some (record storage { stored = array (to_values entries) })
    else some storage

-- `entry.updatedAt >= now - MAX_AGE_MS`
abbrev pub is_fresh : ℕ → Entry → Bool
is_fresh now e = leb now (e.updated_at + max_age_ms)

abbrev pub has_key : String → Entry → Bool
has_key key e = str_eq e.key key

unfoldable pub list : Option Storage → String → ℕ → List Entry × Option Storage
unfolding read_all write_all
list storage event_id now =
    let entries = read_all storage in
    let fresh = filter (is_fresh now) entries in
    (
      filter (λ e. str_eq e.event_id event_id) fresh,
      if length fresh == length entries then storage else write_all storage fresh,
    )

unfoldable pub upsert : Option Storage → Entry → Option Storage
unfolding read_all write_all
upsert storage e =
    write_all storage (filter (λ f. not (has_key e.key f)) (read_all storage) ++ e ∷ [])

unfoldable pub remove : Option Storage → String → Option Storage
unfolding read_all write_all
remove storage key = write_all storage (filter (λ f. not (has_key key f)) (read_all storage))
