-- ===== src/Gallery/Unlock.antt =====
-- apps/web/src/features/gallery/unlock.ts: the token of an unlocked gallery, in memory and in
-- `sessionStorage`. `Date.now()` is an argument; times are milliseconds. What `JSON.parse` and
-- `isStoredUnlock` make of a stored text is one of the cases of `Stored`.
pub mod Laws
use cloud_photo_delivery.Prelude.{
  ℕ, ◌+◌, ◌*◌, String, Bool, true, false, not, Option, none, some, List, [], ◌∷◌, ◌++◌, ltb,
  if◌then◌else◌, Keyed, get, put, remove, str_eq,
}
use Prim.Native.String

pub record StoredUnlock : Type 0 where
  pub token : String
  pub expires_at : ℕ

-- A stored text: the empty one, one that `JSON.parse` refuses, a value that is no `StoredUnlock`,
-- or an entry.
pub data Stored : Type 0 where
  empty broken foreign : Stored
  entry : StoredUnlock → Stored

-- `sessionStorage`: which of its calls throw, and what it holds.
pub record Session : Type 0 where
  pub readable : Bool
  pub writable : Bool
  pub texts : Keyed Stored

pub record Unlocks : Type 0 where
  pub memory : Keyed StoredUnlock
  -- `sessionStorageOrNull()`
  pub session : Option Session
  pub listeners : List ℕ
  -- the listeners called so far
  pub emitted : List ℕ

abbrev pub expiry_margin_ms : ℕ
expiry_margin_ms = 5_000

-- `${STORAGE_PREFIX}${slug}`
abbrev pub storage_key : String → String
storage_key slug = String.◌++◌ "cpd.gallery.unlock." slug

emit : Unlocks → Unlocks
emit u = record u { emitted = u.emitted ++ u.listeners }

-- `entry.expiresAt - EXPIRY_MARGIN_MS > now`
abbrev pub is_fresh : StoredUnlock → ℕ → Bool
is_fresh e now = ltb (now + expiry_margin_ms) e.expires_at

-- `setItem` and `removeItem`; a call that throws changes nothing.
set_item : String → Stored → Option Session → Option Session
set_item key value none = none
set_item key value (some s) =
    if s.writable then some (record s { texts = put key value s.texts }) else some s

remove_item : String → Option Session → Option Session
remove_item key none = none
remove_item key (some s) =
    if s.writable then some (record s { texts = remove key s.texts }) else some s

abbrev pub unlock_for : String → ℕ → ℕ → StoredUnlock
unlock_for token expires_in_seconds now = record {
  token = token;
  expires_at = now + expires_in_seconds * 1000;
}

unfoldable pub store_unlock_token : String → String → ℕ → ℕ → Unlocks → Unlocks
unfolding emit set_item
store_unlock_token slug token expires_in_seconds now u =
    let e = unlock_for token expires_in_seconds now in
    emit (record u {
      memory = put slug e u.memory;
      session = set_item (storage_key slug) (entry e) u.session;
    })

-- A stale or foreign entry is removed; a fresh one is put into memory.
read_text : String → ℕ → Option Stored → Unlocks → Unlocks × Option String
unfolding remove_item
read_text slug now none u = (u, none)
read_text slug now (some empty) u = (u, none)
read_text slug now (some broken) u = (u, none)
read_text slug now (some foreign) u =
    (record u { session = remove_item (storage_key slug) u.session }, none)
read_text slug now (some (entry e)) u =
    if is_fresh e now
    then (record u { memory = put slug e u.memory }, some e.token)
    else (record u { session = remove_item (storage_key slug) u.session }, none)

read_session : String → ℕ → Option Session → Unlocks → Unlocks × Option String
unfolding read_text
read_session slug now none u = (u, none)
read_session slug now (some s) u =
    if s.readable then read_text slug now (get (storage_key slug) s.texts) u else (u, none)

read_memory : String → ℕ → Option StoredUnlock → Unlocks → Unlocks × Option String
unfolding read_session
read_memory slug now none u = read_session slug now u.session u
read_memory slug now (some e) u =
    if is_fresh e now
    then (u, some e.token)
    else read_session slug now u.session (record u { memory = remove slug u.memory })

unfoldable pub read_unlock_token : String → ℕ → Unlocks → Unlocks × Option String
unfolding read_memory
read_unlock_token slug now u = read_memory slug now (get slug u.memory) u

unfoldable pub clear_unlock_token : String → Unlocks → Unlocks
unfolding emit remove_item
clear_unlock_token slug u =
    emit (record u {
      memory = remove slug u.memory;
      session = remove_item (storage_key slug) u.session;
    })

abbrev header_of : Option String → Keyed String
header_of none = []
header_of (some token) = if not (str_eq token "") then ("X-Gallery-Unlock", token) ∷ [] else []

-- The headers of a request for the gallery.
unfoldable pub unlock_header : String → ℕ → Unlocks → Unlocks × Keyed String
unfolding read_unlock_token
unlock_header slug now u = let (u', token) = read_unlock_token slug now u in (u', header_of token)
