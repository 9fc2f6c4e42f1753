-- ===== src/Photos/Registry/Laws.antt =====
-- The registry as a table: what a later read finds after each operation.
use cloud_photo_delivery.Prelude.{
  ℕ, String, Bool, true, not, Option, none, some, List, [], ◌∷◌, ◌++◌, ◌≡◌, refl, ap, sym, arith,
  ◌==◌, if◌then◌else◌, str_eq, eq_iff, filter, length, find, length-filter-le, Bool-cases, inl, inr,
}
use cloud_photo_delivery.Photos.Registry.{
  Entry, Storage, entries_of, to_values, read_all, write_all, is_fresh, has_key, list, upsert,
  remove,
}

entries_of-to_values : (es : List Entry) → entries_of (to_values es) ≡ es
entries_of-to_values [] = refl
entries_of-to_values (e ∷ es) = ap (λ t. e ∷ t) (entries_of-to_values es)

abbrev pub IsWritable : Option Storage → Type 0
IsWritable none = ⊥
IsWritable (some storage) = storage.writable ≡ true

pub read_all-write_all :
    (s : Option Storage) (es : List Entry) → IsWritable s → read_all (write_all s es) ≡ es
unfolding read_all write_all
read_all-write_all none es h = absurd h
read_all-write_all (some s) es h = rw h (entries_of-to_values es)

filter-length :
    (p : Entry → Bool) (es : List Entry) → length (filter p es) ≡ length es → filter p es ≡ es
filter-length p [] h = refl
filter-length p (e ∷ es) h = elim (Bool-cases (p e)) [
  | inl t ↦ rw t (ap (λ r. e ∷ r) (filter-length p es (ground arith)))
  | inr f ↦ absurd (ground (arith, length-filter-le p es))
]

-- Listing an event gives its fresh entries, in order. On a storage that takes writes it leaves
-- exactly the fresh entries of all events to be read.
pub list_lem :
    (s : Option Storage) (event_id : String) (now : ℕ)
    → IsWritable s
    → ((list s event_id now).0
        ≡ filter (λ e. str_eq e.event_id event_id) (filter (is_fresh now) (read_all s)))
      × (read_all (list s event_id now).1 ≡ filter (is_fresh now) (read_all s))
unfolding list
list_lem s event_id now h =
    let p = is_fresh now in
    let es = read_all s in
    (
      refl,
      elim (Bool-cases (length (filter p es) == length es)) [
        | inl same ↦ rw same (sym (filter-length p es (ground arith)))
        | inr less ↦ rw less (read_all-write_all s (filter p es) h)
      ],
    )

-- The entry under a key, as the last `upsert` left it.
unfoldable pub lookup : String → List Entry → Option Entry
lookup key es = find (has_key key) es

pub find-without :
    (k j : String) (es : List Entry)
    → find (has_key j) (filter (λ f. not (has_key k f)) es)
      ≡ (if str_eq k j then none else find (has_key j) es)
find-without k j [] = ground arith
find-without k j (e ∷ es) =
    ground (arith, find-without k j es, eq_iff e.key k, eq_iff e.key j, eq_iff k j)

pub find-append_one :
    (p : Entry → Bool) (es : List Entry) (e : Entry)
    → find p (es ++ e ∷ [])
      ≡ elim (find p es) [ some f ↦ some f | none ↦ (if p e then some e else none) ]
find-append_one p [] e = refl
find-append_one p (f ∷ es) e = ground (arith, find-append_one p es e)

-- On a storage that takes writes, `upsert` sets the entry of its own key and keeps those of all
-- others, and `remove` leaves no entry of its key and keeps those of all others.
pub lookup-upsert-remove :
    (s : Option Storage) (e : Entry) (k j : String)
    → IsWritable s
    → (lookup j (read_all (upsert s e))
        ≡ (if str_eq e.key j then some e else lookup j (read_all s)))
      × (lookup j (read_all (remove s k)) ≡ (if str_eq k j then none else lookup j (read_all s)))
unfolding lookup upsert remove
lookup-upsert-remove s e k j h =
    let kept = filter (λ f. not (has_key e.key f)) (read_all s) in
    (
      rw (read_all-write_all s (kept ++ e ∷ []) h)
          (ground (arith, find-append_one (has_key j) kept e, find-without e.key j (read_all s))),
      rw (read_all-write_all s (filter (λ f. not (has_key k f)) (read_all s)) h)
          (find-without k j (read_all s)),
    )
