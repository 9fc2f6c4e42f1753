-- ===== src/Photos/Registry/Table.antt =====
-- The registry in use against what it is for: a table of entries by key.
use cloud_photo_delivery.Prelude.{
  ℕ, ◌≡◌, refl, ap, ◌∙◌, String, Bool, true, false, not, Option, none, some, List, [], ◌∷◌, ◌++◌,
  ◌==◌, if◌then◌else◌, arith, str_eq, eq_iff, eq_refl, filter, find, length, Bool-cases, inl, inr,
}
use cloud_photo_delivery.Photos.Registry.{
  Entry, Storage, read_all, write_all, is_fresh, has_key, list, upsert, remove,
}
use cloud_photo_delivery.Photos.Registry.Laws.{
  IsWritable, read_all-write_all, list_lem, lookup, lookup-upsert-remove, find-without,
  find-append_one,
}

pub data Operation : Type 0 where
  upserts : Entry → Operation
  removes : String → Operation
  lists : (event_id : String) (now : ℕ) → Operation

unfoldable pub operate : Operation → Option Storage → Option Storage
operate (upserts e) s = upsert s e
operate (removes key) s = remove s key
operate (lists event_id now) s = (list s event_id now).1

unfoldable pub operate_all : List Operation → Option Storage → Option Storage
operate_all [] s = s
operate_all (o ∷ os) s = operate_all os (operate o s)

-- The table: `list` forgets what is stale by its time.
abbrev pub Table : Type 0
Table = String → Option Entry

abbrev pub keep : (Entry → Bool) → Option Entry → Option Entry
keep p none = none
keep p (some e) = if p e then some e else none

unfoldable pub specify : Operation → Table → Table
specify (upserts e) t = λ key. if str_eq e.key key then some e else t key
specify (removes k) t = λ key. if str_eq k key then none else t key
specify (lists event_id now) t = λ key. keep (is_fresh now) (t key)

unfoldable pub specify_all : List Operation → Table → Table
specify_all [] t = t
specify_all (o ∷ os) t = specify_all os (specify o t)

-- No two entries of a list have one key.
abbrev pub HasUniqueKeys : List Entry → Type 0
HasUniqueKeys [] = Unit
HasUniqueKeys (e ∷ es) = (find (has_key e.key) es ≡ none) × HasUniqueKeys es

find-filter-none :
    (q p : Entry → Bool) (es : List Entry) → find q es ≡ none → find q (filter p es) ≡ none
find-filter-none q p [] h = refl
find-filter-none q p (e ∷ es) h = elim (Bool-cases (q e)) [
  | inl t ↦ ground arith
  | inr t ↦ ground (arith, find-filter-none q p es (ground arith))
]

HasUniqueKeys-filter :
    (p : Entry → Bool) (es : List Entry) → HasUniqueKeys es → HasUniqueKeys (filter p es)
HasUniqueKeys-filter p [] u = tt
HasUniqueKeys-filter p (e ∷ es) u = elim (Bool-cases (p e)) [
  | inl t ↦ rw t (find-filter-none (has_key e.key) p es u.0, HasUniqueKeys-filter p es u.1)
  | inr t ↦ rw t (HasUniqueKeys-filter p es u.1)
]

HasUniqueKeys-append_one :
    (es : List Entry) (e : Entry)
    → HasUniqueKeys es
    → find (has_key e.key) es ≡ none
    → HasUniqueKeys (es ++ e ∷ [])
HasUniqueKeys-append_one [] e u h = (refl, tt)
HasUniqueKeys-append_one (x ∷ es) e u h = (
  ground (arith, find-append_one (has_key x.key) es e, u.0, eq_iff e.key x.key, eq_iff x.key e.key),
  HasUniqueKeys-append_one es e u.1 (ground arith),
)

find-filter :
    (key : String) (p : Entry → Bool) (es : List Entry)
    → HasUniqueKeys es
    → find (has_key key) (filter p es) ≡ keep p (find (has_key key) es)
find-filter key p [] u = refl
find-filter key p (e ∷ es) u = elim (Bool-cases (str_eq e.key key)) [
  | inl t ↦
      let same : e.key ≡ key = ground (arith, eq_iff e.key key) in
      ground (arith, find-filter key p es u.1, u.0, ap (λ k. find (has_key k) es) same)
  | inr t ↦ ground (arith, find-filter key p es u.1)
]

write_all-IsWritable :
    (s : Option Storage) (es : List Entry) → IsWritable s → IsWritable (write_all s es)
unfolding write_all
write_all-IsWritable none es h = h
write_all-IsWritable (some s) es h = rw h refl

if-IsWritable :
    (t : Bool) (s s' : Option Storage)
    → IsWritable s
    → IsWritable s'
    → IsWritable (if t then s else s')
if-IsWritable true s s' h h' = h
if-IsWritable false s s' h h' = h'

operate-IsWritable : (o : Operation) (s : Option Storage) → IsWritable s → IsWritable (operate o s)
unfolding operate upsert remove list
operate-IsWritable (upserts e) s h = write_all-IsWritable s _ h
operate-IsWritable (removes key) s h = write_all-IsWritable s _ h
operate-IsWritable (lists event_id now) s h =
    if-IsWritable (length (filter (is_fresh now) (read_all s)) == length (read_all s)) s _ h
      (write_all-IsWritable s (filter (is_fresh now) (read_all s)) h)

-- What can be read after an operation.
operate-HasUniqueKeys :
    (o : Operation) (s : Option Storage)
    → IsWritable s
    → HasUniqueKeys (read_all s)
    → HasUniqueKeys (read_all (operate o s))
unfolding operate upsert remove
operate-HasUniqueKeys (upserts e) s h u =
    let kept = filter (λ f. not (has_key e.key f)) (read_all s) in
    rw (read_all-write_all s (kept ++ e ∷ []) h) (
      HasUniqueKeys-append_one kept e
        (HasUniqueKeys-filter (λ f. not (has_key e.key f)) (read_all s) u)
        (ground (arith, find-without e.key e.key (read_all s), eq_refl e.key)))
operate-HasUniqueKeys (removes key) s h u =
    rw (read_all-write_all s (filter (λ f. not (has_key key f)) (read_all s)) h)
      (HasUniqueKeys-filter (λ f. not (has_key key f)) (read_all s) u)
operate-HasUniqueKeys (lists event_id now) s h u =
    rw (list_lem s event_id now h).1 (HasUniqueKeys-filter (is_fresh now) (read_all s) u)

-- The table that a storage stands for.
abbrev pub table_of : Option Storage → Table
table_of s = λ key. lookup key (read_all s)

lookup-remove :
    (s : Option Storage) (k key : String)
    → IsWritable s
    → table_of (remove s k) key ≡ (if str_eq k key then none else table_of s key)
unfolding lookup remove
lookup-remove s k key h =
    rw (read_all-write_all s (filter (λ f. not (has_key k f)) (read_all s)) h)
      (find-without k key (read_all s))

lookup-list :
    (s : Option Storage) (event_id : String) (now : ℕ) (key : String)
    → IsWritable s
    → HasUniqueKeys (read_all s)
    → table_of (list s event_id now).1 key ≡ keep (is_fresh now) (table_of s key)
unfolding lookup
lookup-list s event_id now key h u =
    rw (list_lem s event_id now h).1 (find-filter key (is_fresh now) (read_all s) u)

specify-operate :
    (o : Operation) (s : Option Storage) (t : Table) (key : String)
    → IsWritable s
    → HasUniqueKeys (read_all s)
    → ((k : String) → table_of s k ≡ t k)
    → table_of (operate o s) key ≡ specify o t key
unfolding operate specify
specify-operate (upserts e) s t key h u same =
    (lookup-upsert-remove s e e.key key h).0
    ∙ ap (λ o. if str_eq e.key key then some e else o) (same key)
specify-operate (removes k) s t key h u same =
    lookup-remove s k key h ∙ ap (λ o. if str_eq k key then none else o) (same key)
specify-operate (lists event_id now) s t key h u same =
    lookup-list s event_id now key h u ∙ ap (keep (is_fresh now)) (same key)

operate_all_agrees :
    (os : List Operation) (s : Option Storage) (t : Table) (key : String)
    → IsWritable s
    → HasUniqueKeys (read_all s)
    → ((k : String) → table_of s k ≡ t k)
    → table_of (operate_all os s) key ≡ specify_all os t key
unfolding operate_all specify_all
operate_all_agrees [] s t key h u same = same key
operate_all_agrees (o ∷ os) s t key h u same =
    operate_all_agrees os (operate o s) (specify o t) key (operate-IsWritable o s h)
      (operate-HasUniqueKeys o s h u) (λ k. specify-operate o s t k h u same)

-- On a storage that takes writes and holds no key twice, as a new one: after any operations, with
-- any times, what the registry holds under each key is what a table of entries by key holds, in
-- which `upsert` sets an entry, `remove` drops one and listing drops the stale ones.
pub operate_all_refines :
    (os : List Operation) (s : Option Storage) (key : String)
    → IsWritable s
    → HasUniqueKeys (read_all s)
    → table_of (operate_all os s) key ≡ specify_all os (table_of s) key
operate_all_refines os s key h u = operate_all_agrees os s (table_of s) key h u (λ k. refl)
