-- ===== src/Query/Kept.antt =====
-- A cache of queries that is kept as the keys so far and a function.
use mathlib.Core.Option
use cloud_photo_delivery.Prelude.{
  ◌≡◌, refl, String, true, Option, none, some, List, [], ◌∷◌, any, if◌then◌else◌, str_eq, eq_refl,
  eq_iff, Keyed, get, All, All-map, arith,
}
use cloud_photo_delivery.Query.{QueryCache}

pub record Kept (D : Type 0) : Type 0 where
  pub keys : List String
  pub held : String → Option D

pub keys-known : (keys : List String) → All (λ k. any (λ j. str_eq j k) keys ≡ true) keys
keys-known [] = tt
keys-known (k ∷ keys) = (
  ground (arith, eq_refl k),
  All-map (λ i. any (λ j. str_eq j i) keys ≡ true) (λ i. any (λ j. str_eq j i) (k ∷ keys) ≡ true)
      keys (λ i h. ground (arith, h)) (keys-known keys),
)

module _ {D : Type 0} where
  abbrev pub list_data : (String → Option D) → List String → Keyed (Option D)
  list_data held [] = []
  list_data held (k ∷ keys) = (k, held k) ∷ list_data held keys

  pub get-list_data :
      (k : String) (held : String → Option D) (keys : List String)
      → get k (list_data held keys) ≡ (if any (λ j. str_eq j k) keys then some (held k) else none)
  unfolding get
  get-list_data k held [] = refl
  get-list_data k held (j ∷ keys) = ground (arith, get-list_data k held keys, eq_iff j k)

  pub list_data-all :
      (held : String → Option D) (all_keys keys : List String)
      → All (λ k. any (λ j. str_eq j k) all_keys ≡ true) keys
      → All
          (λ x. x.1 ≡ (if any (λ j. str_eq j x.0) all_keys then held x.0 else none))
          (list_data held keys)
  list_data-all held all_keys [] h = tt
  list_data-all held all_keys (k ∷ keys) h = (rw h.0, list_data-all held all_keys keys h.1)

  abbrev pub data_of : String → Kept D → Option D
  data_of k q = if any (λ j. str_eq j k) q.keys then q.held k else none

  abbrev pub with_data : String → D → Kept D → Kept D
  with_data k d q = record {
    keys = k ∷ q.keys;
    held = λ j. if str_eq k j then some d else q.held j;
  }

  abbrev pub with_all : (D → D) → Kept D → Kept D
  with_all f q = record { keys = q.keys; held = λ k. Option.map f (q.held k) }

  pub data_of-with_data :
      (k j : String) (d : D) (q : Kept D)
      → data_of j (with_data k d q) ≡ (if str_eq k j then some d else data_of j q)
  data_of-with_data k j d q = ground arith

  pub data_of-with_all :
      (f : D → D) (k : String) (q : Kept D) → data_of k (with_all f q) ≡ Option.map f (data_of k q)
  data_of-with_all f k q = ground arith

  pub get-all_data :
      (k : String) (d : D) (q : Kept D)
      → data_of k q ≡ some d
      → get k (list_data q.held q.keys) ≡ some (some d)
  get-all_data k d q h = ground (arith, get-list_data k q.held q.keys, h)

  unfoldable pub kept_cache : QueryCache D (Kept D)
  kept_cache = record {
    data_at = data_of;
    set_data = with_data;
    update_all = with_all;
    all_data = λ q. list_data q.held q.keys;
    data_at-set_data = data_of-with_data;
    data_at-update_all = data_of-with_all;
    get-all_data = get-all_data;
    all_data-data_at = λ q. list_data-all q.held q.keys q.keys (keys-known q.keys);
  }
