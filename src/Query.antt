-- ===== src/Query.antt =====
-- The cache of TanStack Query, a package that the web app only calls, as far as its hooks rely on it:
-- the queries of one family, by the texts of their keys, all with data of one type.
pub mod Kept
use mathlib.Core.Option
use cloud_photo_delivery.Prelude.{
  ◌≡◌, String, Option, none, some, if◌then◌else◌, str_eq, Keyed, get, All,
}

-- What the cache holds, by its documentation: `getQueryData`, `setQueryData` with a value,
-- `setQueriesData` with a function that keeps `undefined`, and `getQueriesData`.
pub record QueryCache (D Q : Type 0) : Type 1 where
  pub data_at : String → Q → Option D
  pub set_data : String → D → Q → Q
  pub update_all : (D → D) → Q → Q
  pub all_data : Q → Keyed (Option D)
  pub data_at-set_data :
      (k j : String) (d : D) (q : Q)
      → data_at j (set_data k d q) ≡ (if str_eq k j then some d else data_at j q)
  pub data_at-update_all :
      (f : D → D) (k : String) (q : Q) → data_at k (update_all f q) ≡ Option.map f (data_at k q)
  -- Each query stands in the list once, with its data.
  pub get-all_data :
      (k : String) (d : D) (q : Q) → data_at k q ≡ some d → get k (all_data q) ≡ some (some d)
  pub all_data-data_at : (q : Q) → All (λ x. x.1 ≡ data_at x.0 q) (all_data q)
