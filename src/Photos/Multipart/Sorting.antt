-- ===== src/Photos/Multipart/Sorting.antt =====
-- `[...set].sort((a, b) => a - b)`, as an insertion sort, and what its result is determined by.
use cloud_photo_delivery.Prelude.{
  ℕ, zero, suc, ◌+◌, ◌≤◌, ◌<◌, ◌≡◌, refl, false, ◌&&◌, ◌||◌, List, [], ◌∷◌, leb, ltb, ◌==◌,
  if◌then◌else◌, arith, ◌∙◌, Bool-cases, inl, inr,
}
use cloud_photo_delivery.Photos.Parts.{has_part}

pub insert : ℕ → List ℕ → List ℕ
insert n [] = n ∷ []
insert n (m ∷ ms) = if leb n m then n ∷ m ∷ ms else m ∷ insert n ms

unfoldable pub sort : List ℕ → List ℕ
unfolding insert
sort [] = []
sort (n ∷ ns) = insert n (sort ns)

-- The numbers from `n` on, `left` of them.
abbrev pub range_from : ℕ → ℕ → List ℕ
range_from n zero = []
range_from n (suc left) = n ∷ range_from (n + 1) left

-- Each number once.
abbrev pub IsDistinct : List ℕ → Type 0
IsDistinct [] = Unit
IsDistinct (n ∷ ns) = (has_part ns n ≡ false) × IsDistinct ns

-- Strictly rising, from `low` on.
abbrev pub Rises : ℕ → List ℕ → Type 0
Rises low [] = Unit
Rises low (n ∷ ns) = (low ≤ n) × Rises (n + 1) ns

has_part-insert : (n m : ℕ) (ns : List ℕ) → has_part (insert n ns) m ≡ (n == m || has_part ns m)
unfolding insert
has_part-insert n m [] = refl
has_part-insert n m (k ∷ ns) = ground (arith, has_part-insert n m ns)

pub has_part-sort : (ns : List ℕ) (m : ℕ) → has_part (sort ns) m ≡ has_part ns m
unfolding sort
has_part-sort [] m = refl
has_part-sort (n ∷ ns) m = ground (arith, has_part-insert n m (sort ns), has_part-sort ns m)

Rises-weaken : (low low' : ℕ) (ns : List ℕ) → low' ≤ low → Rises low ns → Rises low' ns
Rises-weaken low low' [] h r = tt
Rises-weaken low low' (n ∷ ns) h r = (omega arith, r.1)

insert-Rises :
    (low n : ℕ) (ns : List ℕ)
    → low ≤ n
    → has_part ns n ≡ false
    → Rises low ns
    → Rises low (insert n ns)
unfolding insert
insert-Rises low n [] h d r = (h, tt)
insert-Rises low n (m ∷ ns) h d r = elim (Bool-cases (leb n m)) [
  | inl first ↦ rw first (h, (ground arith, r.1))
  | inr later ↦ rw later (r.0, insert-Rises (m + 1) n ns (ground arith) (ground arith) r.1)
]

pub sort-Rises : (ns : List ℕ) → IsDistinct ns → Rises 0 (sort ns)
unfolding sort
sort-Rises [] d = tt
sort-Rises (n ∷ ns) d =
    insert-Rises 0 n (sort ns) (omega arith) (has_part-sort ns n ∙ d.0) (sort-Rises ns d.1)

not_below : (low m : ℕ) (ns : List ℕ) → Rises low ns → m < low → has_part ns m ≡ false
not_below low m [] r h = refl
not_below low m (n ∷ ns) r h = ground (arith, not_below (n + 1) m ns r.1)

-- A strictly rising list that holds exactly the numbers of a range is that range.
pub Rises-eq-range :
    (low left : ℕ) (ns : List ℕ)
    → Rises low ns
    → ((m : ℕ) → has_part ns m ≡ (leb low m && ltb m (low + left)))
    → ns ≡ range_from low left
Rises-eq-range low zero [] r h = refl
Rises-eq-range low (suc left) [] r h = absurd (ground (arith, h low))
Rises-eq-range low zero (n ∷ ns) r h = absurd (ground (arith, h n))
Rises-eq-range low (suc left) (n ∷ ns) r h =
    let first : n ≡ low = ground (arith, h low, not_below (n + 1) low ns r.1) in
    let rest : ns ≡ range_from (low + 1) left =
      Rises-eq-range (low + 1) left ns (rw (← first) r.1)
        λ m. ground (arith, h m, not_below (n + 1) m ns r.1) in
    rw (first, rest)

pub Rises-from_one : (ns : List ℕ) → Rises 0 ns → has_part ns 0 ≡ false → Rises 1 ns
Rises-from_one [] r h = tt
Rises-from_one (zero ∷ ns) r h = cc
Rises-from_one (suc n ∷ ns) r h = (omega arith, r.1)
