-- ===== src/Events/Schema/Trimmed.antt =====
-- `String.prototype.trim`: a text without the white space around it.
use Prim.Native.Char.{code}
use Prim.Native.String.append
use Prim.Native.String.{[], ◌∷◌, ◌++◌}
use cloud_photo_delivery.Prelude.{
  ◌≡◌, refl, ap, sym, ◌∙◌, String, Bool, true, false, ◌&&◌, arith, Bool-cases, inl, inr, is_space,
  is_blank, is_empty, trim, trim_start, trim_end, if◌then◌else◌,
}

abbrev pub starts_blank : String → Bool
starts_blank [] = false
starts_blank (c ∷ s) = is_space (code c)

abbrev pub ends_blank : String → Bool
ends_blank [] = false
ends_blank (c ∷ s) = let rest = ends_blank s in if is_empty s then is_space (code c) else rest

-- A text is another one less the white space around it.
pub record IsTrimmed (s t : String) : Type 0 where
  pub before : String
  pub behind : String
  pub whole : s ≡ before ++ (t ++ behind)
  pub blank_before : is_blank before ≡ true
  pub blank_behind : is_blank behind ≡ true
  pub bare_start : starts_blank t ≡ false
  pub bare_end : ends_blank t ≡ false

-- What `trim_start` cuts off.
lead : String → String
lead [] = []
lead (c ∷ s) = let rest = lead s in if is_space (code c) then c ∷ rest else []

trim_start_whole : (s : String) → s ≡ lead s ++ trim_start s
unfolding lead trim_start
trim_start_whole [] = sym (append.nil [])
trim_start_whole (c ∷ s) = elim (Bool-cases (is_space (code c))) [
  | inl t ↦
      rw t (ap (λ r. c ∷ r) (trim_start_whole s) ∙ sym (append.cons c (lead s) (trim_start s)))
  | inr t ↦ rw t (sym (append.nil (c ∷ s)))
]

both : (a b : Bool) → a ≡ true → b ≡ true → a && b ≡ true
both a b h k = rw (h, k) refl

lead_blank : (s : String) → is_blank (lead s) ≡ true
unfolding lead is_blank
lead_blank [] = refl
lead_blank (c ∷ s) = elim (Bool-cases (is_space (code c))) [
  | inl t ↦ rw t (both (is_space (code c)) (is_blank (lead s)) t (lead_blank s))
  | inr t ↦ rw t refl
]

trim_start_bare : (s : String) → starts_blank (trim_start s) ≡ false
unfolding trim_start
trim_start_bare [] = refl
trim_start_bare (c ∷ s) = ground (arith, trim_start_bare s)

-- What `trim_end` cuts off.
tail : String → String
unfolding trim_end
tail [] = []
tail (c ∷ s) =
    let rest = tail s in if is_space (code c) && is_empty (trim_end s) then c ∷ s else rest

trim_end_whole : (s : String) → s ≡ trim_end s ++ tail s
unfolding tail trim_end
trim_end_whole [] = sym (append.nil [])
trim_end_whole (c ∷ s) = elim (Bool-cases (is_space (code c) && is_empty (trim_end s))) [
  | inl t ↦ rw t (sym (append.nil (c ∷ s)))
  | inr t ↦ rw t (ap (λ r. c ∷ r) (trim_end_whole s) ∙ sym (append.cons c (trim_end s) (tail s)))
]

is_blank-trim_end : (s : String) → is_empty (trim_end s) ≡ true → is_blank s ≡ true
unfolding trim_end is_blank
is_blank-trim_end [] h = refl
is_blank-trim_end (c ∷ s) h = ground (arith, is_blank-trim_end s)

tail_blank : (s : String) → is_blank (tail s) ≡ true
unfolding tail trim_end is_blank
tail_blank [] = refl
tail_blank (c ∷ s) = ground (arith, tail_blank s, is_blank-trim_end s)

trim_end_bare : (s : String) → ends_blank (trim_end s) ≡ false
unfolding trim_end
trim_end_bare [] = refl
trim_end_bare (c ∷ s) = ground (arith, trim_end_bare s)

trim_end_start : (s : String) → starts_blank s ≡ false → starts_blank (trim_end s) ≡ false
unfolding trim_end
trim_end_start [] h = refl
trim_end_start (c ∷ s) h = ground (arith, h)

pub trim-IsTrimmed : (s : String) → IsTrimmed s (trim s)
unfolding trim
trim-IsTrimmed s = record {
  before = lead s;
  behind = tail (trim_start s);
  whole = trim_start_whole s ∙ ap (λ t. lead s ++ t) (trim_end_whole (trim_start s));
  blank_before = lead_blank s;
  blank_behind = tail_blank (trim_start s);
  bare_start = trim_end_start (trim_start s) (trim_start_bare s);
  bare_end = trim_end_bare (trim_start s);
}
