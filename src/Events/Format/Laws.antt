-- ===== src/Events/Format/Laws.antt =====
-- The sizes and the names that are shown.
use Prim.Native.Char.{code}
use Prim.Native.String.{[], ◌∷◌}
use cloud_photo_delivery.Prelude.{
  ℕ, ◌*◌, ◌≤◌, ◌<◌, ◌≡◌, refl, String, Bool, true, false, not, ◌&&◌, ◌||◌, List, leb, if◌then◌else◌,
  arith, is_empty, trim, Bool-cases, inl, inr, ◌⊎◌,
}
use cloud_photo_delivery.Events.Format.{
  scale, is_slug_char, is_dash, replace_others, strip_start, strip_end, slug_of,
}

-- A name of letters and digits in groups, with one dash between two: whether it is one behind a
-- dash or at the start.
unfoldable pub is_slug : Bool → String → Bool
is_slug at_start [] = not at_start
is_slug at_start (c ∷ s) =
    let behind_dash = is_slug true s in
    let behind_char = is_slug false s in
    if is_dash (code c) then not at_start && behind_dash else is_slug_char (code c) && behind_char

-- The same, with a dash at the end allowed.
unfoldable is_open_slug : Bool → String → Bool
is_open_slug at_start [] = true
is_open_slug at_start (c ∷ s) =
    let behind_dash = is_open_slug true s in
    let behind_char = is_open_slug false s in
    if is_dash (code c) then not at_start && behind_dash else is_slug_char (code c) && behind_char

replace_others-open :
    (in_run : Bool) (s : String) → is_open_slug in_run (replace_others in_run s) ≡ true
unfolding replace_others is_open_slug
replace_others-open in_run [] = refl
replace_others-open in_run (c ∷ s) =
    ground (arith, replace_others-open true s, replace_others-open false s)

open_behind : (s : String) → is_open_slug true s ≡ true → is_open_slug false s ≡ true
unfolding is_open_slug
open_behind [] h = refl
open_behind (c ∷ s) h = ground arith

strip_start-open :
    (s : String) → is_open_slug false s ≡ true → is_open_slug true (strip_start s) ≡ true
unfolding is_open_slug strip_start
strip_start-open [] h = refl
strip_start-open (c ∷ s) h = ground (arith, strip_start-open s, open_behind s)

strip_end-slug :
    (at_start : Bool) (s : String)
    → is_open_slug at_start s ≡ true
    → (at_start && is_empty (strip_end s)) || is_slug at_start (strip_end s) ≡ true
unfolding is_open_slug is_slug strip_end
strip_end-slug true [] h = refl
strip_end-slug false [] h = refl
strip_end-slug true (c ∷ s) h = elim (Bool-cases (is_dash (code c) && is_empty (strip_end s))) [
  | inl t ↦ rw t refl
  | inr t ↦ rw t (ground (arith, strip_end-slug true s, strip_end-slug false s))
]
strip_end-slug false (c ∷ s) h = elim (Bool-cases (is_dash (code c) && is_empty (strip_end s))) [
  | inl t ↦ rw t refl
  | inr t ↦ rw t (ground (arith, strip_end-slug true s, strip_end-slug false s))
]

event_is_slug : is_slug true "event" ≡ true
unfolding is_slug
event_is_slug = refl

-- Whatever the event is called and however its letters are made small, the name of the file begins
-- with small letters and digits in groups, with one dash between two groups.
pub slug_of-is_slug :
    (to_lower_case : String → String) (event_name : String)
    → is_slug true (slug_of to_lower_case event_name) ≡ true
unfolding slug_of
slug_of-is_slug to_lower_case event_name =
    let dashed = replace_others false (to_lower_case (trim event_name)) in
    let slug =
      strip_end-slug true (strip_start dashed)
        (strip_start-open dashed (replace_others-open false (to_lower_case (trim event_name)))) in
    ground (arith, slug, event_is_slug)

-- What a size is divided by: at most the size itself, and more than a 1024th of it, but where the
-- unit is the largest one.
abbrev pub last_unit : String → List String → String
last_unit unit List.[] = unit
last_unit unit (List.◌∷◌ larger rest) = last_unit larger rest

scale_bounds :
    (bytes divisor : ℕ) (unit : String) (larger : List String)
    → divisor ≤ bytes
    → let x = scale bytes divisor unit larger in
      (x.0 ≤ bytes) × ((bytes < 1024 * x.0) ⊎ (x.1 ≡ last_unit unit larger))
unfolding scale
scale_bounds bytes divisor unit List.[] h = (h, inr refl)
scale_bounds bytes divisor unit (List.◌∷◌ larger rest) h =
    elim (Bool-cases (leb (divisor * 1024) bytes)) [
      | inl t ↦ rw t (scale_bounds bytes (divisor * 1024) larger rest (ground arith))
      | inr t ↦ rw t (h, inl (ground arith))
    ]
