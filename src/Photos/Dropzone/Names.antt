-- ===== src/Photos/Dropzone/Names.antt =====
-- Which files count as photos: the test of upload-dropzone.tsx, by what a type and a name are.
use Prim.Native.Char.{Char, code}
use Prim.Native.String.append
use Prim.Native.String.{[], ◌∷◌, ◌++◌}
use cloud_photo_delivery.Prelude.{
  ◌≡◌, ◌↔◌, refl, sym, ap, ◌∙◌, String, true, arith, Bool-cases, inl, inr, eq_iff, str_eq,
}
use cloud_photo_delivery.Photos.Schema.{FileDescriptor}
use cloud_photo_delivery.Photos.Dropzone.{
  matches, has_photo_name, is_photo_like, lower_code, is_ending,
}

-- A text spells an ending, in large or small letters.
pub data Spells : String → String → Type 0 where
  nothing : Spells [] []
  letter :
      {p c : Char} {pattern s : String}
      → lower_code (code c) ≡ code p
      → Spells pattern s
      → Spells (p ∷ pattern) (c ∷ s)

pub data IsEnding (s : String) : Type 0 where
  jpg : Spells ".jpg" s → IsEnding s
  jpeg : Spells ".jpeg" s → IsEnding s
  png : Spells ".png" s → IsEnding s
  webp : Spells ".webp" s → IsEnding s

-- A photo is known by its type, or by the ending of its name.
pub data IsPhoto (file : FileDescriptor) : Type 0 where
  jpeg_type : file.type ≡ "image/jpeg" → IsPhoto file
  png_type : file.type ≡ "image/png" → IsPhoto file
  webp_type : file.type ≡ "image/webp" → IsPhoto file
  named : (before ending : String) → file.name ≡ before ++ ending → IsEnding ending → IsPhoto file

Spells-matches : (p s : String) → matches p s ≡ true → Spells p s
unfolding matches
Spells-matches [] [] h = nothing
Spells-matches [] (c ∷ s) h = cc
Spells-matches (p ∷ pattern) [] h = cc
Spells-matches (p ∷ pattern) (c ∷ s) h =
    letter (ground (arith, h)) (Spells-matches pattern s (ground (arith, h)))

matches-Spells : {p s : String} → Spells p s → matches p s ≡ true
unfolding matches
matches-Spells nothing = refl
matches-Spells (letter e r) = ground (arith, e, matches-Spells r)

IsEnding-of : (s : String) → is_ending s ≡ true → IsEnding s
IsEnding-of s h = elim (Bool-cases (matches ".jpg" s)) [
  | inl t ↦ jpg (Spells-matches ".jpg" s t)
  | inr t ↦ elim (Bool-cases (matches ".jpeg" s)) [
    | inl u ↦ jpeg (Spells-matches ".jpeg" s u)
    | inr u ↦ elim (Bool-cases (matches ".png" s)) [
      | inl v ↦ png (Spells-matches ".png" s v)
      | inr v ↦ webp (Spells-matches ".webp" s (ground (arith, h, t, u, v)))
    ]
  ]
]

is_ending-of : {s : String} → IsEnding s → is_ending s ≡ true
is_ending-of (jpg e) = ground (arith, matches-Spells e)
is_ending-of (jpeg e) = ground (arith, matches-Spells e)
is_ending-of (png e) = ground (arith, matches-Spells e)
is_ending-of (webp e) = ground (arith, matches-Spells e)

-- A name that ends like a photo's, split at the ending.
record EndsLike (s : String) : Type 0 where
  before : String
  ending : String
  split : s ≡ before ++ ending
  like : IsEnding ending

EndsLike-has_photo_name : (s : String) → has_photo_name s ≡ true → EndsLike s
unfolding has_photo_name
EndsLike-has_photo_name [] h = cc
EndsLike-has_photo_name (c ∷ s) h = elim (Bool-cases (is_ending (c ∷ s))) [
  | inl t ↦ record {
    before = [];
    ending = c ∷ s;
    split = sym (append.nil (c ∷ s));
    like = IsEnding-of (c ∷ s) t;
  }
  | inr t ↦
      let rest = EndsLike-has_photo_name s (ground (arith, h, t)) in
      record {
        before = c ∷ rest.before;
        ending = rest.ending;
        split = ap (λ r. c ∷ r) rest.split ∙ sym (append.cons c rest.before rest.ending);
        like = rest.like;
      }
]

has_photo_name-ending : (e : String) → is_ending e ≡ true → has_photo_name e ≡ true
unfolding has_photo_name matches
has_photo_name-ending [] h = cc
has_photo_name-ending (c ∷ e) h = ground (arith, h)

has_photo_name-append :
    (before e : String) → is_ending e ≡ true → has_photo_name (before ++ e) ≡ true
unfolding has_photo_name
has_photo_name-append [] e h = rw (append.nil e) (has_photo_name-ending e h)
has_photo_name-append (c ∷ before) e h =
    rw (append.cons c before e) (ground (arith, has_photo_name-append before e h))

IsPhoto-of : (file : FileDescriptor) → is_photo_like file ≡ true → IsPhoto file
unfolding is_photo_like
IsPhoto-of file h = elim (Bool-cases (str_eq file.type "image/jpeg")) [
  | inl t ↦ jpeg_type ((eq_iff file.type "image/jpeg").0 t)
  | inr t ↦ elim (Bool-cases (str_eq file.type "image/png")) [
    | inl u ↦ png_type ((eq_iff file.type "image/png").0 u)
    | inr u ↦ elim (Bool-cases (str_eq file.type "image/webp")) [
      | inl v ↦ webp_type ((eq_iff file.type "image/webp").0 v)
      | inr v ↦
          let name = EndsLike-has_photo_name file.name (ground (arith, h, t, u, v)) in
          named name.before name.ending name.split name.like
    ]
  ]
]

is_photo_like-of : (file : FileDescriptor) → IsPhoto file → is_photo_like file ≡ true
unfolding is_photo_like
is_photo_like-of file (jpeg_type e) = ground (arith, (eq_iff file.type "image/jpeg").1 e)
is_photo_like-of file (png_type e) = ground (arith, (eq_iff file.type "image/png").1 e)
is_photo_like-of file (webp_type e) = ground (arith, (eq_iff file.type "image/webp").1 e)
is_photo_like-of file (named before ending e k) =
    let has = ap has_photo_name e ∙ has_photo_name-append before ending (is_ending-of k) in
    ground (arith, has)

pub is_photo_like-IsPhoto : (file : FileDescriptor) → (is_photo_like file ≡ true) ↔ IsPhoto file
is_photo_like-IsPhoto file = (IsPhoto-of file, is_photo_like-of file)
