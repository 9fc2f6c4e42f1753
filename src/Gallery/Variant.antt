-- ===== src/Gallery/Variant.antt =====
-- `UrlVariant` and `keyOf` of url-cache.ts and batch-url-fetcher.ts in
-- apps/web/src/features/gallery, and why two photos or variants never share a key.
use Prim.Native.String
use Prim.Native.Char.{code}
use Prim.Native.String.{[], ◌∷◌}
use text.Mathlib.TextLemmas.{nil-append, cons-append, append_cancel_right}
use cloud_photo_delivery.Prelude.{ℕ, String, ◌≡◌, refl, ap, sym, ◌∙◌, arith}

pub data UrlVariant : Type 0 where
  thumbnail medium large original : UrlVariant

abbrev pub variant_text : UrlVariant → String
variant_text thumbnail = ":thumbnail"
variant_text medium = ":medium"
variant_text large = ":large"
variant_text original = ":original"

-- `${photoId}:${variant}`
unfoldable pub key_of : String → UrlVariant → String
key_of photo_id variant = String.◌++◌ photo_id (variant_text variant)

-- The last two code points of a text, behind those of what stands before it.
last_two : ℕ × ℕ → String → ℕ × ℕ
last_two seen [] = seen
last_two (a, b) (c ∷ s) = last_two (b, code c) s

last_two-append :
    (seen : ℕ × ℕ) (s t : String) → last_two seen (String.◌++◌ s t) ≡ last_two (last_two seen s) t
unfolding last_two
last_two-append seen [] t = rw nil-append
last_two-append (a, b) (c ∷ s) t = rw cons-append (last_two-append (b, code c) s t)

-- The texts of two variants end alike only if the variants are the same.
ending : UrlVariant → ℕ × ℕ
ending thumbnail = (105, 108)
ending medium = (117, 109)
ending large = (103, 101)
ending original = (97, 108)

last_two-variant : (seen : ℕ × ℕ) (v : UrlVariant) → last_two seen (variant_text v) ≡ ending v
unfolding last_two ending
last_two-variant seen thumbnail = refl
last_two-variant seen medium = refl
last_two-variant seen large = refl
last_two-variant seen original = refl

ending_injective : (v w : UrlVariant) → ending v ≡ ending w → v ≡ w
unfolding ending
ending_injective thumbnail w h = ground arith
ending_injective medium w h = ground arith
ending_injective large w h = ground arith
ending_injective original w h = ground arith

-- Two pairs of a photo and a variant with one key are the same pair, whatever the photos' ids hold.
pub key_of_injective :
    (s t : String) (v w : UrlVariant) → key_of s v ≡ key_of t w → (s ≡ t) × (v ≡ w)
unfolding key_of
key_of_injective s t v w e =
    let same : v ≡ w = ending_injective v w (
      sym (last_two-append (0, 0) s (variant_text v) ∙ last_two-variant (last_two (0, 0) s) v)
      ∙ ap (last_two (0, 0)) e
      ∙ last_two-append (0, 0) t (variant_text w)
      ∙ last_two-variant (last_two (0, 0) t) w) in
    (
      append_cancel_right s t (variant_text w)
          (ap (λ x. String.◌++◌ s (variant_text x)) (sym same) ∙ e),
      same,
    )
