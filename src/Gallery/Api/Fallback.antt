-- ===== src/Gallery/Api/Fallback.antt =====
-- `usePhotoUrlWithFallback` of apps/web/src/features/gallery/api.ts: the loop over the variants that
-- a page can show. What `fetchPhotoUrl` gives for each of them is a parameter.
use cloud_photo_delivery.Prelude.{
  ◌≡◌, refl, String, Bool, true, false, Option, none, some, List, [], ◌∷◌, ◌++◌, str_eq,
  if◌then◌else◌, arith, All,
}
use cloud_photo_delivery.Client.{ApiError}
use cloud_photo_delivery.Gallery.Variant.{UrlVariant}
use cloud_photo_delivery.Gallery.Api.{UrlError, api, other}

-- What a promise of `fetchPhotoUrl` settles with.
pub data Tried : Type 0 where
  given : String → Tried
  failed : UrlError → Tried

-- `error instanceof ApiError && error.code === "VARIANT_UNAVAILABLE"`
abbrev pub unavailable_error : Tried → Option ApiError
unavailable_error (failed (api e)) = if str_eq e.code_of "VARIANT_UNAVAILABLE" then some e else none
unavailable_error _ = none

abbrev pub no_variant : ApiError
no_variant = record {
  code_of = "VARIANT_UNAVAILABLE";
  message = "No variant";
  status = 404;
  retry_after_seconds = none;
}

-- `lastError ?? new ApiError(...)`
abbrev pub last_error : Option ApiError → ApiError
last_error none = no_variant
last_error (some e) = e

abbrev is_unavailable : List UrlVariant × Tried → Bool
is_unavailable (asked, given url) = false
is_unavailable (asked, failed other) = false
is_unavailable (asked, failed (api e)) = str_eq e.code_of "VARIANT_UNAVAILABLE"

code_missing :
    (t : Tried) (e : ApiError)
    → unavailable_error t ≡ some e
    → str_eq e.code_of "VARIANT_UNAVAILABLE" ≡ true
code_missing (given url) e h = cc
code_missing (failed other) e h = cc
code_missing (failed (api x)) e h = ground arith

module _ (tried : UrlVariant → Tried) where
  -- The loop from a variant on: the variants asked for, and what the query ends with.
  abbrev pub ask_next :
      UrlVariant → Tried → Option ApiError → List UrlVariant × Tried → List UrlVariant × Tried
  ask_next v here none rest = (v ∷ [], here)
  ask_next v here (some e) rest = (v ∷ rest.0, rest.1)

  abbrev or_last : Option ApiError → Option ApiError → Option ApiError
  or_last none last = last
  or_last (some e) last = some e

  unfoldable pub try_variants : Option ApiError → List UrlVariant → List UrlVariant × Tried
  try_variants last [] = ([], failed (api (last_error last)))
  try_variants last (v ∷ variants) =
      let rest = try_variants (or_last (unavailable_error (tried v)) last) variants in
      ask_next v (tried v) (unavailable_error (tried v)) rest

  unfoldable pub photo_url_with_fallback : List UrlVariant → List UrlVariant × Tried
  photo_url_with_fallback variants = try_variants none variants

  -- What is tried, in order, up to the first variant that the server has.
  abbrev pub IsMissing : UrlVariant → Type 0
  IsMissing v = (e : ApiError) × (unavailable_error (tried v) ≡ some e)

  try_variants-append :
      (last : Option ApiError) (before : List UrlVariant) (v : UrlVariant) (after : List UrlVariant)
      → All IsMissing before
      → unavailable_error (tried v) ≡ none
      → try_variants last (before ++ v ∷ after) ≡ (before ++ v ∷ [], tried v)
  unfolding try_variants
  try_variants-append last [] v after h here = rw here refl
  try_variants-append last (w ∷ before) v after ((e, missing), h) here =
      rw missing (rw (try_variants-append (some e) before v after h here) refl)

  -- Where the server has a variant and none of those before it: the query asks for these and for it,
  -- in order, for none behind it, and ends with what it gave, be it a URL or another error.
  pub photo_url_with_fallback-append :
      (before : List UrlVariant) (v : UrlVariant) (after : List UrlVariant)
      → All IsMissing before
      → unavailable_error (tried v) ≡ none
      → photo_url_with_fallback (before ++ v ∷ after) ≡ (before ++ v ∷ [], tried v)
  unfolding photo_url_with_fallback
  photo_url_with_fallback-append before v after h here =
      try_variants-append none before v after h here

  try_variants-missing :
      (last : Option ApiError) (variants : List UrlVariant)
      → All IsMissing variants
      → str_eq (last_error last).code_of "VARIANT_UNAVAILABLE" ≡ true
      → is_unavailable (try_variants last variants) ≡ true
  unfolding try_variants
  try_variants-missing last [] h code = code
  try_variants-missing last (w ∷ variants) ((e, missing), h) code =
      rw missing (try_variants-missing (some e) variants h (code_missing (tried w) e missing))
