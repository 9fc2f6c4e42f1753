-- ===== src/Branding.antt =====
-- apps/web/src/features/branding/schema.ts: the branding of a photographer. What zod takes for an
-- email or an address, and `toLowerCase`, are parameters.
pub mod Laws
pub mod Form
pub mod Asset
mod Tests
use Prim.Native.Char.{code}
use Prim.Native.String.{[], ◌∷◌}
use cloud_photo_delivery.Prelude.{
  ℕ, ◌+◌, ◌-◌, ◌*◌, String, Bool, true, false, not, ◌&&◌, ◌||◌, Option, none, some, leb, ltb, ◌==◌,
  if◌then◌else◌, str_eq, or_default, trim, is_empty, utf16_length,
}

pub record BrandingAssetFile : Type 0 where
  pub name : String
  pub type : String
  pub size : ℕ

abbrev pub max_branding_asset_bytes : ℕ
max_branding_asset_bytes = 5 * 1024 * 1024

abbrev pub is_branding_type : String → Bool
is_branding_type type =
    str_eq type "image/png" || str_eq type "image/jpeg" || str_eq type "image/webp"

unfoldable pub validate_branding_asset : BrandingAssetFile → Option String
validate_branding_asset file =
    if not (is_branding_type file.type)
    then some "Use a PNG, JPEG, or WebP image."
    else if ltb file.size 1
    then some "The image is empty."
    else if ltb max_branding_asset_bytes file.size
    then some "Images must be 5 MB or smaller."
    else none

-- `TEXT_FIELDS`, a value for each of them.
pub record Fields (A : Type 0) : Type 0 where
  pub business_name : A
  pub primary_color : A
  pub secondary_color : A
  pub contact_email : A
  pub contact_phone : A
  pub website_url : A

pub record BrandingPatch : Type 0 where
  pub fields : Fields (Option String)
  pub logo_key : Option String
  pub profile_image_key : Option String

abbrev pub no_fields : Fields (Option String)
no_fields = record {
  business_name = none;
  primary_color = none;
  secondary_color = none;
  contact_email = none;
  contact_phone = none;
  website_url = none;
}

-- `initial`, which may be undefined: then no field is there.
abbrev pub fields_of : Option (Fields (Option String)) → Fields (Option String)
fields_of initial = or_default initial no_fields

-- `/^#[0-9a-f]{6}$/`, of a text without line breaks at its end: `n` more digits are wanted.
abbrev is_hex : ℕ → Bool
is_hex c = (leb 48 c && leb c 57) || (leb 97 c && leb c 102)

unfoldable pub hex_digits : ℕ → String → Bool
hex_digits n [] = n == 0
hex_digits n (c ∷ s) = let rest = hex_digits (n - 1) s in not (n == 0) && is_hex (code c) && rest

unfoldable pub is_hex_color : String → Bool
is_hex_color [] = false
is_hex_color (c ∷ s) = code c == 35 && hex_digits 6 s

-- `hexColor` takes a lowered text.
abbrev pub is_color : String → Bool
is_color value = is_empty value || is_hex_color value

-- `comparable`, for a text.
abbrev pub comparable : Option String → String
comparable value = trim (or_default value "")

-- One round of the loop of `toBrandingPatch`.
abbrev pub changed : String → String → Option String
changed next previous = if not (str_eq next previous) then some next else none

module _ (to_lower_case : String → String) where
  -- The same for a color.
  abbrev pub comparable_color : Option String → String
  comparable_color value = to_lower_case (trim (or_default value ""))

  unfoldable pub to_branding_patch :
      Option (Fields (Option String))
      → Fields String
      → Option String
      → Option String
      → BrandingPatch
  to_branding_patch initial values logo_key profile_image_key = record {
    fields = record {
      business_name =
          changed (comparable (some values.business_name))
            (comparable (fields_of initial).business_name);
      primary_color =
          changed (comparable_color (some values.primary_color))
            (comparable_color (fields_of initial).primary_color);
      secondary_color =
          changed (comparable_color (some values.secondary_color))
            (comparable_color (fields_of initial).secondary_color);
      contact_email =
          changed (comparable (some values.contact_email))
            (comparable (fields_of initial).contact_email);
      contact_phone =
          changed (comparable (some values.contact_phone))
            (comparable (fields_of initial).contact_phone);
      website_url =
          changed (comparable (some values.website_url))
            (comparable (fields_of initial).website_url);
    };
    logo_key = logo_key;
    profile_image_key = profile_image_key;
  }

  unfoldable pub branding_values_from : Option (Fields (Option String)) → Fields String
  branding_values_from branding = record {
    business_name = or_default (fields_of branding).business_name "";
    primary_color = to_lower_case (or_default (fields_of branding).primary_color "");
    secondary_color = to_lower_case (or_default (fields_of branding).secondary_color "");
    contact_email = or_default (fields_of branding).contact_email "";
    contact_phone = or_default (fields_of branding).contact_phone "";
    website_url = or_default (fields_of branding).website_url "";
  }

  -- `brandingSchema`: the values that it makes of a form's, if it takes them all.
  abbrev pub parsed_values : Fields String → Fields String
  parsed_values raw = record {
    business_name = trim raw.business_name;
    primary_color = to_lower_case (trim raw.primary_color);
    secondary_color = to_lower_case (trim raw.secondary_color);
    contact_email = trim raw.contact_email;
    contact_phone = trim raw.contact_phone;
    website_url = trim raw.website_url;
  }

  unfoldable pub branding_valid : (is_email is_url : String → Bool) → Fields String → Bool
  branding_valid is_email is_url raw =
      leb (utf16_length (trim raw.business_name)) 255
      && is_color (to_lower_case (trim raw.primary_color))
      && is_color (to_lower_case (trim raw.secondary_color))
      && (str_eq raw.contact_email "" || is_email raw.contact_email)
      && leb (utf16_length (trim raw.contact_phone)) 40
      && (str_eq raw.website_url "" || is_url raw.website_url)

  unfoldable pub parse_branding :
      (is_email is_url : String → Bool) → Fields String → Option (Fields String)
  parse_branding is_email is_url raw =
      if branding_valid is_email is_url raw then some (parsed_values raw) else none
