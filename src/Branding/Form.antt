-- ===== src/Branding/Form.antt =====
-- apps/web/src/features/branding/branding-form.tsx: the state of the form and what it sends. The
-- fields stand in react-hook-form, so a submission is given their values; a file that is staged for
-- an image stands here as the key under which it was stored.
pub mod Laws
use cloud_photo_delivery.Prelude.{
  String, Bool, true, false, Option, none, some, if◌then◌else◌, is_some, ◌||◌, str_eq,
}
use cloud_photo_delivery.Branding.{
  Fields, BrandingPatch, to_branding_patch, branding_values_from, parse_branding,
}

pub data AssetKind : Type 0 where
  logo profile_image : AssetKind

pub data AssetChange : Type 0 where
  set : (storage_key : String) → AssetChange
  clear : AssetChange

pub record FormState : Type 0 where
  pub logo_change : Option AssetChange
  pub profile_change : Option AssetChange
  pub clear_target : Option AssetKind

-- What a submission does: nothing for values that the schema refuses, a message, or a request.
pub data Submission : Type 0 where
  ignored nothing_to_save : Submission
  sends : BrandingPatch → Submission

abbrev pub asset_key : Option AssetChange → Option String
asset_key none = none
asset_key (some (set storage_key)) = some storage_key
asset_key (some clear) = some ""

-- `Object.keys(patch).length === 0`
abbrev has_field : Fields (Option String) → Bool
has_field f =
    is_some f.business_name
    || is_some f.primary_color
    || is_some f.secondary_color
    || is_some f.contact_email
    || is_some f.contact_phone
    || is_some f.website_url

abbrev pub has_change : BrandingPatch → Bool
has_change patch =
    has_field patch.fields || is_some patch.logo_key || is_some patch.profile_image_key

abbrev pub send_patch : BrandingPatch → Submission
send_patch patch = if has_change patch then sends patch else nothing_to_save

module _ (to_lower_case : String → String) (is_email is_url : String → Bool) where
  abbrev pub submit_parsed :
      Option (Fields (Option String)) → Option (Fields String) → FormState → Submission
  submit_parsed branding none s = ignored
  submit_parsed branding (some values) s = send_patch (
      to_branding_patch to_lower_case branding values (asset_key s.logo_change)
        (asset_key s.profile_change))

  unfoldable pub on_submit :
      Option (Fields (Option String)) → Fields String → FormState → Submission
  on_submit branding raw s =
      submit_parsed branding (parse_branding to_lower_case is_email is_url raw) s

abbrev pub no_changes : FormState
no_changes = record { logo_change = none; profile_change = none; clear_target = none }

-- The request has succeeded; the fields are reset to `branding_values_from` of its answer.
unfoldable pub saved : FormState → FormState
saved s = record s { logo_change = none; profile_change = none }

abbrev clear_one : Option AssetKind → FormState → FormState
clear_one none s = s
clear_one (some logo) s = record s { logo_change = some clear }
clear_one (some profile_image) s = record s { profile_change = some clear }

unfoldable pub confirm_clear : FormState → FormState
confirm_clear s = let s' = clear_one s.clear_target s in record s' { clear_target = none }

unfoldable pub discard : FormState → FormState
discard s = record s { logo_change = none; profile_change = none }

-- The image that is shown: `staged` is the URL of the file that is staged.
abbrev stored_or : Option String → Option String → Option String
stored_or none stored = stored
stored_or (some url) stored = some url

unfoldable pub image_url : Option AssetChange → Option String → Option String → Option String
image_url (some clear) staged stored = none
image_url (some (set key)) staged stored = stored_or staged stored
image_url none staged stored = stored_or staged stored
