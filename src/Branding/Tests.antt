-- ===== src/Branding/Tests.antt =====
-- Runs of the branding form on small data. The letters are small already.
use cloud_photo_delivery.Prelude.{◌≡◌, refl, String, Bool, true, false, Option, none, some}
use cloud_photo_delivery.Branding.Asset.{not_put, stored, transport_error, upload_branding_asset}
use cloud_photo_delivery.Branding.Asset.Laws.{Ends, upload_branding_asset_lem}
use cloud_photo_delivery.Branding.{Fields, branding_values_from}
use cloud_photo_delivery.Branding.Form.{FormState, set, on_submit, saved, discard}
use cloud_photo_delivery.Branding.Form.Laws.{is_request, on_submit-saved}

abbrev as_it_is : String → String
as_it_is text = text

abbrev anything : String → Bool
anything text = true

abbrev studio : Fields (Option String)
studio = record {
  business_name = some "Studio";
  primary_color = some "#1a2b3c";
  secondary_color = none;
  contact_email = none;
  contact_phone = none;
  website_url = none;
}

abbrev renamed : Fields String
renamed = record {
  business_name = "Studio One ";
  primary_color = "#1a2b3c";
  secondary_color = "#000000";
  contact_email = "";
  contact_phone = "";
  website_url = "";
}

abbrev staged : FormState
staged = record {
  logo_change = some (set "logos/new.png");
  profile_change = none;
  clear_target = none;
}

on_submit-saved_example :
    (let again = λ (s' : FormState). is_request (
        on_submit as_it_is anything anything
          (some studio)
          (branding_values_from as_it_is (some studio))
          s') in
      (again (saved staged) ≡ false) × (again (discard staged) ≡ false))
on_submit-saved_example =
    on_submit-saved as_it_is anything anything (some studio) staged (λ text. refl)

upload_branding_asset_lem_example :
    (let first = not_put "logos/1.png" (transport_error 403) in
      let second = stored "logos/2.png" in Ends first second (upload_branding_asset first second))
upload_branding_asset_lem_example =
    upload_branding_asset_lem (not_put "logos/1.png" (transport_error 403)) (stored "logos/2.png")
