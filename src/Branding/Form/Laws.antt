-- ===== src/Branding/Form/Laws.antt =====
-- The branding form once it is saved.
use cloud_photo_delivery.Prelude.{
  ◌≡◌, refl, String, Bool, true, false, Option, trim, Bool-cases, inl, inr,
}
use cloud_photo_delivery.Branding.{Fields, branding_values_from, parse_branding, branding_valid}
use cloud_photo_delivery.Branding.Laws.{to_branding_patch-parsed_values}
use cloud_photo_delivery.Branding.Form.{
  FormState, Submission, ignored, nothing_to_save, sends, on_submit, saved, discard,
}

abbrev pub is_request : Submission → Bool
is_request ignored = false
is_request nothing_to_save = false
is_request (sends patch) = true

-- Once the form is saved, or its changes are discarded, and its fields are those of the server's
-- branding: submitting it again sends no request, whatever was staged or cleared before; where
-- `toLowerCase` lowers a text once and leaves the white space around it.
pub on_submit-saved :
    (to_lower_case : String → String) (is_email is_url : String → Bool)
    (branding : Option (Fields (Option String))) (s : FormState)
    → ((text : String) → to_lower_case (trim (to_lower_case text)) ≡ to_lower_case (trim text))
    → let again = λ (s' : FormState). is_request (
        on_submit to_lower_case is_email is_url branding
          (branding_values_from to_lower_case branding)
          s') in
      (again (saved s) ≡ false) × (again (discard s) ≡ false)
unfolding on_submit saved discard parse_branding
on_submit-saved to_lower_case is_email is_url branding s lowers_once =
    elim (Bool-cases (
      branding_valid to_lower_case is_email is_url (branding_values_from to_lower_case branding))) [
        | inl t ↦
            rw t
              (rw (to_branding_patch-parsed_values to_lower_case lowers_once branding) (refl, refl))
        | inr t ↦ rw t (refl, refl)
      ]
