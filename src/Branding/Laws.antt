-- ===== src/Branding/Laws.antt =====
-- What a change of the branding sends. `to_lower_case` lowers a text once, and leaves the white space
-- around it.
use cloud_photo_delivery.Prelude.{
  ◌≡◌, refl, sym, ◌∙◌, String, Option, none, some, str_eq, eq_iff, eq_refl, or_default, trim,
  trim-twice, arith, Bool-cases, inl, inr,
}
use cloud_photo_delivery.Branding.{
  Fields, BrandingPatch, no_fields, fields_of, comparable, comparable_color, changed,
  to_branding_patch, branding_values_from, parsed_values,
}

-- What the server keeps of a field after a patch.
abbrev pub kept : Option String → Option String → Option String
kept initial none = initial
kept initial (some text) = some text

abbrev pub apply_patch : Fields (Option String) → Fields (Option String) → Fields (Option String)
apply_patch initial patch = record {
  business_name = kept initial.business_name patch.business_name;
  primary_color = kept initial.primary_color patch.primary_color;
  secondary_color = kept initial.secondary_color patch.secondary_color;
  contact_email = kept initial.contact_email patch.contact_email;
  contact_phone = kept initial.contact_phone patch.contact_phone;
  website_url = kept initial.website_url patch.website_url;
}

abbrev pub nothing : BrandingPatch
nothing = record { fields = no_fields; logo_key = none; profile_image_key = none }

changed-same : (a b : String) → a ≡ b → changed a b ≡ none
changed-same a b e = rw e (rw (eq_refl b) refl)

-- For a way to compare a field: once what was changed is kept, nothing is changed.
module _ (view : Option String → String)
    (stable : (o : Option String) → view (some (view o)) ≡ view o) where
  kept-changed :
      (next initial : Option String)
      → view (kept initial (changed (view next) (view initial))) ≡ view next
  kept-changed next initial = elim (Bool-cases (str_eq (view next) (view initial))) [
    | inl t ↦ rw t (ground (arith, eq_iff (view next) (view initial)))
    | inr t ↦ rw t (stable next)
  ]

  changed-kept :
      (next initial : Option String)
      → changed (view next) (view (kept initial (changed (view next) (view initial)))) ≡ none
  changed-kept next initial = changed-same (view next) _ (sym (kept-changed next initial))

comparable-stable : (o : Option String) → comparable (some (comparable o)) ≡ comparable o
comparable-stable o = trim-twice (or_default o "")

module _ (to_lower_case : String → String)
    (lowers_once : (s : String)
      → to_lower_case (trim (to_lower_case s)) ≡ to_lower_case (trim s)) where
  comparable_color-stable :
      (o : Option String)
      → comparable_color to_lower_case (some (comparable_color to_lower_case o))
        ≡ comparable_color to_lower_case o
  comparable_color-stable o =
      lowers_once (trim (or_default o "")) ∙ rw (trim-twice (or_default o "")) refl

  -- Once the server has kept a patch, the same values send nothing more.
  pub to_branding_patch-apply_patch :
      (initial : Fields (Option String)) (values : Fields String)
      → let sent = to_branding_patch to_lower_case (some initial) values none none in
        to_branding_patch to_lower_case (some (apply_patch initial sent.fields)) values none none
        ≡ nothing
  unfolding to_branding_patch
  to_branding_patch-apply_patch initial values =
      let text = changed-kept comparable comparable-stable in
      let color = changed-kept (comparable_color to_lower_case) comparable_color-stable in
      rw
        (
          text (some values.business_name) initial.business_name,
          color (some values.primary_color) initial.primary_color,
          color (some values.secondary_color) initial.secondary_color,
          text (some values.contact_email) initial.contact_email,
          text (some values.contact_phone) initial.contact_phone,
          text (some values.website_url) initial.website_url,
        )
        refl

  comparable_color-parsed :
      (o : Option String)
      → comparable_color to_lower_case
          (some (to_lower_case (trim (to_lower_case (or_default o "")))))
        ≡ comparable_color to_lower_case o
  comparable_color-parsed o =
      lowers_once (trim (to_lower_case (or_default o "")))
      ∙ rw (trim-twice (to_lower_case (or_default o ""))) (lowers_once (or_default o ""))

  -- The form as it is set from the server's branding, submitted: the request would be empty.
  pub to_branding_patch-parsed_values :
      (branding : Option (Fields (Option String)))
      → to_branding_patch to_lower_case branding
          (parsed_values to_lower_case (branding_values_from to_lower_case branding))
          none
          none
        ≡ nothing
  unfolding to_branding_patch branding_values_from
  to_branding_patch-parsed_values branding =
      let f = fields_of branding in
      rw
        (
          changed-same _ _ (comparable-stable f.business_name),
          changed-same _ _ (comparable_color-parsed f.primary_color),
          changed-same _ _ (comparable_color-parsed f.secondary_color),
          changed-same _ _ (comparable-stable f.contact_email),
          changed-same _ _ (comparable-stable f.contact_phone),
          changed-same _ _ (comparable-stable f.website_url),
        )
        refl
