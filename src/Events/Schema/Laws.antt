-- ===== src/Events/Schema/Laws.antt =====
-- What the forms of an event send.
use cloud_photo_delivery.Prelude.{
  ℕ, ◌≡◌, ◌≢◌, refl, str_eq, eq_iff, String, Bool, true, false, not, ◌&&◌, ◌||◌, Option, none, some,
  arith, trim, trim-twice, Bool-cases, sym, ap, inl, inr,
}
use cloud_photo_delivery.Events.Api.{if_truthy}
use cloud_photo_delivery.Events.Schema.Trimmed.{IsTrimmed, trim-IsTrimmed}
use cloud_photo_delivery.Events.Schema.{
  CreateEventValues, NewEventValues, EventSettingsValues, fits, is_name, settings_schema,
  settings_valid, is_private, create_event_valid, new_event_valid, to_create_event_request,
  request_of, email_or_empty, to_update_event_settings_request, new_event_settings, Visibility,
  public, password_only, private_,
}

if_truthy-twice : (o : Option String) → if_truthy (if_truthy o) ≡ if_truthy o
if_truthy-twice none = refl
if_truthy-twice (some s) = ground arith

fits-if_truthy : (n : ℕ) (o : Option String) → fits n o ≡ true → fits n (if_truthy o) ≡ true
fits-if_truthy n none h = refl
fits-if_truthy n (some s) h = ground arith

is_name-trim : (name : String) → is_name (trim name) ≡ is_name name
is_name-trim name = rw (trim-twice name) refl

abbrev pub offers_nothing : EventSettingsValues → Bool
offers_nothing values = not values.allow_download && not values.allow_original_download

-- A private gallery offers no files.
abbrev pub keeps_private : EventSettingsValues → Bool
keeps_private values = not (is_private values.visibility) || offers_nothing values

settings_sent :
    (visibility : Visibility) (password : Option String) (download original watermark : Bool)
    → let values : EventSettingsValues = record {
      visibility = visibility;
      password = password;
      allow_download = download;
      allow_original_download = original;
      watermark_enabled = watermark;
    } in
      settings_schema false values ≡ true
      → (settings_schema false (new_event_settings values) ≡ true)
        × (keeps_private (new_event_settings values) ≡ true)
unfolding new_event_settings settings_schema settings_valid to_update_event_settings_request
settings_sent public password download original watermark h = (ground arith, ground arith)
settings_sent password_only none download original watermark h = (ground arith, ground arith)
settings_sent password_only (some p) download original watermark h = (ground arith, ground arith)
settings_sent private_ password download original watermark h = (ground arith, ground arith)

settings_schema-new_event :
    (is_email : String → Bool) (values : NewEventValues)
    → new_event_valid is_email values ≡ true
    → settings_schema false values.settings ≡ true
unfolding new_event_valid settings_schema
settings_schema-new_event is_email values h = ground arith

-- Where the schema of a new event takes the form's values: the settings that are sent are taken by
-- the schema of the settings of an event without a password, so a gallery that asks for a password
-- gets one and original files are offered only where files are; and a private gallery offers none.
pub new_event_settings-schema :
    (is_email : String → Bool) (values : NewEventValues)
    → new_event_valid is_email values ≡ true
    → (settings_schema false (new_event_settings values.settings) ≡ true)
      × (keeps_private (new_event_settings values.settings) ≡ true)
new_event_settings-schema is_email values h =
    settings_sent values.settings.visibility values.settings.password values.settings.allow_download
      values.settings.allow_original_download values.settings.watermark_enabled
      (settings_schema-new_event is_email values h)

email_or_empty-if_truthy :
    (is_email : String → Bool) (o : Option String)
    → email_or_empty is_email o ≡ true
    → email_or_empty is_email (if_truthy o) ≡ true
email_or_empty-if_truthy is_email none h = refl
email_or_empty-if_truthy is_email (some s) h = ground arith

request_of-twice : (values : CreateEventValues) → request_of (request_of values) ≡ request_of values
request_of-twice values =
    rw
      (
        trim-twice values.name,
        if_truthy-twice values.event_date,
        if_truthy-twice values.client_name,
        if_truthy-twice values.client_email,
        if_truthy-twice values.location,
        if_truthy-twice values.description,
      )
      refl

all_true :
    (a b c d e : Bool)
    → a && b && c && d && e ≡ true
    → (a ≡ true) × (b ≡ true) × (c ≡ true) × (d ≡ true) × (e ≡ true)
all_true a b c d e h = (ground arith, ground arith, ground arith, ground arith, ground arith)

create_event_valid-request_of :
    (is_email : String → Bool) (values : CreateEventValues)
    → create_event_valid is_email values ≡ true
    → create_event_valid is_email (request_of values) ≡ true
unfolding create_event_valid
create_event_valid-request_of is_email values h =
    let fields =
      all_true (is_name values.name) (fits 255 values.client_name)
        (email_or_empty is_email values.client_email) (fits 255 values.location)
        (fits 2000 values.description) h in
    rw
      (
        is_name-trim values.name,
        fields.0,
        fits-if_truthy 255 values.client_name fields.1,
        email_or_empty-if_truthy is_email values.client_email fields.2,
        fits-if_truthy 255 values.location fields.3,
        fits-if_truthy 2000 values.description fields.4,
      )
      refl

-- How an optional text of the form is sent.
pub data SentAs : Option String → Option String → Type 0 where
  missing : SentAs none none
  emptied : SentAs (some "") none
  kept : {text : String} → text ≢ "" → SentAs (some text) (some text)

if_truthy-SentAs : (o : Option String) → SentAs o (if_truthy o)
if_truthy-SentAs none = missing
if_truthy-SentAs (some text) = elim (Bool-cases (str_eq text "")) [
  | inl t ↦ rw ((eq_iff text "").0 t) emptied
  | inr t ↦ rw t (kept (λ p. ground (arith, eq_iff text "", p, t)))
]

-- The request that is sent for a form's values.
pub record IsRequestOf (values sent : CreateEventValues) : Type 0 where
  pub name : IsTrimmed values.name sent.name
  pub event_date : SentAs values.event_date sent.event_date
  pub client_name : SentAs values.client_name sent.client_name
  pub client_email : SentAs values.client_email sent.client_email
  pub location : SentAs values.location sent.location
  pub description : SentAs values.description sent.description

request_of-IsRequestOf : (values : CreateEventValues) → IsRequestOf values (request_of values)
request_of-IsRequestOf values = record {
  name = trim-IsTrimmed values.name;
  event_date = if_truthy-SentAs values.event_date;
  client_name = if_truthy-SentAs values.client_name;
  client_email = if_truthy-SentAs values.client_email;
  location = if_truthy-SentAs values.location;
  description = if_truthy-SentAs values.description;
}

-- Where a request for a new event is made of a form's values: it has their name without the white
-- space around it, of the other texts those that are not empty, as they are, and of the empty ones
-- none; the schema takes it as a form's values again; and the request that is made of it then is the
-- same.
pub to_create_event_request-twice :
    (is_email : String → Bool) (values sent : CreateEventValues)
    → to_create_event_request is_email values ≡ some sent
    → IsRequestOf values sent
      × (create_event_valid is_email sent ≡ true)
      × (to_create_event_request is_email sent ≡ some sent)
unfolding to_create_event_request
to_create_event_request-twice is_email values sent h =
    elim (Bool-cases (create_event_valid is_email values)) [
      | inl valid ↦
          let same : request_of values ≡ sent = ground arith in
          let valid_again = create_event_valid-request_of is_email values valid in
          rw (sym same) (
            request_of-IsRequestOf values,
            valid_again,
            rw valid_again (ap some (request_of-twice values)),
          )
      | inr refused ↦ ground arith
    ]
