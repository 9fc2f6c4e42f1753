-- ===== src/Events/Schema.antt =====
-- The forms of an event: apps/web/src/features/events/schema.ts, the requests that api.ts makes of
-- their values, and what event-form.tsx, settings-form.tsx and status-actions.tsx send. Whether zod
-- takes a text for an email is a parameter.
pub mod Trimmed
pub mod Laws
use cloud_photo_delivery.Prelude.{
  ℕ, String, Bool, true, false, not, ◌&&◌, ◌||◌, Option, none, some, List, [], ◌∷◌, leb,
  if◌then◌else◌, truthy, str_eq, or_default, trim, utf16_length,
}
use cloud_photo_delivery.Events.Api.{EventStatus, upcoming, active, completed, if_truthy}

pub data Visibility : Type 0 where
  public password_only private_ : Visibility

pub record CreateEventValues : Type 0 where
  pub name : String
  pub event_date : Option String
  pub client_name : Option String
  pub client_email : Option String
  pub location : Option String
  pub description : Option String

pub record EventSettingsValues : Type 0 where
  pub visibility : Visibility
  pub password : Option String
  pub allow_download : Bool
  pub allow_original_download : Bool
  pub watermark_enabled : Bool

pub record NewEventValues : Type 0 where
  pub event : CreateEventValues
  pub settings : EventSettingsValues

-- `z.string().max(n).optional().or(z.literal(""))`
abbrev pub fits : ℕ → Option String → Bool
fits n none = true
fits n (some text) = leb (utf16_length text) n

abbrev pub is_name : String → Bool
is_name name = leb 1 (utf16_length (trim name)) && leb (utf16_length (trim name)) 255

abbrev pub is_password : Visibility → Bool
is_password password_only = true
is_password _ = false

unfoldable pub settings_valid : EventSettingsValues → Bool
settings_valid values =
    fits 128 values.password && (values.allow_download || not values.allow_original_download)

-- `createEventSettingsSchema(passwordProtected)`
unfoldable pub settings_schema : Bool → EventSettingsValues → Bool
settings_schema password_protected values =
    settings_valid values
    && (not (is_password values.visibility) || password_protected || truthy values.password)

abbrev pub request_of : CreateEventValues → CreateEventValues
request_of values = record {
  name = trim values.name;
  event_date = if_truthy values.event_date;
  client_name = if_truthy values.client_name;
  client_email = if_truthy values.client_email;
  location = if_truthy values.location;
  description = if_truthy values.description;
}

module _ (is_email : String → Bool) where
  abbrev pub email_or_empty : Option String → Bool
  email_or_empty none = true
  email_or_empty (some text) = is_email text || str_eq text ""

  unfoldable pub create_event_valid : CreateEventValues → Bool
  create_event_valid values =
      is_name values.name
      && fits 255 values.client_name
      && email_or_empty values.client_email
      && fits 255 values.location
      && fits 2000 values.description

  unfoldable pub new_event_valid : NewEventValues → Bool
  new_event_valid values =
      create_event_valid values.event
      && settings_valid values.settings
      && (not (is_password values.settings.visibility) || truthy values.settings.password)

  -- `toCreateEventRequest`: a value that the schema refuses throws, as `none`; an empty text is not
  -- sent.
  unfoldable pub to_create_event_request : CreateEventValues → Option CreateEventValues
  to_create_event_request values =
      if create_event_valid values then some (request_of values) else none

unfoldable pub to_update_event_settings_request : EventSettingsValues → EventSettingsValues
to_update_event_settings_request values = record values { password = if_truthy values.password }

-- The settings that `onSubmit` of the new event's form sends.
abbrev pub is_private : Visibility → Bool
is_private private_ = true
is_private _ = false

unfoldable pub new_event_settings : EventSettingsValues → EventSettingsValues
new_event_settings input = to_update_event_settings_request (record {
  visibility = input.visibility;
  password = if is_password input.visibility then some (or_default input.password "") else some "";
  allow_download = if is_private input.visibility then false else input.allow_download;
  allow_original_download =
      if is_private input.visibility || not input.allow_download
      then false
      else input.allow_original_download;
  watermark_enabled = input.watermark_enabled;
})

-- `ACTIONS` of the status card: the status that its button asks for, and the texts, if it has one.
pub record Action : Type 0 where
  pub to : EventStatus
  pub label : String
  pub pending : String
  pub success : String

unfoldable pub action_for : EventStatus → Option Action
action_for upcoming = some (record {
  to = active;
  label = "Mark active";
  pending = "Starting...";
  success = "Event is now active";
})
action_for active = some (record {
  to = completed;
  label = "Mark completed";
  pending = "Completing...";
  success = "Event marked completed";
})
action_for _ = none

-- `onSubmit` of the new event's form: the event is made, or refused; the settings are sent behind
-- it, and a failure of theirs is only shown. The messages stand in the order in which they come.
pub data Submitted : Type 0 where
  opened : (event_id : String) (errors : List String) → Submitted
  refused : (plan_limit : Bool) (message : String) → Submitted

pub data CreateReply : Type 0 where
  created : (event_id : String) → CreateReply
  not_created : (plan_limit : Bool) (message : String) → CreateReply

abbrev open_event : String → Bool → Submitted
open_event event_id settings_saved = opened event_id (
    if settings_saved
    then []
    else "Event created, but the gallery defaults could not be saved. You can change them in Settings."
      ∷ [])

unfoldable pub submit_new_event :
    CreateReply → (EventSettingsValues → Bool) → EventSettingsValues → Submitted
submit_new_event (not_created plan_limit message) settings_saved input = refused plan_limit message
submit_new_event (created event_id) settings_saved input =
    open_event event_id (settings_saved (new_event_settings input))
