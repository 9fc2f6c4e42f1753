-- ===== src/Events/Tests.antt =====
-- Runs of the events' forms and lists on small data.
use cloud_photo_delivery.Prelude.{
  ℕ, ◌≡◌, refl, String, Bool, true, false, Option, none, some, [], ◌∷◌, str_eq, trim, trim_start,
  trim_end, utf16_length, if◌then◌else◌,
}
use cloud_photo_delivery.Events.Api.{EventPage, event_options, ready}
use cloud_photo_delivery.Events.Api.Laws.{HasPages, last_page, more_pages, event_options-HasPages}
use cloud_photo_delivery.Events.Schema.{
  CreateEventValues, NewEventValues, password_only, new_event_valid, create_event_valid,
  settings_valid, to_create_event_request, new_event_settings, settings_schema,
}
use cloud_photo_delivery.Events.Schema.Laws.{
  keeps_private, IsRequestOf, new_event_settings-schema, to_create_event_request-twice,
}
use cloud_photo_delivery.Events.Export.{Exports, read_stored_export_id, created, card}
use cloud_photo_delivery.Events.Export.Laws.{
  keeps, parts_shown, answered, read_stored_export_id-created, card_shows_one,
}
use cloud_photo_delivery.Events.Format.{slug_of}
use cloud_photo_delivery.Events.Format.Laws.{is_slug, slug_of-is_slug}

-- Two pages of events, which are numbers.
abbrev first_page : EventPage ℕ
first_page = record { items = 1 ∷ 2 ∷ []; next_cursor = some "c2" }

abbrev second_page : EventPage ℕ
second_page = record { items = 3 ∷ []; next_cursor = none }

abbrev two_pages : Option String → Option (EventPage ℕ)
two_pages none = some first_page
two_pages (some cursor) = if str_eq cursor "c2" then some second_page else none

two_pages-HasPages : HasPages two_pages none ((1 ∷ 2 ∷ []) ∷ (3 ∷ []) ∷ [])
two_pages-HasPages =
    more_pages none first_page ((3 ∷ []) ∷ []) refl refl
      (last_page (some "c2") second_page refl refl)

event_options-HasPages_example : event_options two_pages ≡ some (1 ∷ 2 ∷ 3 ∷ [])
event_options-HasPages_example =
    event_options-HasPages two_pages ((1 ∷ 2 ∷ []) ∷ (3 ∷ []) ∷ []) two_pages-HasPages

abbrev anything : String → Bool
anything text = true

abbrev wedding : CreateEventValues
wedding = record {
  name = " Wedding ";
  event_date = some "";
  client_name = some "Sarah";
  client_email = none;
  location = some "";
  description = none;
}

abbrev wedding_sent : CreateEventValues
wedding_sent = record {
  name = "Wedding";
  event_date = none;
  client_name = some "Sarah";
  client_email = none;
  location = none;
  description = none;
}

wedding_request : to_create_event_request anything wedding ≡ some wedding_sent
unfolding to_create_event_request create_event_valid trim trim_start trim_end utf16_length
wedding_request = refl

to_create_event_request-twice_example :
    IsRequestOf wedding wedding_sent
    × (create_event_valid anything wedding_sent ≡ true)
    × (to_create_event_request anything wedding_sent ≡ some wedding_sent)
to_create_event_request-twice_example =
    to_create_event_request-twice anything wedding wedding_sent wedding_request

abbrev new_wedding : NewEventValues
new_wedding = record {
  event = wedding;
  settings = record {
    visibility = password_only;
    password = some "roses";
    allow_download = true;
    allow_original_download = false;
    watermark_enabled = false;
  };
}

new_wedding_valid : new_event_valid anything new_wedding ≡ true
unfolding new_event_valid settings_valid create_event_valid trim trim_start trim_end utf16_length
new_wedding_valid = refl

new_event_settings-schema_example :
    (settings_schema false (new_event_settings new_wedding.settings) ≡ true)
    × (keeps_private (new_event_settings new_wedding.settings) ≡ true)
new_event_settings-schema_example = new_event_settings-schema anything new_wedding new_wedding_valid

abbrev as_it_is : String → String
as_it_is text = text

slug_of-is_slug_example : is_slug true (slug_of as_it_is " sarah & john's (2026) ") ≡ true
slug_of-is_slug_example = slug_of-is_slug as_it_is " sarah & john's (2026) "

-- A browser that keeps nothing for the session, and an export that is ready until a time.
abbrev full_storage : Exports
full_storage = record {
  storage = some (record { readable = true; writable = false; texts = [] });
  listeners = [];
  called = [];
}

read_stored_export_id-created_example :
    read_stored_export_id "e1" (created "e1" "x1" full_storage)
    ≡ (if keeps full_storage.storage then some "x1" else read_stored_export_id "e1" full_storage)
read_stored_export_id-created_example = read_stored_export_id-created "e1" "x1" full_storage refl

card_shows_one_example :
    (let c = card 2000 (some "x1") (answered ready (some (some 1000))) in
      (parts_shown c ≡ 1) × (c.generate ≡ false) × (c.problem ≡ false))
card_shows_one_example = card_shows_one 2000 "x1" ready (some (some 1000)) refl
