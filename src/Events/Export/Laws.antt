-- ===== src/Events/Export/Laws.antt =====
-- What the card of an export shows.
use cloud_photo_delivery.Prelude.{
  ℕ, ◌+◌, ◌≡◌, String, Bool, true, false, ◌&&◌, Option, none, some, if◌then◌else◌, arith, str_eq,
  get-put, eq_refl, Option-cases, inl, inr,
}
use cloud_photo_delivery.Events.Api.{ExportStatus, pending, processing, ready, failed, expired}
use cloud_photo_delivery.Events.Export.{
  Storage, Exports, read_stored_export_id, store_export_id, created, export_key, ExportQuery, Card,
  card,
}

abbrev pub keeps : Option Storage → Bool
keeps none = false
keeps (some s) = s.readable && s.writable

-- Once the server has made an export: its id is what the card reads, where the session's storage is
-- there, can be read and takes writes; else the card reads what it read before, so it never asks
-- for the new export.
pub read_stored_export_id-created :
    (event_id id : String) (x : Exports)
    → str_eq id "" ≡ false
    → read_stored_export_id event_id (created event_id id x)
      ≡ (if keeps x.storage then some id else read_stored_export_id event_id x)
unfolding read_stored_export_id created store_export_id
read_stored_export_id-created event_id id x h = elim (Option-cases x.storage) [
  | inl e ↦ ground (arith, e)
  | inr (s, e) ↦ ground (
    arith,
    e,
    get-put (export_key event_id) (export_key event_id) id s.texts,
    eq_refl (export_key event_id),
  )
]

abbrev one : Bool → ℕ
one true = 1
one false = 0

-- How many of the parts for an export the card shows.
abbrev pub parts_shown : Card → ℕ
parts_shown c = one c.working + one c.download + one c.failure + one c.expiry

abbrev pub answered : ExportStatus → Option (Option ℕ) → ExportQuery
answered status expires_at = record {
  is_pending = false;
  error = none;
  data_of = some (record { status = status; expires_at = expires_at });
}

-- For an export that the card asks for, once the server has answered with its status: the card
-- shows just one of its four parts, at any time, and neither the button for a first export nor a
-- problem.
pub card_shows_one :
    (now : ℕ) (id : String) (status : ExportStatus) (expires_at : Option (Option ℕ))
    → str_eq id "" ≡ false
    → let c = card now (some id) (answered status expires_at) in
      (parts_shown c ≡ 1) × (c.generate ≡ false) × (c.problem ≡ false)
unfolding card
card_shows_one now id pending expires_at h = (ground arith, ground arith, ground arith)
card_shows_one now id processing expires_at h = (ground arith, ground arith, ground arith)
card_shows_one now id ready none h = (ground arith, ground arith, ground arith)
card_shows_one now id ready (some none) h = (ground arith, ground arith, ground arith)
card_shows_one now id ready (some (some time)) h = (ground arith, ground arith, ground arith)
card_shows_one now id failed expires_at h = (ground arith, ground arith, ground arith)
card_shows_one now id expired expires_at h = (ground arith, ground arith, ground arith)
