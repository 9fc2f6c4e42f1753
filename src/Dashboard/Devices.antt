-- ===== src/Dashboard/Devices.antt =====
-- apps/web/src/features/devices/summary.ts. `Date.parse` is a parameter: it gives the milliseconds
-- of a text, and none for NaN.
pub mod Laws
use cloud_photo_delivery.Prelude.{
  ℕ, ◌-◌, String, Bool, false, not, Option, none, some, List, [], ◌∷◌, leb, if◌then◌else◌, truthy,
  filter, length, any, str_eq,
}

pub record DeviceSummaryInput : Type 0 where
  pub name : String
  pub assigned_event_id : Option String
  pub revoked_at : Option String
  pub last_used_at : Option String

pub record LastUpload : Type 0 where
  pub device_name : String
  pub last_used_at : String

pub record DeviceSummary : Type 0 where
  pub active_count : ℕ
  pub scoped_event_count : ℕ
  pub revoked_count : ℕ
  pub last_upload : Option LastUpload

abbrev pub is_active : DeviceSummaryInput → Bool
is_active device = not (truthy device.revoked_at)

-- The members of `new Set(…)` over the assigned events.
unfoldable pub scoped_event_ids : List DeviceSummaryInput → List String → List String
scoped_event_ids [] ids = ids
scoped_event_ids (device ∷ devices) ids = elim device.assigned_event_id [
  | none ↦ scoped_event_ids devices ids
  | some id ↦ scoped_event_ids devices (if any (λ i. str_eq i id) ids then ids else id ∷ ids)
]

-- The time of a device, where it has one: `Date.parse(device.lastUsedAt)`.
abbrev pub used_at : (String → Option ℕ) → Option String → Option ℕ
used_at parse none = none
used_at parse (some text) = if truthy (some text) then parse text else none

-- `lastUploadAt` and `lastUpload`; no time is `Number.NEGATIVE_INFINITY`.
pub record Latest : Type 0 where
  pub at : Option ℕ
  pub upload : Option LastUpload

-- `at <= lastUploadAt`
abbrev not_later : ℕ → Option ℕ → Bool
not_later at none = false
not_later at (some last) = leb at last

abbrev upload_of : DeviceSummaryInput → Option LastUpload
upload_of device = elim device.last_used_at [
  | none ↦ none
  | some text ↦ some (record { device_name = device.name; last_used_at = text })
]

abbrev pub step_of : DeviceSummaryInput → Option ℕ → Latest → Latest
step_of device none latest = latest
step_of device (some at) latest =
    if not_later at latest.at then latest else record { at = some at; upload = upload_of device }

unfoldable pub latest_of : (String → Option ℕ) → List DeviceSummaryInput → Latest → Latest
latest_of parse [] latest = latest
latest_of parse (device ∷ devices) latest =
    latest_of parse devices (step_of device (used_at parse device.last_used_at) latest)

unfoldable pub summarize_devices : (String → Option ℕ) → List DeviceSummaryInput → DeviceSummary
summarize_devices parse devices =
    let active = filter is_active devices in
    record {
      active_count = length active;
      scoped_event_count = length (scoped_event_ids active []);
      revoked_count = length devices - length active;
      last_upload = (latest_of parse active (record { at = none; upload = none })).upload;
    }
