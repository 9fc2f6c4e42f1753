-- ===== src/Events/Export.antt =====
-- apps/web/src/features/events/export-card.tsx: the export of an event's photos, whose id is kept in
-- `sessionStorage`, and what its card shows. `Date.parse` of the time of expiry and the clock are
-- arguments: an invalid date is `none`.
pub mod Laws
use Prim.Native.String
use cloud_photo_delivery.Prelude.{
  ℕ, ◌+◌, String, Bool, true, false, not, ◌&&◌, ◌||◌, Option, none, some, List, [], ◌∷◌, ◌++◌, leb,
  ◌==◌, if◌then◌else◌, Keyed, get, put, remove, truthy, is_some, str_eq,
}
use cloud_photo_delivery.Events.Api.{ExportStatus, pending, processing, ready, failed, expired}

-- Which calls of `sessionStorage` throw, and what it holds.
pub record Storage : Type 0 where
  pub readable : Bool
  pub writable : Bool
  pub texts : Keyed String

-- `sessionStorageOrNull()`, the listeners, and those called so far.
pub record Exports : Type 0 where
  pub storage : Option Storage
  pub listeners : List ℕ
  pub called : List ℕ

-- `${STORAGE_PREFIX}${eventId}`
abbrev pub export_key : String → String
export_key event_id = String.◌++◌ "cpd:export:" event_id

abbrev read_from : String → Option Storage → Option String
read_from event_id none = none
read_from event_id (some s) = if s.readable then get (export_key event_id) s.texts else none

unfoldable pub read_stored_export_id : String → Exports → Option String
read_stored_export_id event_id x = read_from event_id x.storage

abbrev set_or_remove : String → Option String → Keyed String → Keyed String
set_or_remove event_id none texts = remove (export_key event_id) texts
set_or_remove event_id (some id) texts =
    if str_eq id "" then remove (export_key event_id) texts else put (export_key event_id) id texts

abbrev write_to : String → Option String → Option Storage → Option Storage
write_to event_id export_id none = none
write_to event_id export_id (some s) =
    if s.writable
    then some (record s { texts = set_or_remove event_id export_id s.texts })
    else some s

unfoldable pub store_export_id : String → Option String → Exports → Exports
store_export_id event_id export_id x = record x {
  storage = write_to event_id export_id x.storage;
  called = x.called ++ x.listeners;
}

-- `handleCreate` behind its `await`: the id of the export that the server has made.
unfoldable pub created : String → String → Exports → Exports
created event_id id x = store_export_id event_id (some id) x

-- The query for an export, as the card reads it.
pub record ExportJob : Type 0 where
  pub status : ExportStatus
  -- null, or a text as `Date.parse` reads it
  pub expires_at : Option (Option ℕ)

pub record ExportQuery : Type 0 where
  pub is_pending : Bool
  -- the code of the error, if there is one
  pub error : Option String
  pub data_of : Option ExportJob

abbrev pub is_export_not_found : Option String → Bool
is_export_not_found none = false
is_export_not_found (some code_of) = str_eq code_of "EXPORT_NOT_FOUND"

abbrev pub active_export_id : Option String → ExportQuery → Option String
active_export_id export_id query =
    if is_some export_id && is_export_not_found query.error then none else export_id

-- The effect that forgets an export that the server does not have.
unfoldable pub forget_missing : String → ExportQuery → Exports → Exports
forget_missing event_id query x =
    if truthy (read_stored_export_id event_id x) && is_export_not_found query.error
    then store_export_id event_id none x
    else x

abbrev is_past : ℕ → Option (Option ℕ) → Bool
is_past now none = false
is_past now (some none) = false
is_past now (some (some time)) = leb time now

abbrev pub is_working : ExportStatus → Bool
is_working pending = true
is_working processing = true
is_working _ = false

abbrev pub is_ready : ExportStatus → Bool
is_ready ready = true
is_ready _ = false

abbrev pub is_failed : ExportStatus → Bool
is_failed failed = true
is_failed _ = false

abbrev pub is_expired : ExportStatus → Bool
is_expired expired = true
is_expired _ = false

-- The parts of the card.
pub record Card : Type 0 where
  pub generate : Bool
  pub working : Bool
  pub download : Bool
  pub failure : Bool
  pub expiry : Bool
  pub problem : Bool

abbrev of_job : (ExportStatus → Bool) → Option ExportJob → Bool
of_job test none = false
of_job test (some job) = test job.status

abbrev expired_by_clock : ℕ → Option ExportJob → Bool
expired_by_clock now none = false
expired_by_clock now (some job) = is_ready job.status && is_past now job.expires_at

abbrev shows_generate : Bool → Bool
shows_generate active = not active

abbrev shows_working : Bool → ExportQuery → Bool
shows_working active query = active && (query.is_pending || of_job is_working query.data_of)

abbrev shows_download : ℕ → ExportQuery → Bool
shows_download now query = of_job is_ready query.data_of && not (expired_by_clock now query.data_of)

abbrev shows_expiry : ℕ → ExportQuery → Bool
shows_expiry now query = of_job is_expired query.data_of || expired_by_clock now query.data_of

abbrev shows_problem : Bool → ExportQuery → Bool
shows_problem active query = active && is_some query.error && not (is_export_not_found query.error)

unfoldable pub card : ℕ → Option String → ExportQuery → Card
card now export_id query =
    let active = truthy (active_export_id export_id query) in
    record {
      generate = shows_generate active;
      working = shows_working active query;
      download = shows_download now query;
      failure = of_job is_failed query.data_of;
      expiry = shows_expiry now query;
      problem = shows_problem active query;
    }
