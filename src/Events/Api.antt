-- ===== src/Events/Api.antt =====
-- apps/web/src/features/events/api.ts: the lists of events and the polls of an export. A call of the
-- API is a parameter, which rejects with `none`.
pub mod Laws
use cloud_photo_delivery.Prelude.{
  ℕ, zero, suc, String, Bool, true, false, not, Option, none, some, List, [], ◌∷◌, ◌++◌, ◌==◌,
  if◌then◌else◌, truthy, str_eq, is_some,
}
use cloud_photo_delivery.Client.{ApiError}

pub data ExportStatus : Type 0 where
  pending processing ready failed expired : ExportStatus

abbrev pub export_poll_interval_ms : ℕ
export_poll_interval_ms = 5_000

-- `false` is `none`.
unfoldable pub export_refetch_interval : Option ExportStatus → Option ℕ
export_refetch_interval (some pending) = some export_poll_interval_ms
export_refetch_interval (some processing) = some export_poll_interval_ms
export_refetch_interval _ = none

-- An error that is no `ApiError` is `none`.
unfoldable pub is_not_found : Option ApiError → Bool
is_not_found none = false
is_not_found (some e) = e.status == 404

pub data EventStatus : Type 0 where
  upcoming active completed archived expired_event : EventStatus

-- `filters.status`, with "all" for `none`.
pub record EventFilters : Type 0 where
  pub q : String
  pub status : Option EventStatus

pub record EventsQuery : Type 0 where
  pub limit : ℕ
  pub q : Option String
  pub status : Option EventStatus
  pub cursor : Option String

abbrev pub if_truthy : Option String → Option String
if_truthy text = if truthy text then text else none

unfoldable pub events_query : EventFilters → Option String → EventsQuery
events_query filters page_param = record {
  limit = 20;
  q = if_truthy (some filters.q);
  status = filters.status;
  cursor = if_truthy page_param;
}

-- `useEventOptions`: the loop over the pages, at most ten.
pub record EventPage (A : Type 0) : Type 0 where
  pub items : List A
  pub next_cursor : Option String

abbrev pub max_pages : ℕ
max_pages = 10

module _ {A : Type 0} (page_at : Option String → Option (EventPage A)) where
  abbrev pub after_page :
      Option (EventPage A) → (Option String → List A → Option (List A)) → List A → Option (List A)
  after_page none go_on items = none
  after_page (some page) go_on items =
      if truthy page.next_cursor
      then go_on page.next_cursor (items ++ page.items)
      else some (items ++ page.items)

  unfoldable pub read_pages : ℕ → Option String → List A → Option (List A)
  read_pages zero cursor items = some items
  read_pages (suc left) cursor items = after_page (page_at cursor) (read_pages left) items

  unfoldable pub event_options : Option (List A)
  event_options = read_pages max_pages none []
