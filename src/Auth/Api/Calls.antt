-- ===== src/Auth/Api/Calls.antt =====
-- The calls of a page, which share the session and its refreshes: their events in any order.
use cloud_photo_delivery.Prelude.{ℕ, Bool, Option, none, some, List, [], ◌∷◌, ◌++◌, get_elem?, set}
use cloud_photo_delivery.Client.{ApiError, Outcome}
use cloud_photo_delivery.Auth.Session.{Session, new_session}
use cloud_photo_delivery.Auth.Session.Laws.{Event, on_event}
use cloud_photo_delivery.Auth.Api.{
  Reply, Call, requests, awaits_refresh, retries, begin_call, after_request, after_refreshing,
  after_retry,
}

pub record Page (U T : Type 0) : Type 0 where
  pub session : Session U
  pub calls : List (Call T)

-- A call begins, its request is answered, or it goes on behind its refresh; or something else
-- happens to the session.
pub data PageEvent (U R : Type 0) : Type 0 where
  begins : PageEvent U R
  replied : ℕ → Reply R → PageEvent U R
  resumes : ℕ → PageEvent U R
  other : Event U → PageEvent U R

module _ {U T R : Type 0} (unwrap : R → Outcome T) where
  abbrev pub put_call : List (Call T) → ℕ → Session U × Call T → Page U T
  put_call calls i (s, c) = record { session = s; calls = set calls i c }

  abbrev pub reply_to : Option (Call T) → ℕ → Reply R → Page U T → Page U T
  reply_to (some (requests header)) i reply page =
      put_call page.calls i (after_request unwrap reply page.session)
  reply_to (some (retries header)) i reply page =
      put_call page.calls i (after_retry unwrap reply page.session)
  reply_to _ i reply page = page

  -- A promise that has resolved is one of the session's outcomes.
  abbrev pub resume_with : Option Bool → ApiError → ℕ → Page U T → Page U T
  resume_with none caught i page = page
  resume_with (some refreshed_) caught i page =
      put_call page.calls i (after_refreshing refreshed_ caught page.session)

  abbrev pub resume_call : Option (Call T) → ℕ → Page U T → Page U T
  resume_call (some (awaits_refresh promise caught)) i page =
      resume_with (get_elem? page.session.outcomes promise) caught i page
  resume_call _ i page = page

  unfoldable pub on_page : PageEvent U R → Page U T → Page U T
  on_page begins page = record page { calls = page.calls ++ begin_call page.session ∷ [] }
  on_page (replied i reply) page = reply_to (get_elem? page.calls i) i reply page
  on_page (resumes i) page = resume_call (get_elem? page.calls i) i page
  on_page (other e) page = record page { session = on_event e page.session }

  unfoldable pub run_page : List (PageEvent U R) → Page U T → Page U T
  run_page [] page = page
  run_page (e ∷ es) page = run_page es (on_page e page)

abbrev pub new_page : {U T : Type 0} → Page U T
new_page = record { session = new_session; calls = [] }
