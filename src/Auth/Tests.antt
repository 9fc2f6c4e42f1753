-- ===== src/Auth/Tests.antt =====
-- Runs of the session's parts on small data. A user is named by a number.
use cloud_photo_delivery.Prelude.{
  ℕ, ◌+◌, ◌≤◌, ◌≡◌, refl, true, false, not, ◌||◌, Option, none, some, List, [], ◌∷◌, leb, ◌==◌,
  if◌then◌else◌, is_some, length, String, all,
}
use cloud_photo_delivery.Auth.Proxy.{passes, redirects, is_protected_path, proxy}
use cloud_photo_delivery.Auth.Proxy.Laws.{proxy-settles}
use cloud_photo_delivery.Client.{wraps, body}
use cloud_photo_delivery.Auth.Api.{retries, resolved, BlobResult, unwrap_blob, error_from_result}
use cloud_photo_delivery.Auth.Api.Calls.{
  begins, replied, resumes, other, PageEvent, run_page, new_page,
}
use cloud_photo_delivery.Auth.Api.Laws.{
  can_go_on, calls_go_on, settle_refresh, after_refreshing-perform_refresh,
}
use cloud_photo_delivery.Auth.Session.{answered, new_session}
use cloud_photo_delivery.Auth.Session.Laws.{
  Event, refreshes, answers, clears, run, is_authenticated, session_lem,
}
use cloud_photo_delivery.Auth.Bff.{
  Envelope, GoReply, responds, unreachable, writes, after_cookie, auth_data, after_refresh,
  authenticate, Refreshes,
}
use cloud_photo_delivery.Auth.Bff.Laws.{
  status_of, is_clearing, after_refresh_lem, count, count_ended, refreshes_bounded, RefreshEvent,
  asks, ended, run_refreshes,
}

event_page : is_protected_path "/events/e1" ≡ true
unfolding is_protected_path
event_page = refl

events_redirect : proxy false "/events/e1" ≡ redirects "/login" (some "/events/e1")
unfolding proxy is_protected_path
events_redirect = refl

proxy-settles_example : proxy false "/login" ≡ passes
proxy-settles_example =
    proxy-settles false "/events/e1" "/login" (some "/events/e1") events_redirect

-- Two callers share a refresh that succeeds, and the user logs out.
abbrev morning : List (Event ℕ)
morning = refreshes ∷ refreshes ∷ answers (answered true (some "access") (some 7)) ∷ clears ∷ []

session_lem_example :
    (let s = run morning new_session in
      (is_authenticated s.state.status ≡ is_some s.state.access_token)
      × ((is_some s.state.access_token || not (is_some s.state.user)) ≡ true)
      × (s.requests ≡ length s.outcomes + (if is_some s.refresh_promise then 1 else 0)))
session_lem_example = session_lem morning

abbrev tokens : Option (Envelope ℕ)
tokens = some (record {
  data_of = some (record {
    access_token = some "access";
    refresh_token = some "refresh";
    expires_in = some 900;
    user = some 7;
  });
  error = none;
})

after_refresh_lem_example :
    (let h = after_refresh 200 tokens in
      (leb 400 (status_of h.response) ≡ is_clearing h.cookie)
      × ((status_of h.response == 200) ≡ not (is_clearing h.cookie))
      × (after_cookie h.cookie (some "old")
          ≡ (if is_clearing h.cookie then none else (auth_data tokens).refresh_token)))
after_refresh_lem_example = after_refresh_lem 200 tokens (some "old")

abbrev no_refreshes : Refreshes
no_refreshes = record { inflight = []; posts = [] }

abbrev offline_api : GoReply ℕ
offline_api = unreachable

signed_in : (authenticate true (responds 200 tokens)).cookie ≡ writes "refresh"
unfolding authenticate
signed_in = refl

-- Two tabs ask for a refresh at once, and again behind its answer.
abbrev two_tabs : List RefreshEvent
two_tabs = asks "refresh" ∷ asks "refresh" ∷ ended "refresh" ∷ asks "refresh" ∷ []

refreshes_bounded_example :
    count "refresh" (run_refreshes two_tabs (record { inflight = []; posts = [] })).posts
    ≤ count_ended "refresh" two_tabs + 1
refreshes_bounded_example = refreshes_bounded "refresh" two_tabs

-- A file that two calls ask for with a token that has run out; the refresh gives a new one, and one
-- of the calls has it by then.
abbrev refused : BlobResult String
refused = record {
  blob = none;
  error = some (wraps (body (some "UNAUTHENTICATED") (some "Expired")));
  response = record { status = 401; retry_after = none };
}

abbrev delivered : BlobResult String
delivered = record {
  blob = some "report.pdf";
  error = none;
  response = record { status = 200; retry_after = none };
}

abbrev two_downloads : List (PageEvent ℕ (BlobResult String))
two_downloads =
    begins
    ∷ begins
    ∷ replied 0 (resolved refused)
    ∷ replied 1 (resolved refused)
    ∷ other (answers (answered true (some "fresh") (some 7)))
    ∷ resumes 0
    ∷ replied 0 (resolved delivered)
    ∷ []

calls_go_on_example :
    (let page = run_page unwrap_blob two_downloads new_page in
      all (can_go_on page.session) page.calls ≡ true)
calls_go_on_example = calls_go_on unwrap_blob two_downloads

after_refreshing-perform_refresh_example :
    (let x =
        settle_refresh {U = ℕ} {T = String}
          (answered true (some "fresh") (some 7))
          (error_from_result refused)
          new_session in
      (x.0.state.access_token ≡ some "fresh") × (x.1 ≡ retries (some "Bearer fresh")))
after_refreshing-perform_refresh_example =
    after_refreshing-perform_refresh (answered true (some "fresh") (some 7))
      (error_from_result refused) new_session
