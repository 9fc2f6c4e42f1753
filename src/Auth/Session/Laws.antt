-- ===== src/Auth/Session/Laws.antt =====
-- The session in use: calls and answers in any order.
use cloud_photo_delivery.Prelude.{
  ℕ, ◌+◌, ◌≡◌, refl, String, Bool, true, false, ◌||◌, not, Option, List, [], ◌∷◌, length,
  length-append, is_some, arith, if◌then◌else◌,
}
use cloud_photo_delivery.Auth.Session.{
  SessionStatus, authenticated, Session, RefreshReply, new_session, set_state, subscribe,
  unsubscribe, set_session, clear_session, refresh_session, perform_refresh, refreshed,
}

pub data Event (U : Type 0) : Type 0 where
  subscribes unsubscribes : ℕ → Event U
  sets : String → Option U → Event U
  clears refreshes : Event U
  answers : RefreshReply U → Event U

unfoldable pub on_event : {U : Type 0} → Event U → Session U → Session U
on_event (subscribes l) s = subscribe l s
on_event (unsubscribes l) s = unsubscribe l s
on_event (sets access_token user) s = set_session access_token user s
on_event clears s = clear_session s
on_event refreshes s = (refresh_session s).0
on_event (answers reply) s = refreshed reply s

unfoldable pub run : {U : Type 0} → List (Event U) → Session U → Session U
run [] s = s
run (e ∷ es) s = run es (on_event e s)

abbrev pub is_authenticated : SessionStatus → Bool
is_authenticated authenticated = true
is_authenticated _ = false

pub record IsSound {U : Type 0} (s : Session U) : Type 0 where
  pub token : is_authenticated s.state.status ≡ is_some s.state.access_token
  pub user : (is_some s.state.access_token || not (is_some s.state.user)) ≡ true
  pub counted : s.requests ≡ length s.outcomes + (if is_some s.refresh_promise then 1 else 0)

module _ {U : Type 0} where
  refreshed-IsSound :
      (reply : RefreshReply U) (s : Session U) → IsSound s → IsSound (refreshed reply s)
  unfolding refreshed perform_refresh set_session clear_session set_state
  refreshed-IsSound reply s h = record {
    token = ground (arith, h.token);
    user = ground (arith, h.user);
    counted = ground (
      arith,
      h.counted,
      length-append s.outcomes (true ∷ []),
      length-append s.outcomes (false ∷ []),
    );
  }

  pub refresh_session-IsSound : (s : Session U) → IsSound s → IsSound (refresh_session s).0
  unfolding refresh_session
  refresh_session-IsSound s h = record {
    token = ground (arith, h.token);
    user = ground (arith, h.user);
    counted = ground (arith, h.counted);
  }

  pub on_event-IsSound : (e : Event U) (s : Session U) → IsSound s → IsSound (on_event e s)
  unfolding on_event subscribe unsubscribe set_session clear_session set_state refresh_session
  on_event-IsSound (subscribes l) s h = record {
    token = h.token;
    user = h.user;
    counted = h.counted;
  }
  on_event-IsSound (unsubscribes l) s h = record {
    token = h.token;
    user = h.user;
    counted = h.counted;
  }
  on_event-IsSound (sets access_token user) s h = record {
    token = refl;
    user = refl;
    counted = h.counted;
  }
  on_event-IsSound clears s h = record { token = refl; user = refl; counted = h.counted }
  on_event-IsSound refreshes s h = refresh_session-IsSound s h
  on_event-IsSound (answers reply) s h = refreshed-IsSound reply s h

  pub new_session-IsSound : IsSound (new_session {U = U})
  new_session-IsSound = record { token = refl; user = refl; counted = refl }

  run-IsSound : (es : List (Event U)) (s : Session U) → IsSound s → IsSound (run es s)
  unfolding run
  run-IsSound [] s h = h
  run-IsSound (e ∷ es) s h = run-IsSound es (on_event e s) (on_event-IsSound e s h)

-- After any calls and answers, in any order: the session is authenticated exactly where it has an
-- access token, it has a user only then, and all requests to refresh but the one under way have been
-- answered, so that never two are under way at once.
pub session_lem :
    {U : Type 0} (es : List (Event U))
    → let s = run es new_session in
      (is_authenticated s.state.status ≡ is_some s.state.access_token)
      × ((is_some s.state.access_token || not (is_some s.state.user)) ≡ true)
      × (s.requests ≡ length s.outcomes + (if is_some s.refresh_promise then 1 else 0))
session_lem es =
    let h = run-IsSound es new_session new_session-IsSound in (h.token, h.user, h.counted)
