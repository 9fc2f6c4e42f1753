-- ===== src/Auth/Api/Laws.antt =====
-- What the calls of a page wait for, and how a refresh lets them go on.
use cloud_photo_delivery.Prelude.{
  ℕ, ◌+◌, ◌≤◌, ◌<◌, ◌≡◌, refl, String, Bool, true, false, ◌&&◌, ◌||◌, Option, none, some, List, [],
  ◌∷◌, length, get_elem?, All, All-append, All-set, All-map, all, not, ltb, ◌==◌, if◌then◌else◌,
  arith, str_eq,
}
use Prim.Native.String
use cloud_photo_delivery.Client.{ApiError, Outcome, throws, returns, authorization}
use cloud_photo_delivery.Auth.Session.{
  Session, RefreshReply, unreachable, answered, set_state, subscribe, unsubscribe, set_session,
  clear_session, refresh_session, perform_refresh, refreshed,
}
use cloud_photo_delivery.Auth.Session.Laws.{
  Event, subscribes, unsubscribes, sets, clears, refreshes, answers, on_event, IsSound,
  on_event-IsSound, new_session-IsSound,
}
use cloud_photo_delivery.Auth.Api.{
  Reply, rejected, resolved, Call, catch_error, await_refresh, ends_with, threw, requests,
  awaits_refresh, retries, ended, begin_call, after_request, after_refreshing, after_retry,
}
use cloud_photo_delivery.Auth.Api.Calls.{
  Page, PageEvent, begins, replied, resumes, other, put_call, reply_to, resume_with, resume_call,
  on_page, run_page, new_page,
}

-- A promise that a call awaits is one that was made.
abbrev IsLinked : {T : Type 0} → ℕ → Call T → Type 0
IsLinked n (awaits_refresh promise caught) = promise < n
IsLinked n _ = Unit

-- The promise under way is the last one that was made.
abbrev IsLast : ℕ → Option ℕ → Type 0
IsLast n none = Unit
IsLast n (some promise) = promise + 1 ≡ n

record IsPromised {U : Type 0} (s : Session U) : Type 0 where
  sound : IsSound s
  last : IsLast s.requests s.refresh_promise

record IsLive {U T : Type 0} (page : Page U T) : Type 0 where
  promised : IsPromised page.session
  linked : All (IsLinked page.session.requests) page.calls

module _ {U : Type 0} where
  on_event-IsLast :
      (e : Event U) (s : Session U)
      → IsLast s.requests s.refresh_promise
      → IsLast (on_event e s).requests (on_event e s).refresh_promise
        × (s.requests ≤ (on_event e s).requests)
  unfolding on_event subscribe unsubscribe set_session clear_session set_state refresh_session
      refreshed perform_refresh
  on_event-IsLast (subscribes l) s h = (h, omega arith)
  on_event-IsLast (unsubscribes l) s h = (h, omega arith)
  on_event-IsLast (sets access_token user) s h = (h, omega arith)
  on_event-IsLast clears s h = (h, omega arith)
  on_event-IsLast refreshes s h = ground arith
  on_event-IsLast (answers reply) s h = ground arith

  on_event-IsPromised : (e : Event U) (s : Session U) → IsPromised s → IsPromised (on_event e s)
  on_event-IsPromised e s h = record {
    sound = on_event-IsSound e s h.sound;
    last = (on_event-IsLast e s h.last).0;
  }

  refresh_session-IsPromised : (s : Session U) → IsPromised s → IsPromised (refresh_session s).0
  refresh_session-IsPromised s h = unfold on_event in on_event-IsPromised refreshes s h

  -- The promise that `refreshSession()` gives is one that was made.
  refresh_session_bounds :
      (s : Session U)
      → IsLast s.requests s.refresh_promise
      → (s.requests ≤ (refresh_session s).0.requests)
        × ((refresh_session s).1 < (refresh_session s).0.requests)
  unfolding refresh_session
  refresh_session_bounds s h = ground arith

-- What a step of one call keeps: the session is sound, no promise is forgotten, and the call awaits
-- one that was made.
record IsStep {U T : Type 0} (before : ℕ) (x : Session U × Call T) : Type 0 where
  promised : IsPromised x.0
  grows : before ≤ x.0.requests
  linked : IsLinked x.0.requests x.1

if-IsStep :
    {U T : Type 0} (t : Bool) (n : ℕ) (x y : Session U × Call T)
    → IsStep n x
    → IsStep n y
    → IsStep n (if t then x else y)
if-IsStep true n x y h k = h
if-IsStep false n x y h k = k

IsLinked-grows : {T : Type 0} (m n : ℕ) (c : Call T) → m ≤ n → IsLinked m c → IsLinked n c
IsLinked-grows m n (requests header) le l = tt
IsLinked-grows m n (awaits_refresh promise caught) le l = omega arith
IsLinked-grows m n (retries header) le l = tt
IsLinked-grows m n (ended e) le l = tt

module _ {U T R : Type 0} (unwrap : R → Outcome T) where
  after_request-IsStep :
      (reply : Reply R) (s : Session U)
      → IsPromised s
      → IsStep s.requests (after_request unwrap reply s)
  unfolding after_request
  after_request-IsStep rejected s h = record { promised = h; grows = omega arith; linked = tt }
  after_request-IsStep (resolved r) s h =
      elim (unwrap r) as (λ o. IsStep s.requests (catch_error unwrap o s)) [
        | returns v ↦ record { promised = h; grows = omega arith; linked = tt }
        | throws e ↦
            let b = refresh_session_bounds s h.last in
            if-IsStep (e.status == 401) s.requests (await_refresh unwrap e (refresh_session s))
              (s, ended (threw e))
              (record { promised = refresh_session-IsPromised s h; grows = b.0; linked = b.1 })
              (record { promised = h; grows = omega arith; linked = tt })
      ]

  ends_with-IsStep :
      (o : Outcome T) (s : Session U) → IsPromised s → IsStep s.requests (s, ends_with o)
  ends_with-IsStep (returns v) s h = record { promised = h; grows = omega arith; linked = tt }
  ends_with-IsStep (throws e) s h = record { promised = h; grows = omega arith; linked = tt }

  after_retry-IsStep :
      (reply : Reply R) (s : Session U)
      → IsPromised s
      → IsStep s.requests (after_retry unwrap reply s)
  unfolding after_retry
  after_retry-IsStep rejected s h = record { promised = h; grows = omega arith; linked = tt }
  after_retry-IsStep (resolved r) s h = ends_with-IsStep (unwrap r) s h

after_refreshing-IsStep :
    {U T : Type 0} (outcome : Bool) (caught : ApiError) (s : Session U)
    → IsPromised s
    → IsStep s.requests (after_refreshing {T = T} outcome caught s)
unfolding after_refreshing on_event clear_session set_state
after_refreshing-IsStep true caught s h = record { promised = h; grows = omega arith; linked = tt }
after_refreshing-IsStep false caught s h = record {
  promised = on_event-IsPromised clears s h;
  grows = omega arith;
  linked = tt;
}

module _ {U T R : Type 0} (unwrap : R → Outcome T) where
  put_call-IsLive :
      (i : ℕ) (page : Page U T) (x : Session U × Call T)
      → IsLive page
      → IsStep page.session.requests x
      → IsLive (put_call unwrap page.calls i x)
  put_call-IsLive i page x h step = record {
    promised = step.promised;
    linked =
        All-set (IsLinked x.0.requests) page.calls i x.1
          (All-map (IsLinked page.session.requests) (IsLinked x.0.requests) page.calls
            (λ c l. IsLinked-grows page.session.requests x.0.requests c step.grows l) h.linked)
          step.linked;
  }

  reply_to-IsLive :
      (found : Option (Call T)) (i : ℕ) (reply : Reply R) (page : Page U T)
      → IsLive page
      → IsLive (reply_to unwrap found i reply page)
  reply_to-IsLive none i reply page h = h
  reply_to-IsLive (some (requests header)) i reply page h =
      put_call-IsLive i page _ h (after_request-IsStep unwrap reply page.session h.promised)
  reply_to-IsLive (some (awaits_refresh promise caught)) i reply page h = h
  reply_to-IsLive (some (retries header)) i reply page h =
      put_call-IsLive i page _ h (after_retry-IsStep unwrap reply page.session h.promised)
  reply_to-IsLive (some (ended e)) i reply page h = h

  resume_with-IsLive :
      (outcome : Option Bool) (caught : ApiError) (i : ℕ) (page : Page U T)
      → IsLive page
      → IsLive (resume_with unwrap outcome caught i page)
  resume_with-IsLive none caught i page h = h
  resume_with-IsLive (some o) caught i page h =
      put_call-IsLive i page _ h (after_refreshing-IsStep o caught page.session h.promised)

  resume_call-IsLive :
      (found : Option (Call T)) (i : ℕ) (page : Page U T)
      → IsLive page
      → IsLive (resume_call unwrap found i page)
  resume_call-IsLive none i page h = h
  resume_call-IsLive (some (requests header)) i page h = h
  resume_call-IsLive (some (awaits_refresh promise caught)) i page h =
      resume_with-IsLive (get_elem? page.session.outcomes promise) caught i page h
  resume_call-IsLive (some (retries header)) i page h = h
  resume_call-IsLive (some (ended e)) i page h = h

  on_page-IsLive :
      (e : PageEvent U R) (page : Page U T) → IsLive page → IsLive (on_page unwrap e page)
  unfolding on_page begin_call
  on_page-IsLive begins page h = record {
    promised = h.promised;
    linked =
        All-append (IsLinked page.session.requests) page.calls (begin_call page.session ∷ [])
          h.linked (tt, tt);
  }
  on_page-IsLive (replied i reply) page h = reply_to-IsLive (get_elem? page.calls i) i reply page h
  on_page-IsLive (resumes i) page h = resume_call-IsLive (get_elem? page.calls i) i page h
  on_page-IsLive (other e) page h = record {
    promised = on_event-IsPromised e page.session h.promised;
    linked =
        All-map (IsLinked page.session.requests) (IsLinked (on_event e page.session).requests)
          page.calls
          (λ c l.
            IsLinked-grows page.session.requests (on_event e page.session).requests c
              (on_event-IsLast e page.session h.promised.last).1 l)
          h.linked;
  }

  run_page-IsLive :
      (es : List (PageEvent U R)) (page : Page U T) → IsLive page → IsLive (run_page unwrap es page)
  unfolding run_page
  run_page-IsLive [] page h = h
  run_page-IsLive (e ∷ es) page h =
      run_page-IsLive es (on_page unwrap e page) (on_page-IsLive e page h)

new_page-IsLive : {U T : Type 0} → IsLive (new_page {U = U} {T = T})
new_page-IsLive = record {
  promised = record { sound = new_session-IsSound; last = tt };
  linked = tt;
}

-- The promise under way, and whether a promise has an outcome.
abbrev is_under_way : Option ℕ → ℕ → Bool
is_under_way none promise = false
is_under_way (some p) promise = p == promise

abbrev pub can_go_on : {U T : Type 0} → Session U → Call T → Bool
can_go_on s (awaits_refresh promise caught) =
    ltb promise (length s.outcomes) || is_under_way s.refresh_promise promise
can_go_on s _ = true

can_go_on_lem :
    {U T : Type 0} (s : Session U) (c : Call T)
    → IsPromised s
    → IsLinked s.requests c
    → can_go_on s c ≡ true
can_go_on_lem s (requests header) h l = refl
can_go_on_lem s (awaits_refresh promise caught) h l = ground (arith, h.last, h.sound.counted)
can_go_on_lem s (retries header) h l = refl
can_go_on_lem s (ended e) h l = refl

all_go_on :
    {U T : Type 0} (s : Session U) (calls : List (Call T))
    → IsPromised s
    → All (IsLinked s.requests) calls
    → all (can_go_on s) calls ≡ true
all_go_on s [] h l = refl
all_go_on s (c ∷ calls) h l = ground (arith, can_go_on_lem s c h l.0, all_go_on s calls h l.1)

-- After any calls, answers and changes of the session, in any order, every call that awaits a
-- refresh awaits one that has an outcome or the one that is under way: no call waits for a promise
-- that nothing settles.
pub calls_go_on :
    {U T R : Type 0} (unwrap : R → Outcome T) (es : List (PageEvent U R))
    → let page = run_page unwrap es new_page in all (can_go_on page.session) page.calls ≡ true
calls_go_on unwrap es =
    let page = run_page unwrap es new_page in
    let h = run_page-IsLive unwrap es new_page new_page-IsLive in
    all_go_on page.session page.calls h.promised h.linked

-- The token that an answer to a refresh gives.
abbrev pub granted : {U : Type 0} → RefreshReply U → Option String
granted unreachable = none
granted (answered ok none user) = none
granted (answered ok (some token) user) = if ok && not (str_eq token "") then some token else none

-- What a call is due for a token.
abbrev pub due : {T : Type 0} → Option String → ApiError → Call T
due none caught = ended (threw caught)
due (some token) caught = retries (some (String.◌++◌ "Bearer " token))

abbrev pub settle_refresh :
    {U T : Type 0} → RefreshReply U → ApiError → Session U → Session U × Call T
settle_refresh reply caught s = let x = perform_refresh reply s in after_refreshing x.1 caught x.0

-- Where the answer to its refresh gives a token, a call is sent again with that token, which is the
-- session's; else it ends with the error that it caught at first, and the session has no token.
pub after_refreshing-perform_refresh :
    {U T : Type 0} (reply : RefreshReply U) (caught : ApiError) (s : Session U)
    → let x = settle_refresh {T = T} reply caught s in
      (x.0.state.access_token ≡ granted reply) × (x.1 ≡ due (granted reply) caught)
unfolding perform_refresh after_refreshing set_session clear_session set_state authorization
after_refreshing-perform_refresh unreachable caught s = (refl, refl)
after_refreshing-perform_refresh (answered ok none user) caught s = (refl, refl)
after_refreshing-perform_refresh (answered ok (some token) user) caught s =
    (ground arith, ground arith)
