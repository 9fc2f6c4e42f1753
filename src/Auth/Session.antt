-- ===== src/Auth/Session.antt =====
-- apps/web/src/lib/auth/session.ts: the session in the browser. A user is of any type `U`. A
-- promise of `refreshSession` and what its `finally` does are one step; the lock between tabs, a
-- service of the browser, only delays the request.
pub mod Laws
use cloud_photo_delivery.Prelude.{
  ℕ, ◌+◌, String, Bool, true, false, not, Option, none, some, List, [], ◌∷◌, ◌++◌, ◌==◌,
  if◌then◌else◌, str_eq, truthy, filter, any,
}

pub data SessionStatus : Type 0 where
  loading authenticated anonymous : SessionStatus

pub record SessionState (U : Type 0) : Type 0 where
  pub status : SessionStatus
  pub user : Option U
  pub access_token : Option String

-- The answer to the request: it fails, or it has `response.ok` and what `payload?.data` holds.
pub data RefreshReply (U : Type 0) : Type 0 where
  unreachable : RefreshReply U
  answered : (ok : Bool) (access_token : Option String) (user : Option U) → RefreshReply U

-- The module's variables, with the requests made, the values that the promises of `refreshSession`
-- resolved to, and the calls of listeners.
pub record Session (U : Type 0) : Type 0 where
  pub state : SessionState U
  pub listeners : List ℕ
  pub refresh_promise : Option ℕ
  pub requests : ℕ
  pub outcomes : List Bool
  pub called : List ℕ

module _ {U : Type 0} where
  abbrev pub initial_state : SessionState U
  initial_state = record { status = loading; user = none; access_token = none }

  abbrev pub new_session : Session U
  new_session = record {
    state = initial_state;
    listeners = [];
    refresh_promise = none;
    requests = 0;
    outcomes = [];
    called = [];
  }

  unfoldable pub set_state : SessionState U → Session U → Session U
  set_state state s = record s { state = state; called = s.called ++ s.listeners }

  -- `listeners.add` and `listeners.delete` of a `Set`.
  unfoldable pub subscribe : ℕ → Session U → Session U
  subscribe l s = record s {
    listeners = if any (λ k. k == l) s.listeners then s.listeners else s.listeners ++ l ∷ [];
  }

  unfoldable pub unsubscribe : ℕ → Session U → Session U
  unsubscribe l s = record s { listeners = filter (λ k. not (k == l)) s.listeners }

  unfoldable pub set_session : String → Option U → Session U → Session U
  set_session access_token user s =
      set_state (record { status = authenticated; user = user; access_token = some access_token }) s

  unfoldable pub clear_session : Session U → Session U
  clear_session s = set_state (record { status = anonymous; user = none; access_token = none }) s

  -- `refreshSession()`: the promise that is there, or that of a new request.
  abbrev share : Option ℕ → Session U → Session U × ℕ
  share (some promise) s = (s, promise)
  share none s =
      (record s { refresh_promise = some s.requests; requests = s.requests + 1 }, s.requests)

  unfoldable pub refresh_session : Session U → Session U × ℕ
  refresh_session s = share s.refresh_promise s

  -- `performRefresh` behind its `await`s.
  unfoldable pub perform_refresh : RefreshReply U → Session U → Session U × Bool
  perform_refresh unreachable s = (clear_session s, false)
  perform_refresh (answered ok none user) s = (clear_session s, false)
  perform_refresh (answered ok (some access_token) user) s =
      if not ok
      then (clear_session s, false)
      else if str_eq access_token ""
      then (clear_session s, false)
      else (set_session access_token user s, true)

  -- The request that is under way is answered, and the promise settles.
  abbrev settle_promise : Session U × Bool → Session U
  settle_promise (s, outcome) = record s {
    refresh_promise = none;
    outcomes = s.outcomes ++ outcome ∷ [];
  }

  abbrev settle_if : Option ℕ → RefreshReply U → Session U → Session U
  settle_if none reply s = s
  settle_if (some promise) reply s = settle_promise (perform_refresh reply s)

  unfoldable pub refreshed : RefreshReply U → Session U → Session U
  refreshed reply s = settle_if s.refresh_promise reply s
