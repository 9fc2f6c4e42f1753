-- ===== src/Auth/Bff/Laws.antt =====
-- Laws of the session handlers of bff.ts, and of the refreshes that they share.
use cloud_photo_delivery.Prelude.{
  ℕ, ◌+◌, ◌≤◌, ◌≡◌, refl, ap, String, Bool, true, false, not, Option, none, some, List, [], ◌∷◌,
  ◌++◌, leb, ◌==◌, if◌then◌else◌, Keyed, get, put, get-put, get-remove, length, is_some, arith,
  str_eq, eq_iff, Bool-cases, inl, inr,
}
use cloud_photo_delivery.Auth.Bff.{
  Envelope, GoReply, Response, CookieOp, clears, writes, after_cookie, auth_data, authenticate,
  after_refresh, logout_handler, Refreshes, refresh_once, end_refresh, ends, awaits, no_session,
  refresh_handler, unreachable, responds,
}
use cloud_photo_delivery.Auth.Proxy.{is_protected_path, proxy, redirects}
use cloud_photo_delivery.Auth.Proxy.Laws.{proxy-protected}

abbrev pub status_of : {U : Type 0} → Option (Response U) → ℕ
status_of none = 0
status_of (some response) = response.status

abbrev pub is_clearing : CookieOp → Bool
is_clearing clears = true
is_clearing _ = false

-- Whatever the API answers to a refresh, the browser is told of an error exactly where its cookie is
-- cleared, and of success, with status 200, exactly where it is not; then the cookie holds the
-- refresh token of the answer.
pub after_refresh_lem :
    {U : Type 0} (status : ℕ) (payload : Option (Envelope U)) (jar : Option String)
    → let h = after_refresh status payload in
      (leb 400 (status_of h.response) ≡ is_clearing h.cookie)
      × ((status_of h.response == 200) ≡ not (is_clearing h.cookie))
      × (after_cookie h.cookie jar
          ≡ (if is_clearing h.cookie then none else (auth_data payload).refresh_token))
unfolding after_refresh
after_refresh_lem status payload jar = ground arith

-- After a logout, with any cookie and any answer of the API, the browser has no session: a refresh
-- ends at once and posts nothing, and every protected page is redirected to the login.
pub logout-refresh :
    {U : Type 0} (jar : Option String) (reply : GoReply U) (r : Refreshes) (pathname : String)
    → is_protected_path pathname ≡ true
    → (refresh_handler {U = U} (after_cookie (logout_handler jar reply).0.cookie jar) r
        ≡ (r, ends no_session))
      × (proxy (is_some (after_cookie (logout_handler jar reply).0.cookie jar)) pathname
          ≡ redirects "/login" (some pathname))
unfolding refresh_handler logout_handler
logout-refresh jar reply r pathname h = (refl, proxy-protected false pathname h)

-- After a login or a signup that sets the cookie: the response has status 200, a first refresh
-- posts exactly the token that was set and awaits its answer, and the pages of the login are
-- redirected to the dashboard.
pub authenticate-refresh :
    {U : Type 0} (body : Bool) (reply : GoReply U) (token : String)
    → (authenticate body reply).cookie ≡ writes token
    → (status_of (authenticate body reply).response ≡ 200)
      × (refresh_handler {U = U} (some token) (record { inflight = []; posts = [] })
          ≡ (record { inflight = (token, 0) ∷ []; posts = token ∷ [] }, awaits 0))
unfolding authenticate refresh_handler refresh_once get put
authenticate-refresh false reply token h = ground arith
authenticate-refresh true unreachable token h = ground arith
authenticate-refresh true (responds status payload) token h = ground arith

-- Handlers that ask for a refresh and answers that end one, in any order.
pub data RefreshEvent : Type 0 where
  asks ended : String → RefreshEvent

unfoldable pub on_refresh : RefreshEvent → Refreshes → Refreshes
on_refresh (asks token) r = (refresh_once token r).0
on_refresh (ended token) r = end_refresh token r

unfoldable pub run_refreshes : List RefreshEvent → Refreshes → Refreshes
run_refreshes [] r = r
run_refreshes (e ∷ es) r = run_refreshes es (on_refresh e r)

-- How often a token is posted, and how often its refresh has ended.
abbrev pub count : String → List String → ℕ
count token [] = 0
count token (t ∷ ts) = (if str_eq t token then 1 else 0) + count token ts

abbrev pub count_ended : String → List RefreshEvent → ℕ
count_ended token [] = 0
count_ended token (asks t ∷ es) = count_ended token es
count_ended token (ended t ∷ es) = (if str_eq t token then 1 else 0) + count_ended token es

count-append :
    (token : String) (xs ys : List String)
    → count token (xs ++ ys) ≡ count token xs + count token ys
count-append token [] ys = omega arith
count-append token (x ∷ xs) ys = omega (arith, count-append token xs ys)

abbrev under_way : String → Refreshes → ℕ
under_way token r = if is_some (get token r.inflight) then 1 else 0

same_key : (t token : String) (m : Keyed ℕ) → str_eq t token ≡ true → get t m ≡ get token m
same_key t token m h = ap (λ k. get k m) ((eq_iff t token).0 h)

count-asks :
    (token t : String) (r : Refreshes)
    → count token (refresh_once t r).0.posts + under_way token r
      ≡ count token r.posts + under_way token (refresh_once t r).0
unfolding refresh_once
count-asks token t r = elim (Bool-cases (str_eq t token)) [
  | inl same ↦
      let e = same_key t token r.inflight same in
      ground (
        arith,
        e,
        same,
        count-append token r.posts (t ∷ []),
        get-put t token (length r.posts) r.inflight,
      )
  | inr other ↦ ground (
    arith,
    other,
    count-append token r.posts (t ∷ []),
    get-put t token (length r.posts) r.inflight,
  )
]

posts-end_refresh :
    (token t : String) (r : Refreshes) → count token (end_refresh t r).posts ≡ count token r.posts
unfolding end_refresh
posts-end_refresh token t r = refl

under_way-end_refresh :
    (token t : String) (r : Refreshes)
    → under_way token r ≤ under_way token (end_refresh t r) + (if str_eq t token then 1 else 0)
unfolding end_refresh
under_way-end_refresh token t r = ground (arith, get-remove t token r.inflight)

count-run_refreshes :
    (token : String) (es : List RefreshEvent) (r : Refreshes)
    → count token (run_refreshes es r).posts + under_way token r
      ≤ count token r.posts + count_ended token es + 1
unfolding run_refreshes on_refresh
count-run_refreshes token [] r = ground arith
count-run_refreshes token (asks t ∷ es) r =
    omega (arith, count-run_refreshes token es (refresh_once t r).0, count-asks token t r)
count-run_refreshes token (ended t ∷ es) r = omega (
  arith,
  count-run_refreshes token es (end_refresh t r),
  under_way-end_refresh token t r,
  posts-end_refresh token t r,
)

-- Whichever handlers ask and whichever answers come, in any order: a refresh token has been posted
-- at most once more than its refreshes have ended, so handlers that ask at the same time share one
-- request and the token is not spent twice.
pub refreshes_bounded :
    (token : String) (es : List RefreshEvent)
    → count token (run_refreshes es (record { inflight = []; posts = [] })).posts
      ≤ count_ended token es + 1
unfolding get
refreshes_bounded token es =
    omega (arith, count-run_refreshes token es (record { inflight = []; posts = [] }))
