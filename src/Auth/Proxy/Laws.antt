-- ===== src/Auth/Proxy/Laws.antt =====
-- Laws of the redirects of proxy.ts.
use cloud_photo_delivery.Prelude.{
  String, Bool, true, false, ◌≡◌, refl, ap, ◌∙◌, inl, inr, Option, some, if◌then◌else◌, str_eq, any,
  Bool-cases, eq_iff, arith,
}
use cloud_photo_delivery.Auth.Proxy.{passes, redirects, is_protected_path, auth_pages, proxy}

login_open : is_protected_path "/login" ≡ false
unfolding is_protected_path
login_open = refl

signup_open : is_protected_path "/signup" ≡ false
unfolding is_protected_path
signup_open = refl

-- A page of the login is not protected.
auth_page_open :
    (pathname : String)
    → any (λ page. str_eq pathname page) auth_pages ≡ true
    → is_protected_path pathname ≡ false
auth_page_open pathname h = elim (Bool-cases (str_eq pathname "/login")) [
  | inl login ↦ ap is_protected_path ((eq_iff pathname "/login").0 login) ∙ login_open
  | inr other ↦ elim (Bool-cases (str_eq pathname "/signup")) [
    | inl signup ↦ ap is_protected_path ((eq_iff pathname "/signup").0 signup) ∙ signup_open
    | inr neither ↦ cc (h, other, neither)
  ]
]

-- With a session a request is redirected to the dashboard only.
proxy-dashboard :
    (pathname target : String) (parameter : Option String)
    → proxy true pathname ≡ redirects target parameter
    → target ≡ "/dashboard"
unfolding proxy
proxy-dashboard pathname target parameter h = ground arith

-- A redirect is followed once: where a request is redirected, the page that it is sent to is shown
-- to the same session. So no request goes round in circles.
pub proxy-settles :
    (has_session : Bool) (pathname target : String) (parameter : Option String)
    → proxy has_session pathname ≡ redirects target parameter
    → proxy has_session target ≡ passes
unfolding proxy
proxy-settles false pathname target parameter h = ground (arith, login_open)
proxy-settles true pathname target parameter h =
    ap (proxy true) (proxy-dashboard pathname target parameter h) ∙ refl

-- A protected page passes with a session, and is redirected to the login with its own path as the
-- parameter without one.
pub proxy-protected :
    (has_session : Bool) (pathname : String)
    → is_protected_path pathname ≡ true
    → proxy has_session pathname
      ≡ (if has_session then passes else redirects "/login" (some pathname))
unfolding proxy
proxy-protected false pathname h = ground arith
proxy-protected true pathname h = ground (arith, auth_page_open pathname)
