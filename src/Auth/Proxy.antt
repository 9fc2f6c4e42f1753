-- ===== src/Auth/Proxy.antt =====
-- apps/web/src/proxy.ts: which pages want a session, and where a request is redirected. A request
-- is its path and whether it carries the cookie.
pub mod Laws
use cloud_photo_delivery.Prelude.{
  String, Bool, not, ◌&&◌, ◌||◌, Option, none, some, List, [], ◌∷◌, if◌then◌else◌, str_eq, any,
}
use Prim.Native.String
use text.Mathlib.Text.{starts_with}

abbrev pub protected_prefixes : List String
protected_prefixes =
    "/dashboard" ∷ "/analytics" ∷ "/events" ∷ "/account" ∷ "/devices" ∷ "/branding" ∷ "/billing"
    ∷ "/admin" ∷ []

abbrev pub auth_pages : List String
auth_pages = "/login" ∷ "/signup" ∷ []

unfoldable pub is_protected_path : String → Bool
is_protected_path pathname =
    any (λ prefix. str_eq pathname prefix || starts_with pathname (String.◌++◌ prefix "/"))
      protected_prefixes

-- `NextResponse.next()`, or a redirect with the parameter `next` if it has one.
pub data Answer : Type 0 where
  passes : Answer
  redirects : (pathname : String) (next : Option String) → Answer

unfoldable pub proxy : Bool → String → Answer
proxy has_session pathname =
    if not has_session && is_protected_path pathname
    then redirects "/login" (some pathname)
    else if has_session && any (λ page. str_eq pathname page) auth_pages
    then redirects "/dashboard" none
    else passes
