-- ===== src/Gallery/Api/Laws.antt =====
-- What a refused or an unlocked gallery is, and the bounds of the retries.
use cloud_photo_delivery.Prelude.{
  ℕ, ◌+◌, ◌*◌, ◌≤◌, ◌<◌, ◌≡◌, refl, String, Bool, true, false, some, [], ◌∷◌, ◌++◌, ltb, arith, get,
  get-put, Option-cases, inl, inr, str_eq, eq_refl, if◌then◌else◌,
}
use cloud_photo_delivery.Client.{ApiError, ClientResult, throws, unwrap_envelope}
use cloud_photo_delivery.Auth.Api.{resolved}
use cloud_photo_delivery.Gallery.Variant.{UrlVariant, key_of}
use cloud_photo_delivery.Gallery.UrlCache.{Cache, Fetch, served, awaits, fetch, clear, join}
use cloud_photo_delivery.Gallery.Unlock.{unlock_header, clear_unlock_token, expiry_margin_ms}
use cloud_photo_delivery.Gallery.Unlock.Laws.{Agrees, read-store, read-clear}
use cloud_photo_delivery.Gallery.Api.{
  UrlError, api, other, retry_urls, retry_urls_delay, url_retry_max_delay_ms, PublicState,
  fetch_photo_url, clear_photo_urls, begin_public_call, after_public_call, url_cache, unlocked,
}

-- A URL is tried at most five times, only once more where the error is not that of a limit of rate,
-- and never again where the error is another one of the client's; no pause between two tries is
-- longer than a minute.
pub retry_urls_bounds :
    (failure_count : ℕ) (e : UrlError)
    → retry_urls failure_count e ≡ true
    → (failure_count < 4) × (retry_urls_delay failure_count e ≤ url_retry_max_delay_ms)
unfolding retry_urls retry_urls_delay
retry_urls_bounds failure_count (api e) h = (ground arith, ground arith)
retry_urls_bounds failure_count other h = (ground arith, ground arith)

abbrev pub is_served : Fetch → Bool
is_served (served url) = true
is_served (awaits promise) = false

url_cache-clear :
    (slug : String) (s : PublicState) → (url_cache slug (clear_photo_urls slug s)).entries ≡ []
unfolding clear_photo_urls clear
url_cache-clear slug s = elim (Option-cases (get slug s.url_caches)) [
  | inl e ↦ rw (e, e)
  | inr (c, e) ↦ ground (arith, get-put slug slug (clear c) s.url_caches, eq_refl slug)
]

-- A cache without entries serves nothing.
fetch-empty :
    (now : ℕ) (photo_id : String) (variant : UrlVariant) (c : Cache)
    → c.entries ≡ []
    → is_served (fetch now false photo_id variant c).1 ≡ false
unfolding fetch join get
fetch-empty now photo_id variant c e =
    elim (Option-cases (get (key_of photo_id variant) c.inflight)) [
      | inl h ↦ ground (arith, e)
      | inr (k, h) ↦ ground (arith, e)
    ]

unlock_header-clear :
    (slug : String) (now : ℕ) (s : PublicState)
    → Agrees s.unlocks.session
    → (unlock_header slug now (clear_unlock_token slug s.unlocks)).1 ≡ []
unfolding unlock_header
unlock_header-clear slug now s agrees = rw (read-clear slug now s.unlocks agrees)

clear_photo_urls-unlocks :
    (slug : String) (s : PublicState) → (clear_photo_urls slug s).unlocks ≡ s.unlocks
unfolding clear_photo_urls
clear_photo_urls-unlocks slug s = elim (Option-cases (get slug s.url_caches)) [
  | inl e ↦ rw e
  | inr (c, e) ↦ rw e
]

-- After an answer that is an error 401, where the session's storage takes writes or is absent: the
-- next request of the gallery is sent without an unlock token, and no URL is served from its cache.
pub after_public_call-401 :
    {T : Type 0} (slug : String) (result : ClientResult T) (e : ApiError) (now : ℕ)
    (photo_id : String) (variant : UrlVariant) (s : PublicState)
    → Agrees s.unlocks.session
    → unwrap_envelope result ≡ throws e
    → e.status ≡ 401
    → let s' = (after_public_call slug (resolved result) s).0 in
      ((begin_public_call slug now s').1 ≡ [])
      × (is_served (fetch_photo_url now false slug photo_id variant s').1 ≡ false)
unfolding after_public_call begin_public_call fetch_photo_url
after_public_call-401 slug result e now photo_id variant s agrees h h' =
    let s1 = record s { unlocks = clear_unlock_token slug s.unlocks } in
    rw h (
      rw h' (
        rw (clear_photo_urls-unlocks slug s1) (unlock_header-clear slug now s agrees),
        fetch-empty now photo_id variant (url_cache slug (clear_photo_urls slug s1))
            (url_cache-clear slug s1),
      ))

-- After an unlock that the server grants with a token and a life, on such a storage: a request is
-- sent with that token exactly while more than five seconds of its life are left, and with no
-- unlock token afterwards; the lists that came without it are asked for again.
pub unlocked-begin_public_call :
    (slug token : String) (seconds then_ now : ℕ) (s : PublicState)
    → Agrees s.unlocks.session
    → str_eq token "" ≡ false
    → 0 < seconds
    → let s' = unlocked slug then_ (record { token = some token; expires_in = some seconds }) s in
      ((begin_public_call slug now s').1 ≡ (
        if ltb (now + expiry_margin_ms) (then_ + seconds * 1000)
        then ("X-Gallery-Unlock", token) ∷ []
        else []))
      × (s'.removed_lists ≡ s.removed_lists ++ slug ∷ [])
unfolding unlocked begin_public_call unlock_header
unlocked-begin_public_call slug token seconds then_ now s agrees some_token alive = (
  ground (arith, (read-store slug slug token seconds then_ now s.unlocks agrees).0, some_token),
  refl,
)
