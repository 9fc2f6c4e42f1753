-- ===== src/Gallery/UrlCache/Laws.antt =====
-- Laws of the cache of url-cache.ts.
use cloud_photo_delivery.Prelude.{
  ℕ, ◌+◌, ◌*◌, ◌≤◌, ◌≡◌, ap, String, Bool, true, false, some, ltb, if◌then◌else◌, get, put, remove,
  length, arith, get-put, get-remove, eq_refl,
}
use cloud_photo_delivery.Gallery.Variant.{UrlVariant, key_of}
use cloud_photo_delivery.Gallery.UrlCache.{
  SignedUrl, Cache, served, awaits, join, fetch, leave, after_fetch, entry_from,
  url_expiry_margin_ms,
}

entries-leave : (p : ℕ) (key : String) (c : Cache) → (leave p key c).entries ≡ c.entries
unfolding leave
entries-leave p key c = ground arith

-- A URL that was signed at `then_` is served at `now`, by an unforced call with nothing in between,
-- while more than 30 seconds of its life are left, and never later: then the call awaits a promise.
pub fetch-after_fetch :
    (then_ now promise : ℕ) (photo_id : String) (variant : UrlVariant) (result : SignedUrl)
    (c : Cache)
    → let after = (after_fetch then_ promise photo_id variant (some result) c).0 in
      fetch now false photo_id variant after ≡ (
        if ltb (now + url_expiry_margin_ms) (then_ + result.expires_in * 1000)
        then (after, served result.url)
        else join photo_id variant after)
unfolding fetch after_fetch
fetch-after_fetch then_ now promise photo_id variant result c =
    let key = key_of photo_id variant in
    let stored : Cache = record c { entries = put key (entry_from then_ result) c.entries } in
    ground (
      arith,
      ap (get key) (entries-leave promise key stored),
      get-put key key (entry_from then_ result) c.entries,
      eq_refl key,
    )

-- A call that awaits is registered: another unforced call for the same photo and variant, before
-- the promise settles and not earlier on the clock, makes no further request and awaits the same
-- promise.
pub fetch_joins :
    (now later : ℕ) (force : Bool) (photo_id : String) (variant : UrlVariant) (c c' : Cache)
    (promise : ℕ)
    → fetch now force photo_id variant c ≡ (c', awaits promise)
    → now ≤ later
    → fetch later false photo_id variant c' ≡ (c', awaits promise)
unfolding fetch join
fetch_joins now later true photo_id variant c c' promise e le =
    let key = key_of photo_id variant in
    ground (
      arith,
      get-put key key (length c.requests) c.inflight,
      get-put key key (length c.requests) (remove key c.inflight),
      get-remove key key c.entries,
      get-remove key key c.inflight,
      eq_refl key,
    )
fetch_joins now later false photo_id variant c c' promise e le =
    let key = key_of photo_id variant in
    ground (
      arith,
      get-put key key (length c.requests) c.inflight,
      get-put key key (length c.requests) (remove key c.inflight),
      get-remove key key c.entries,
      get-remove key key c.inflight,
      eq_refl key,
    )
