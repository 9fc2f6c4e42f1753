-- ===== src/Gallery/UrlCache.antt =====
-- `createSignedUrlCache` of apps/web/src/features/gallery/url-cache.ts. A promise of the fetcher is
-- named by the number of the call; a call of `fetch` that awaits one goes on in `after_fetch`.
-- Times are milliseconds, and `now()` is an argument.
pub mod Laws
use cloud_photo_delivery.Prelude.{
  ℕ, ◌+◌, ◌-◌, ◌*◌, String, Bool, true, false, Option, none, some, List, [], ◌∷◌, ◌++◌, ltb, ◌==◌,
  if◌then◌else◌, Keyed, get, put, remove, length,
}
use cloud_photo_delivery.Gallery.Variant.{UrlVariant, key_of}

-- What the server signs.
pub record SignedUrl : Type 0 where
  pub url : String
  pub expires_in : ℕ

abbrev pub url_expiry_margin_ms : ℕ
url_expiry_margin_ms = 30_000

-- A time before the epoch is 0 here: it is as far in the past for the one test of it.
pub record CacheEntry : Type 0 where
  pub url : String
  pub expires_at : ℕ

pub record Cache : Type 0 where
  pub entries : Keyed CacheEntry
  pub inflight : Keyed ℕ
  -- the calls of the fetcher so far
  pub requests : List (String × UrlVariant)

-- `fetch` returns a URL at once, or awaits a promise.
pub data Fetch : Type 0 where
  served : String → Fetch
  awaits : ℕ → Fetch

-- `inflight.get(key)`, or a new call of the fetcher.
join_of : Option ℕ → String → String → UrlVariant → Cache → Cache × Fetch
join_of (some promise) key photo_id variant c = (c, awaits promise)
join_of none key photo_id variant c = (
  record c {
    inflight = put key (length c.requests) c.inflight;
    requests = c.requests ++ (photo_id, variant) ∷ [];
  },
  awaits (length c.requests),
)

unfoldable pub join : String → UrlVariant → Cache → Cache × Fetch
unfolding join_of
join photo_id variant c =
    join_of (get (key_of photo_id variant) c.inflight) (key_of photo_id variant) photo_id variant c

serve_of : ℕ → String → UrlVariant → Option CacheEntry → Cache → Cache × Fetch
serve_of now photo_id variant none c = join photo_id variant c
serve_of now photo_id variant (some entry) c =
    if ltb now entry.expires_at then (c, served entry.url) else join photo_id variant c

-- `fetch` up to its `await`.
unfoldable pub fetch : ℕ → Bool → String → UrlVariant → Cache → Cache × Fetch
unfolding serve_of
fetch now true photo_id variant c = join photo_id variant (record c {
  entries = remove (key_of photo_id variant) c.entries;
  inflight = remove (key_of photo_id variant) c.inflight;
})
fetch now false photo_id variant c =
    serve_of now photo_id variant (get (key_of photo_id variant) c.entries) c

abbrev is_promise : ℕ → Option ℕ → Bool
is_promise p none = false
is_promise p (some k) = k == p

-- `if (inflight.get(key) === pending) inflight.delete(key)`
unfoldable pub leave : ℕ → String → Cache → Cache
leave promise key c =
    if is_promise promise (get key c.inflight)
    then record c { inflight = remove key c.inflight }
    else c

-- `now() + result.expiresIn * 1000 - URL_EXPIRY_MARGIN_MS`
abbrev pub entry_from : ℕ → SignedUrl → CacheEntry
entry_from now result = record {
  url = result.url;
  expires_at = now + result.expires_in * 1000 - url_expiry_margin_ms;
}

-- `fetch` behind its `await`: a rejected promise is `none`, and so is the result that it throws.
unfoldable pub after_fetch :
    ℕ → ℕ → String → UrlVariant → Option SignedUrl → Cache → Cache × Option String
after_fetch now promise photo_id variant none c = (leave promise (key_of photo_id variant) c, none)
after_fetch now promise photo_id variant (some result) c = (
  leave promise (key_of photo_id variant)
      (record c { entries = put (key_of photo_id variant) (entry_from now result) c.entries }),
  some result.url,
)

unfoldable pub clear : Cache → Cache
clear c = record c { entries = []; inflight = [] }

unfoldable pub size : Cache → ℕ
size c = length c.entries
