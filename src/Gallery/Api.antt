-- ===== src/Gallery/Api.antt =====
-- apps/web/src/features/gallery/api.ts: the requests of a public gallery, with its unlock token and
-- its caches of signed URLs, and types.ts. `Date.now()` is an argument; the answers of the server
-- are arguments too, and times are milliseconds.
pub mod Laws
pub mod Fallback
use cloud_photo_delivery.Prelude.{
  ℕ, zero, suc, ◌+◌, ◌*◌, ◌^◌, min, String, Bool, true, false, not, ◌&&◌, Option, none, some, List,
  [], ◌∷◌, ◌++◌, ltb, leb, ◌==◌, if◌then◌else◌, Keyed, get, put, or_default, truthy, str_eq,
}
use cloud_photo_delivery.Client.{ApiError, ClientResult, Outcome, throws, returns, unwrap_envelope}
use cloud_photo_delivery.Auth.Api.{Reply, rejected, resolved}
use cloud_photo_delivery.Gallery.Variant.{UrlVariant}
use cloud_photo_delivery.Gallery.UrlCache.{SignedUrl, Cache, Fetch, fetch, clear}
use cloud_photo_delivery.Gallery.Unlock.{
  Unlocks, store_unlock_token, clear_unlock_token, unlock_header,
}

-- What a promise of a URL is rejected with.
pub data UrlError : Type 0 where
  api : ApiError → UrlError
  other : UrlError

abbrev pub photo_page_size : ℕ
photo_page_size = 50

abbrev pub url_retry_limit : ℕ
url_retry_limit = 4

abbrev pub url_retry_max_delay_ms : ℕ
url_retry_max_delay_ms = 60_000

unfoldable pub retry_urls : ℕ → UrlError → Bool
retry_urls failure_count (api e) =
    if e.status == 429
    then ltb failure_count url_retry_limit
    else if leb 400 e.status && ltb e.status 500
    then false
    else ltb failure_count 1
retry_urls failure_count other = ltb failure_count 1

abbrev back_off : ℕ → ℕ
back_off failure_count = min (500 * 2 ^ failure_count) 8_000

abbrev delay_after : Option ℕ → ℕ → ℕ
delay_after none failure_count = back_off failure_count
delay_after (some seconds) failure_count = min (seconds * 1000) url_retry_max_delay_ms

unfoldable pub retry_urls_delay : ℕ → UrlError → ℕ
retry_urls_delay failure_count (api e) = delay_after e.retry_after_seconds failure_count
retry_urls_delay failure_count other = back_off failure_count

-- The module's maps, and the tokens of unlock.ts.
pub record PublicState : Type 0 where
  pub unlocks : Unlocks
  pub url_caches : Keyed Cache
  -- the galleries whose lists `queryClient.removeQueries` has removed
  pub removed_lists : List String

abbrev pub new_cache : Cache
new_cache = record { entries = []; inflight = []; requests = [] }

-- `urlCaches.get(slug)`, or a new one that is put there.
abbrev cache_or_new : Option Cache → Cache
cache_or_new none = new_cache
cache_or_new (some c) = c

abbrev pub url_cache : String → PublicState → Cache
url_cache slug s = cache_or_new (get slug s.url_caches)

abbrev with_fetch : String → PublicState → Cache × Fetch → PublicState × Fetch
with_fetch slug s x = (record s { url_caches = put slug x.0 s.url_caches }, x.1)

unfoldable pub fetch_photo_url :
    ℕ → Bool → String → String → UrlVariant → PublicState → PublicState × Fetch
fetch_photo_url now force slug photo_id variant s =
    with_fetch slug s (fetch now force photo_id variant (url_cache slug s))

abbrev clear_cache : String → Option Cache → PublicState → PublicState
clear_cache slug none s = s
clear_cache slug (some c) s = record s { url_caches = put slug (clear c) s.url_caches }

unfoldable pub clear_photo_urls : String → PublicState → PublicState
clear_photo_urls slug s = clear_cache slug (get slug s.url_caches) s

-- A request of the gallery's client: the headers that it is sent with.
abbrev with_headers : PublicState → Unlocks × Keyed String → PublicState × Keyed String
with_headers s x = (record s { unlocks = x.0 }, x.1)

unfoldable pub begin_public_call : String → ℕ → PublicState → PublicState × Keyed String
begin_public_call slug now s = with_headers s (unlock_header slug now s.unlocks)

-- `publicCall` behind its `await`; an error that is no `ApiError` is `none`.
abbrev forget_if_401 : ApiError → String → PublicState → PublicState
forget_if_401 e slug s =
    if e.status == 401
    then clear_photo_urls slug (record s { unlocks = clear_unlock_token slug s.unlocks })
    else s

module _ {T : Type 0} where
  abbrev catch_public : String → Outcome T → PublicState → PublicState × Option (Outcome T)
  catch_public slug (returns v) s = (s, some (returns v))
  catch_public slug (throws e) s = (forget_if_401 e slug s, some (throws e))

  unfoldable pub after_public_call :
      String → Reply (ClientResult T) → PublicState → PublicState × Option (Outcome T)
  after_public_call slug rejected s = (s, none)
  after_public_call slug (resolved result) s = catch_public slug (unwrap_envelope result) s

-- The answer to a batch as the fetcher takes it: the URLs by photo, which expire together.
unfoldable pub signed_urls : Keyed String → ℕ → Keyed SignedUrl → Keyed SignedUrl
signed_urls [] expires_in urls = urls
signed_urls ((photo_id, url) ∷ batch) expires_in urls =
    signed_urls batch expires_in (put photo_id (record { url = url; expires_in = expires_in }) urls)

-- `usePublicPhotos`: the query of a page, and what asks for the page behind it.
pub record PhotosQuery : Type 0 where
  pub limit : ℕ
  pub cursor : Option String

abbrev cursor_of : Option String → Option String
cursor_of page_param = if truthy page_param then page_param else none

unfoldable pub photos_query : Option String → PhotosQuery
photos_query page_param = record { limit = photo_page_size; cursor = cursor_of page_param }

-- `useUnlockGallery`: `onSuccess`.
pub record UnlockResult : Type 0 where
  pub token : Option String
  pub expires_in : Option ℕ

abbrev store_result : String → ℕ → Option String → Option ℕ → Unlocks → Unlocks
store_result slug now (some token) (some expires_in) u =
    if not (str_eq token "") && not (expires_in == 0)
    then store_unlock_token slug token expires_in now u
    else u
store_result slug now _ _ u = u

unfoldable pub unlocked : String → ℕ → UnlockResult → PublicState → PublicState
unlocked slug now result s = record s {
  unlocks = store_result slug now result.token result.expires_in s.unlocks;
  removed_lists = s.removed_lists ++ slug ∷ [];
}

-- types.ts: what the pages need of an event and a photo.
pub record PublicEvent : Type 0 where
  pub name : Option String
  pub allow_download : Option Bool
  pub allow_original_download : Option Bool

pub record GalleryEvent : Type 0 where
  pub name : String
  pub allow_download : Bool
  pub allow_original_download : Bool

unfoldable pub to_gallery_event : PublicEvent → GalleryEvent
to_gallery_event event = record {
  name = or_default event.name "Event gallery";
  allow_download = or_default event.allow_download false;
  allow_original_download = or_default event.allow_original_download false;
}

pub record GalleryPhoto : Type 0 where
  pub id : String
  pub variants : List String

abbrev photo_with : Option String → Option (List String) → Option GalleryPhoto
photo_with none variants = none
photo_with (some id) variants =
    if str_eq id "" then none else some (record { id = id; variants = or_default variants [] })

pub record PublicPhoto : Type 0 where
  pub id : Option String
  pub variants : Option (List String)

unfoldable pub to_gallery_photo : PublicPhoto → Option GalleryPhoto
to_gallery_photo photo = photo_with photo.id photo.variants
