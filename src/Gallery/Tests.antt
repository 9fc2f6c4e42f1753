-- ===== src/Gallery/Tests.antt =====
-- Runs of the gallery's parts on small data.
use cloud_photo_delivery.Prelude.{
  ◌+◌, ◌*◌, ◌<◌, ◌≡◌, ◌∷◌, All, Option, [], refl, String, true, false, none, some, List, ltb,
  if◌then◌else◌, arith, get, put, remove, str_eq,
}
use cloud_photo_delivery.Client.{
  ApiError, ClientResult, wraps, body, unwrap_envelope, throws, to_api_error, normalize_error,
  parse_retry_after,
}
use cloud_photo_delivery.Auth.Api.{resolved}
use cloud_photo_delivery.Gallery.Api.{
  api, PublicState, after_public_call, begin_public_call, fetch_photo_url, unlocked,
}
use cloud_photo_delivery.Gallery.Api.Laws.{
  is_served, after_public_call-401, unlocked-begin_public_call,
}
use cloud_photo_delivery.Gallery.Api.Fallback.{
  Tried, given, failed, no_variant, photo_url_with_fallback, photo_url_with_fallback-append,
}
use cloud_photo_delivery.Gallery.Batch.Serves
use cloud_photo_delivery.Gallery.Batch.Serves.{ServiceEvent, calls_of, IsServed, run_service}
use cloud_photo_delivery.Gallery.Batch.Serves.Runs.{serves_each_call}
use cloud_photo_delivery.Gallery.Viewer.{Viewer, arrow_right}
use cloud_photo_delivery.Gallery.Viewer.Laws.{
  ViewerEvent, presses, touches, lifts, run_viewer, run_viewer_bounds,
}
use cloud_photo_delivery.Gallery.Variant.{UrlVariant, medium, large, original, key_of}
use cloud_photo_delivery.Gallery.UrlCache
use cloud_photo_delivery.Gallery.UrlCache.{
  SignedUrl, Cache, Fetch, served, awaits, url_expiry_margin_ms, after_fetch, join,
}
use cloud_photo_delivery.Gallery.UrlCache.Laws.{fetch-after_fetch, fetch_joins}
use cloud_photo_delivery.Photos.Parts.{chunk, chunk_from}
use cloud_photo_delivery.Gallery.Batch
use cloud_photo_delivery.Gallery.Batch.{
  schedule, flush, dispatched, group, add_to_group, cut_groups, settle_ok, settle_error, Batcher,
  BatchReply, urls_for, failed_with,
}
use cloud_photo_delivery.Gallery.Batch.Settled.{count_settled}
use cloud_photo_delivery.Gallery.Batch.Runs.{
  Event, asks, timer_fires, answered, run, new_batcher, settles_once, on_event,
}
use cloud_photo_delivery.Gallery.Unlock.{Unlocks, store_unlock_token, expiry_margin_ms}
use cloud_photo_delivery.Gallery.Unlock.Laws.{Agrees}

abbrev first_photo : String
first_photo = "p1"

abbrev one_url : SignedUrl
one_url = record { url = "https://cdn/p1"; expires_in = 60 }

abbrev empty_cache : Cache
empty_cache = record { entries = []; inflight = []; requests = [] }

-- The cache after a call that awaits, and after its promise settles.
abbrev asked_cache : Cache
asked_cache = (UrlCache.fetch 10 true "p1" medium empty_cache).0

abbrev filled_cache : Cache
filled_cache = (after_fetch 1000 0 "p1" medium (some one_url) asked_cache).0

fetch-after_fetch_example : UrlCache.fetch 2000 false "p1" medium filled_cache ≡ (
    if ltb (2000 + url_expiry_margin_ms) (1000 + 60 * 1000)
    then (filled_cache, served "https://cdn/p1")
    else join "p1" medium filled_cache)
fetch-after_fetch_example = fetch-after_fetch 1000 2000 0 "p1" medium one_url asked_cache

fetch_joins_example : UrlCache.fetch 20 false "p1" medium asked_cache ≡ (asked_cache, awaits 0)
unfolding UrlCache.fetch join get remove
fetch_joins_example =
    fetch_joins 10 20 true "p1" medium empty_cache asked_cache 0 refl (omega arith)

-- Three callers, two of them for one photo, an answer that lacks a photo, and an error.
abbrev busy_hour : List (Event String)
busy_hour =
    asks "p1" medium
    ∷ asks "p1" medium
    ∷ timer_fires
    ∷ asks "p2" large
    ∷ asks "p3" large
    ∷ answered 0 (urls_for (("p1", one_url) ∷ []))
    ∷ answered 0 (failed_with "offline")
    ∷ []

busy_hour_done :
    ((run busy_hour (new_batcher 2)).timer ≡ false)
    × ((run busy_hour (new_batcher 2)).batches ≡ [])
    × (3 < (run busy_hour (new_batcher {E = String} 2)).next_waiter)
unfolding run on_event Batch.fetch schedule flush dispatched group add_to_group cut_groups settle_ok
    settle_error put get chunk chunk_from key_of
busy_hour_done = (refl, refl, omega arith)

settles_once_example : count_settled 3 (run busy_hour (new_batcher {E = String} 2)).settled ≡ 1
settles_once_example =
    settles_once 2 busy_hour 3 (omega arith) busy_hour_done.0 busy_hour_done.1 busy_hour_done.2

abbrev private_window : Unlocks
private_window = record {
  memory = [];
  session = some (record { readable = true; writable = true; texts = [] });
  listeners = 7 ∷ [];
  emitted = [];
}

stored-Agrees : Agrees (store_unlock_token "wedding" "tok" 60 0 private_window).session
unfolding store_unlock_token
stored-Agrees = refl

-- A service with one photo, two callers for it and one for another; the batch of one size fails.
abbrev catalogue : String → UrlVariant → Option SignedUrl
catalogue photo_id v = if str_eq photo_id "p1" then some one_url else none

abbrev busy_day : List (ServiceEvent String)
busy_day =
    Serves.asks "p1" medium
    ∷ Serves.asks "p2" medium
    ∷ Serves.asks "p1" large
    ∷ Serves.timer_fires
    ∷ Serves.serves 0
    ∷ Serves.fails 0 "offline"
    ∷ []

serves_each_call_example :
    All
      (IsServed catalogue (calls_of busy_day))
      (run_service catalogue busy_day (new_batcher 2)).settled
serves_each_call_example = serves_each_call String catalogue 2 busy_day (omega arith)

abbrev too_many : ApiError
too_many = record {
  code_of = "RATE_LIMITED";
  message = "Slow down";
  status = 429;
  retry_after_seconds = some 120;
}

-- A gallery that a guest has unlocked, with a URL in its cache, and an answer that its token has
-- run out.
abbrev open_gallery : PublicState
open_gallery = record {
  unlocks =
      store_unlock_token "wedding" "t1" 3600 0
        (record { memory = []; session = none; listeners = []; emitted = [] });
  url_caches = ("wedding", filled_cache) ∷ [];
  removed_lists = [];
}

abbrev locked_again : ClientResult String
locked_again = record {
  data_of = none;
  error = some (wraps (body (some "LOCKED") none));
  response = record { status = 401; retry_after = none };
}

abbrev locked_error : ApiError
locked_error = record {
  code_of = "LOCKED";
  message = "Request failed";
  status = 401;
  retry_after_seconds = none;
}

locked_again_throws : unwrap_envelope locked_again ≡ throws locked_error
unfolding unwrap_envelope to_api_error normalize_error parse_retry_after
locked_again_throws = refl

after_public_call-401_example :
    (let s' = (after_public_call "wedding" (resolved locked_again) open_gallery).0 in
      ((begin_public_call "wedding" 10 s').1 ≡ [])
      × (is_served (fetch_photo_url 10 false "wedding" "p1" medium s').1 ≡ false))
after_public_call-401_example =
    after_public_call-401 "wedding" locked_again locked_error 10 "p1" medium open_gallery
      (unfold store_unlock_token in tt) locked_again_throws refl

abbrev shut_gallery : PublicState
shut_gallery = record {
  unlocks = record { memory = []; session = none; listeners = []; emitted = [] };
  url_caches = [];
  removed_lists = [];
}

unlocked-begin_public_call_example :
    (let s' =
        unlocked "wedding" 0 (record { token = some "t1"; expires_in = some 3600 }) shut_gallery in
      ((begin_public_call "wedding" 1000 s').1 ≡ (
        if ltb (1000 + expiry_margin_ms) (0 + 3600 * 1000)
        then ("X-Gallery-Unlock", "t1") ∷ []
        else []))
      × (s'.removed_lists ≡ "wedding" ∷ []))
unlocked-begin_public_call_example =
    unlocked-begin_public_call "wedding" "t1" 3600 0 1000 shut_gallery tt refl (omega arith)

-- A photo of which the server has no large variant.
abbrev lookups : UrlVariant → Tried
lookups large = failed (api no_variant)
lookups _ = given "https://cdn/p1"

photo_url_with_fallback-append_example :
    photo_url_with_fallback lookups (large ∷ medium ∷ original ∷ [])
    ≡ (large ∷ medium ∷ [], given "https://cdn/p1")
photo_url_with_fallback-append_example =
    photo_url_with_fallback-append lookups (large ∷ []) medium (original ∷ [])
      ((no_variant, refl), tt) refl

-- The last photo, and a key and a swipe that ask for more.
abbrev last_photo : Viewer
last_photo = record { photos = 2; index = 1; has_next_page = true; asked = 0; touch_start_x = none }

abbrev gestures : List ViewerEvent
gestures = presses arrow_right ∷ touches (some 300) ∷ lifts (some 100) ∷ []

run_viewer_bounds_example :
    (run_viewer gestures last_photo).index < (run_viewer gestures last_photo).photos
run_viewer_bounds_example = run_viewer_bounds gestures last_photo (omega arith)
