-- ===== src/Gallery/Viewer/Laws.antt =====
-- A viewer in use: keys, touches and pages that come, in any order.
use cloud_photo_delivery.Prelude.{ℕ, ◌+◌, ◌<◌, Bool, Option, none, some, List, [], ◌∷◌, arith}
use cloud_photo_delivery.Gallery.Viewer.{
  Viewer, Key, arrow_left, arrow_right, other_key, go_previous, go_next, handle_key_down,
  handle_touch_start, handle_touch_end, swipe, swipe_from,
}

-- A page brings more photos, and says whether there are others behind it.
pub data ViewerEvent : Type 0 where
  presses : Key → ViewerEvent
  touches lifts : Option ℕ → ViewerEvent
  page_comes : (photos : ℕ) (has_next_page : Bool) → ViewerEvent

unfoldable pub on_event : ViewerEvent → Viewer → Viewer
on_event (presses key) v = handle_key_down key v
on_event (touches x) v = handle_touch_start x v
on_event (lifts x) v = handle_touch_end x v
on_event (page_comes photos has_next_page) v = record v {
  photos = v.photos + photos;
  has_next_page = has_next_page;
}

unfoldable pub run_viewer : List ViewerEvent → Viewer → Viewer
run_viewer [] v = v
run_viewer (e ∷ es) v = run_viewer es (on_event e v)

go_previous_bounds :
    (v : Viewer) → v.index < v.photos → (go_previous v).index < (go_previous v).photos
unfolding go_previous
go_previous_bounds v h = ground arith

go_next_bounds : (v : Viewer) → v.index < v.photos → (go_next v).index < (go_next v).photos
unfolding go_next
go_next_bounds v h = ground arith

swipe_bounds :
    (start end : ℕ) (v : Viewer)
    → v.index < v.photos
    → (swipe start end v).index < (swipe start end v).photos
swipe_bounds start end v h = ground (arith, go_next_bounds v h, go_previous_bounds v h)

swipe_from_bounds :
    (start end : Option ℕ) (v : Viewer)
    → v.index < v.photos
    → (swipe_from start end v).index < (swipe_from start end v).photos
swipe_from_bounds none end v h = h
swipe_from_bounds (some start) none v h = h
swipe_from_bounds (some start) (some end) v h = swipe_bounds start end v h

on_event_bounds :
    (e : ViewerEvent) (v : Viewer)
    → v.index < v.photos
    → (on_event e v).index < (on_event e v).photos
unfolding on_event handle_key_down handle_touch_start handle_touch_end
on_event_bounds (presses arrow_left) v h = go_previous_bounds v h
on_event_bounds (presses arrow_right) v h = go_next_bounds v h
on_event_bounds (presses other_key) v h = h
on_event_bounds (touches x) v h = h
on_event_bounds (lifts x) v h =
    swipe_from_bounds v.touch_start_x x (record v { touch_start_x = none }) h
on_event_bounds (page_comes photos has_next_page) v h = omega arith

-- A viewer that is opened on one of the photos shows one of them after any keys, touches and pages
-- that come, in any order.
pub run_viewer_bounds :
    (es : List ViewerEvent) (v : Viewer)
    → v.index < v.photos
    → (run_viewer es v).index < (run_viewer es v).photos
unfolding run_viewer
run_viewer_bounds [] v h = h
run_viewer_bounds (e ∷ es) v h = run_viewer_bounds es (on_event e v) (on_event_bounds e v h)
