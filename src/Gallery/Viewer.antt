-- ===== src/Gallery/Viewer.antt =====
-- apps/web/src/features/gallery/components/photo-viewer.tsx: which photo of a gallery is shown, by
-- keys and by swipes. Places on the screen are whole numbers of pixels.
pub mod Laws
use cloud_photo_delivery.Prelude.{
  ℕ, ◌+◌, ◌-◌, Bool, true, false, Option, none, some, List, [], ◌∷◌, ltb, if◌then◌else◌,
}

abbrev pub swipe_threshold_px : ℕ
swipe_threshold_px = 40

-- The photos so far, the one that is shown, whether there are more, the pages asked for, and where
-- a touch began.
pub record Viewer : Type 0 where
  pub photos : ℕ
  pub index : ℕ
  pub has_next_page : Bool
  pub asked : ℕ
  pub touch_start_x : Option ℕ

unfoldable pub go_previous : Viewer → Viewer
go_previous v = if ltb 0 v.index then record v { index = v.index - 1 } else v

-- `index < photos.length - 1`, which is a number below 0 for no photos.
unfoldable pub go_next : Viewer → Viewer
go_next v =
    if ltb (v.index + 1) v.photos
    then record v { index = v.index + 1 }
    else if v.has_next_page
    then record v { asked = v.asked + 1 }
    else v

pub data Key : Type 0 where
  arrow_left arrow_right other_key : Key

unfoldable pub handle_key_down : Key → Viewer → Viewer
handle_key_down arrow_left v = go_previous v
handle_key_down arrow_right v = go_next v
handle_key_down other_key v = v

unfoldable pub handle_touch_start : Option ℕ → Viewer → Viewer
handle_touch_start x v = record v { touch_start_x = x }

abbrev swipe : ℕ → ℕ → Viewer → Viewer
swipe start end v =
    if ltb (end - start + (start - end)) swipe_threshold_px
    then v
    else if ltb end start
    then go_next v
    else go_previous v

abbrev swipe_from : Option ℕ → Option ℕ → Viewer → Viewer
swipe_from (some start) (some end) v = swipe start end v
swipe_from _ _ v = v

unfoldable pub handle_touch_end : Option ℕ → Viewer → Viewer
handle_touch_end end v = swipe_from v.touch_start_x end (record v { touch_start_x = none })
