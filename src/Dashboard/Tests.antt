-- ===== src/Dashboard/Tests.antt =====
-- Runs of the dashboard's computations on small data.
use mathlib.Core.List.{Perm}
use cloud_photo_delivery.Prelude.{
  ◌++◌, filter, min, Bool, false, not, ◌&&◌, ℕ, ◌-◌, ◌*◌, ◌≡◌, String, true, Option, none, some,
  List, [], ◌∷◌, leb, if◌then◌else◌, ceil_div, length, arith, str_eq,
}
use cloud_photo_delivery.Dashboard.Expiry.{day_ms, plural, format_time_until}
use cloud_photo_delivery.Dashboard.Expiry.Laws.{format_time_until_lem}
use cloud_photo_delivery.Dashboard.Plans.{Plan}
use cloud_photo_delivery.Dashboard.Devices.{DeviceSummaryInput}
use cloud_photo_delivery.Dashboard.Analytics.{AnalyticsDay, busiest_days}
use cloud_photo_delivery.Dashboard.Analytics.Busiest.{has_traffic, Ranked, busiest_days_lem}

format_time_until_lem_example :
    (let left = 9_000_000 - 1_000_000 in
      format_time_until (some 9_000_000) 1_000_000 ≡ (
        if leb 9_000_000 1_000_000
        then none
        else if leb left (59 * 60_000)
        then some (plural (ceil_div left 60_000) "minute")
        else if leb left (47 * 3_600_000)
        then some (plural (ceil_div left 3_600_000) "hour")
        else some (plural (ceil_div left day_ms) "day")))
format_time_until_lem_example = format_time_until_lem 9_000_000 1_000_000

abbrev starter : Plan
starter = record { id = "starter"; price_cents = 4900; active = true }

abbrev studio : Plan
studio = record { id = "studio"; price_cents = 9900; active = true }

-- Times by their texts, and three devices, one of them revoked.
abbrev times : String → Option ℕ
times text = if str_eq text "monday" then some 1 else if str_eq text "tuesday" then some 2 else none

abbrev device : String → Option String → Option String → DeviceSummaryInput
device name revoked_at last_used_at = record {
  name = name;
  assigned_event_id = none;
  revoked_at = revoked_at;
  last_used_at = last_used_at;
}

abbrev devices : List DeviceSummaryInput
devices =
    device "booth" none (some "tuesday")
    ∷ device "tablet" none (some "monday")
    ∷ device "old" (some "monday") (some "monday")
    ∷ []

abbrev busy_days : List AnalyticsDay
busy_days =
    record { date = "d1"; gallery_views = 3; unique_visitors = 2; downloads = 1; qr_scans = 0 }
    ∷ record { date = "d2"; gallery_views = 5; unique_visitors = 2; downloads = 1; qr_scans = 0 }
    ∷ []

-- Dates by their texts, of which "d2" is the later one.
abbrev later_date : String → String → Bool
later_date a b = str_eq a "d2" && not (str_eq b "d2")

later_date-one_way : (s t : String) → later_date s t ≡ true → later_date t s ≡ false
later_date-one_way s t h = ground arith

busiest_days_lem_example :
    (left_out : List AnalyticsDay) × Perm
      (busiest_days later_date busy_days 1 ++ left_out)
      (filter has_traffic busy_days)
    × Ranked later_date (busiest_days later_date busy_days 1 ++ left_out)
    × (length (busiest_days later_date busy_days 1) ≡ min 1 (length (filter has_traffic busy_days)))
busiest_days_lem_example = busiest_days_lem later_date busy_days 1 later_date-one_way
