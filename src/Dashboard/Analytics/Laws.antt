-- ===== src/Dashboard/Analytics/Laws.antt =====
-- The days of the filled series of analytics/format.ts.
use cloud_photo_delivery.Prelude.{
  ◌≡◌, refl, String, some, List, [], ◌∷◌, map, Keyed, get, put, get-put, or_default, arith, str_eq,
  eq_iff, Bool-cases, Option-cases, inl, inr,
}
use cloud_photo_delivery.Dashboard.Analytics.{AnalyticsDay, by_date, empty_day, fill_daily_series}

-- Each day of the map stands under its own date.
abbrev IsDated : Keyed AnalyticsDay → Type 0
IsDated m = (date : String) (day : AnalyticsDay) → get date m ≡ some day → day.date ≡ date

put-IsDated :
    (day : AnalyticsDay) (m : Keyed AnalyticsDay) → IsDated m → IsDated (put day.date day m)
put-IsDated day m h date found e = elim (Bool-cases (str_eq day.date date)) [
  | inl same ↦
      let p = (eq_iff day.date date).0 same in
      ground (arith, get-put day.date date day m, same, p, e)
  | inr other ↦ h date found (ground (arith, get-put day.date date day m, other, e))
]

by_date-IsDated :
    (daily : List AnalyticsDay) (m : Keyed AnalyticsDay) → IsDated m → IsDated (by_date daily m)
unfolding by_date
by_date-IsDated [] m h = h
by_date-IsDated (day ∷ daily) m h = by_date-IsDated daily (put day.date day m) (put-IsDated day m h)

day_of-date :
    (date : String) (m : Keyed AnalyticsDay)
    → IsDated m
    → (or_default (get date m) (empty_day date)).date ≡ date
day_of-date date m h = elim (Option-cases (get date m)) [
  | inl e ↦ rw e
  | inr (day, e) ↦ rw e (h date day e)
]

map-dates :
    (m : Keyed AnalyticsDay) (dates : List String)
    → IsDated m
    → map (λ day. day.date) (map (λ date. or_default (get date m) (empty_day date)) dates) ≡ dates
map-dates m [] h = refl
map-dates m (date ∷ dates) h = cc (day_of-date date m h, map-dates m dates h)

-- Whatever days the answer has, the filled series has exactly the days of the window, each once for
-- each time that the window has it, in the window's order.
pub fill_daily_series_dates :
    (daily : List AnalyticsDay) (dates : List String)
    → map (λ day. day.date) (fill_daily_series daily dates) ≡ dates
unfolding fill_daily_series get
fill_daily_series_dates daily dates =
    map-dates (by_date daily []) dates (by_date-IsDated daily [] (λ date day e. ground arith))
