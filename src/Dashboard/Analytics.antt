-- ===== src/Dashboard/Analytics.antt =====
-- apps/web/src/features/analytics/format.ts: the daily figures of a window. The days of the window,
-- of `utcDaySeries`, are an argument, as texts; so is what `localeCompare` says of two dates, whether
-- the first is later.
pub mod Laws
pub mod Busiest
use cloud_photo_delivery.Prelude.{
  ℕ, ◌+◌, String, Bool, true, false, ◌||◌, Option, none, some, List, [], ◌∷◌, map, ltb,
  if◌then◌else◌, Keyed, get, put, filter, take, or_default,
}

pub record AnalyticsDay : Type 0 where
  pub date : String
  pub gallery_views : ℕ
  pub unique_visitors : ℕ
  pub downloads : ℕ
  pub qr_scans : ℕ

pub data AnalyticsMetric : Type 0 where
  gallery_views unique_visitors downloads qr_scans : AnalyticsMetric

-- `day[metric]`
unfoldable pub figure : AnalyticsMetric → AnalyticsDay → ℕ
figure gallery_views day = day.gallery_views
figure unique_visitors day = day.unique_visitors
figure downloads day = day.downloads
figure qr_scans day = day.qr_scans

-- `new Map(daily.map((day) => [day.date, day]))`
unfoldable pub by_date : List AnalyticsDay → Keyed AnalyticsDay → Keyed AnalyticsDay
by_date [] m = m
by_date (day ∷ daily) m = by_date daily (put day.date day m)

abbrev pub empty_day : String → AnalyticsDay
empty_day date = record {
  date = date;
  gallery_views = 0;
  unique_visitors = 0;
  downloads = 0;
  qr_scans = 0;
}

unfoldable pub fill_daily_series : List AnalyticsDay → List String → List AnalyticsDay
fill_daily_series daily dates =
    map (λ date. or_default (get date (by_date daily [])) (empty_day date)) dates

unfoldable pub series_total : List AnalyticsDay → AnalyticsMetric → ℕ
series_total [] metric = 0
series_total (day ∷ daily) metric = figure metric day + series_total daily metric

abbrev pub is_busy : AnalyticsDay → Bool
is_busy day = ltb 0 day.gallery_views || ltb 0 day.downloads

-- Whether the comparison puts `a` strictly before `b`: more views, or as many and more downloads, or
-- as many of both and a later date.
abbrev pub goes_before : (String → String → Bool) → AnalyticsDay → AnalyticsDay → Bool
goes_before later a b =
    if ltb b.gallery_views a.gallery_views
    then true
    else if ltb a.gallery_views b.gallery_views
    then false
    else if ltb b.downloads a.downloads
    then true
    else if ltb a.downloads b.downloads
    then false
    else later a.date b.date

-- `sort`, which keeps the order of days that compare as equal.
unfoldable pub place :
    (String → String → Bool) → AnalyticsDay → List AnalyticsDay → List AnalyticsDay
place later day [] = day ∷ []
place later day (d ∷ days) =
    let rest = place later day days in if goes_before later d day then d ∷ rest else day ∷ d ∷ days

unfoldable pub sort_days : (String → String → Bool) → List AnalyticsDay → List AnalyticsDay
sort_days later [] = []
sort_days later (day ∷ days) = place later day (sort_days later days)

unfoldable pub busiest_days : (String → String → Bool) → List AnalyticsDay → ℕ → List AnalyticsDay
busiest_days later daily count = take count (sort_days later (filter is_busy daily))
