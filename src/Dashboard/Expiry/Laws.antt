-- ===== src/Dashboard/Expiry/Laws.antt =====
-- The tone of an expiry, and the unit of a remaining time.
use cloud_photo_delivery.Prelude.{
  ℕ, ◌+◌, ◌-◌, ◌*◌, ◌≡◌, none, some, leb, if◌then◌else◌, ceil_div, arith,
}
use cloud_photo_delivery.Dashboard.Expiry.{
  neutral, warning, expired, expiry_warn_days, day_ms, expiry_from_now, plural, format_time_until,
}

-- The tone of an expiry is by the exact times: expired from the date on, a warning while no more than
-- seven times 24 hours are left, and neutral before.
pub expiry_from_now_tone :
    (date now : ℕ)
    → (expiry_from_now (some date) now).tone ≡ (
        if leb date now
        then expired
        else if leb date (now + expiry_warn_days * day_ms)
        then warning
        else neutral)
unfolding expiry_from_now
expiry_from_now_tone date now = ground arith

ceil_hours : (left : ℕ) → ceil_div (ceil_div left 60_000) 60 ≡ ceil_div left 3_600_000
ceil_hours left = omega arith

ceil_days : (left : ℕ) → ceil_div (ceil_div left 3_600_000) 24 ≡ ceil_div left day_ms
ceil_days left = omega arith

-- The time that is left is rounded up once, though the code rounds it up at each unit: it is shown
-- in minutes while no more than 59 minutes are left, in hours while more than that and no more than
-- 47 hours are left, and in days from there on, where each number is the whole time in that unit
-- rounded up; and nothing is shown from the date on.
pub format_time_until_lem :
    (date now : ℕ)
    → let left = date - now in
      format_time_until (some date) now ≡ (
        if leb date now
        then none
        else if leb left (59 * 60_000)
        then some (plural (ceil_div left 60_000) "minute")
        else if leb left (47 * 3_600_000)
        then some (plural (ceil_div left 3_600_000) "hour")
        else some (plural (ceil_div left day_ms) "day"))
unfolding format_time_until
format_time_until_lem date now =
    let left = date - now in rw (ceil_hours left, ceil_days left) (ground arith)
