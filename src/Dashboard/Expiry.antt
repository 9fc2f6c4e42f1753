-- ===== src/Dashboard/Expiry.antt =====
-- apps/web/src/features/events/format.ts: how long an event still lives. A date is the milliseconds
-- that `Date` makes of it, and none where the text is missing or no date.
pub mod Laws
use cloud_photo_delivery.Prelude.{
  ℕ, ◌+◌, ◌-◌, ◌*◌, min, max, String, Bool, ◌||◌, Option, none, some, leb, ltb, ◌==◌, if◌then◌else◌,
  ceil_div, round_percent, show,
}
use Prim.Native.String

abbrev pub expiry_warn_days : ℕ
expiry_warn_days = 7

abbrev pub day_ms : ℕ
day_ms = 86_400_000

pub data ExpiryTone : Type 0 where
  neutral warning expired : ExpiryTone

pub record Expiry : Type 0 where
  pub tone : ExpiryTone
  pub label : String

-- `n === 1 ? "1 day" : `${n} days``, and likewise for other units.
abbrev pub plural : ℕ → String → String
plural n unit =
    if n == 1
    then String.◌++◌ "1 " unit
    else String.◌++◌ (show n) (String.◌++◌ " " (String.◌++◌ unit "s"))

unfoldable pub expiry_from_now : Option ℕ → ℕ → Expiry
expiry_from_now none now = record { tone = neutral; label = "Never expires" }
expiry_from_now (some date) now =
    if leb date now
    then record {
      tone = expired;
      label =
          String.◌++◌ "Expired "
            (String.◌++◌ (plural (max 1 (ceil_div (now - date) day_ms)) "day") " ago");
    }
    else if ltb (date - now) day_ms
    then record { tone = warning; label = "Expires today" }
    else record {
      tone = if leb (ceil_div (date - now) day_ms) expiry_warn_days then warning else neutral;
      label = String.◌++◌ "Expires in " (plural (ceil_div (date - now) day_ms) "day");
    }

unfoldable pub format_time_until : Option ℕ → ℕ → Option String
format_time_until none now = none
format_time_until (some date) now =
    let minutes = ceil_div (date - now) 60_000 in
    let hours = ceil_div minutes 60 in
    let days = ceil_div hours 24 in
    if leb date now
    then none
    else if ltb minutes 60
    then some (plural minutes "minute")
    else if ltb hours 48
    then some (plural hours "hour")
    else some (plural days "day")

-- Before the start `Math.max(0, …)` gives 0.
abbrev progress : ℕ → ℕ → ℕ → Option ℕ
progress start end now =
    if leb end start
    then none
    else some (if leb now start then 0 else min 100 (round_percent (now - start) (end - start)))

unfoldable pub expiry_progress_percent : Option ℕ → Option ℕ → ℕ → Option ℕ
expiry_progress_percent none expires_at now = none
expiry_progress_percent (some start) none now = none
expiry_progress_percent (some start) (some end) now = progress start end now
