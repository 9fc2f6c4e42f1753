-- ===== src/Events/Format.antt =====
-- apps/web/src/features/events/format.ts: the size of files and the name of a QR code's file. A size
-- is a whole number below 2 ^ 53, which the divisions by 1024 do not round. `toLowerCase` is a
-- parameter.
pub mod Laws
use Prim.Native.Char.{code}
use Prim.Native.String.{[], ◌∷◌}
use Prim.Native.String
use cloud_photo_delivery.Prelude.{
  ℕ, zero, ◌+◌, ◌*◌, ◌/◌, ◌%◌, String, Bool, true, false, not, ◌&&◌, ◌||◌, Option, none, some, List,
  leb, ltb, ◌==◌, if◌then◌else◌, show, trim, is_empty,
}

-- The loop of `formatBytes`: what the bytes are divided by, and the unit.
abbrev pub units : List String
units = List.◌∷◌ "KB" (List.◌∷◌ "MB" (List.◌∷◌ "GB" (List.◌∷◌ "TB" List.[])))

unfoldable pub scale : ℕ → ℕ → String → List String → ℕ × String
scale bytes divisor unit List.[] = (divisor, unit)
scale bytes divisor unit (List.◌∷◌ larger rest) =
    let next = scale bytes (divisor * 1024) larger rest in
    if leb (divisor * 1024) bytes then next else (divisor, unit)

-- `value.toFixed(digits)` of `bytes / divisor`, for no digit and for one: the nearest such number,
-- the larger one of two.
abbrev pub rounded : ℕ → ℕ → ℕ
rounded bytes divisor = (2 * bytes + divisor) / (2 * divisor)

abbrev pub rounded_tenths : ℕ → ℕ → ℕ
rounded_tenths bytes divisor = (20 * bytes + divisor) / (2 * divisor)

abbrev show_tenths : ℕ → String
show_tenths tenths = String.◌++◌ (show (tenths / 10)) (String.◌++◌ "." (show (tenths % 10)))

abbrev with_unit : String → String → String
with_unit number unit = String.◌++◌ number (String.◌++◌ " " unit)

abbrev pub digits_of : ℕ → ℕ → ℕ
digits_of bytes divisor = if divisor == 1 || leb (10 * divisor) bytes then 0 else 1

abbrev show_scaled : ℕ → ℕ × String → String
show_scaled bytes x =
    if digits_of bytes x.0 == 0
    then with_unit (show (rounded bytes x.0)) x.1
    else with_unit (show_tenths (rounded_tenths bytes x.0)) x.1

abbrev bytes_or_zero : Option ℕ → ℕ
bytes_or_zero none = 0
bytes_or_zero (some bytes) = bytes

unfoldable pub format_bytes : Option ℕ → String
format_bytes bytes =
    if bytes_or_zero bytes == 0
    then "0 B"
    else show_scaled (bytes_or_zero bytes) (scale (bytes_or_zero bytes) 1 "B" units)

-- `[a-z0-9]`, and the dash.
abbrev pub is_slug_char : ℕ → Bool
is_slug_char c = (leb 97 c && leb c 122) || (leb 48 c && leb c 57)

abbrev pub is_dash : ℕ → Bool
is_dash c = c == 45

-- `.replace(/[^a-z0-9]+/g, "-")`, after a character that was replaced or not.
unfoldable pub replace_others : Bool → String → String
replace_others in_run [] = []
replace_others in_run (c ∷ s) =
    let after_run = replace_others true s in
    let after_char = replace_others false s in
    if is_slug_char (code c) then c ∷ after_char else if in_run then after_run else "-" ∷ after_run

-- `.replace(/^-+|-+$/g, "")`
unfoldable pub strip_start : String → String
strip_start [] = []
strip_start (c ∷ s) = let rest = strip_start s in if is_dash (code c) then rest else c ∷ s

unfoldable pub strip_end : String → String
strip_end [] = []
strip_end (c ∷ s) =
    let rest = strip_end s in if is_dash (code c) && is_empty rest then [] else c ∷ rest

abbrev or_event : String → String
or_event base = if is_empty base then "event" else base

unfoldable pub slug_of : (String → String) → String → String
slug_of to_lower_case event_name =
    or_event (strip_end (strip_start (replace_others false (to_lower_case (trim event_name)))))

unfoldable pub qr_download_filename : (String → String) → String → String → String
qr_download_filename to_lower_case event_name extension =
    String.◌++◌ (slug_of to_lower_case event_name) (String.◌++◌ "-qr." extension)
