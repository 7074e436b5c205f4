-- ===== src/Time.antt =====
-- What the plugin uses of Go's package time. An instant is the nanoseconds since the beginning of
-- year 1 in UTC, so that 0 is the zero Time; a Duration is an int64 of nanoseconds that wraps around.
-- The readers of time.RFC3339 and of HTTP dates are Go's, a parameter of what uses them.
pub mod Years
use grok_inspection.Base.{
  ℕ, zero, suc, ◌+◌, ◌-◌, ◌*◌, ◌/◌, ◌%◌, ◌^◌, min, ℤ, pos, negsuc, String, Bool, true, false, not,
  ◌&&◌, ◌||◌, Option, none, some, leb, ltb, ◌==◌, if◌then◌else◌, wrap_int64,
}

pub record Formats : Type 0 where
  pub rfc3339 : String → Option ℕ
  pub http_date : String → Option ℕ

abbrev pub second : ℕ
second = 1_000_000_000

abbrev pub day : ℕ
day = 86_400_000_000_000

-- 1970-01-01, where the Unix clocks begin.
abbrev pub unix_epoch : ℕ
unix_epoch = 62_135_596_800_000_000_000

-- t.After(u)
abbrev pub after : ℕ → ℕ → Bool
after t u = ltb u t

-- d * c for a Duration's unit c, in int64.
abbrev pub mul_int64 : ℤ → ℕ → ℤ
mul_int64 (pos n) c = wrap_int64 (n * c)
mul_int64 (negsuc n) c = wrap_int64 (2 ^ 64 - suc n * c % 2 ^ 64)

-- t.Add(d); no caller comes near year 1.
abbrev pub add_duration : ℕ → ℤ → ℕ
add_duration t (pos d) = t + d
add_duration t (negsuc d) = t - suc d

-- t.Sub(u) for t after u: it saturates at the greatest Duration.
abbrev pub sub_time : ℕ → ℕ → ℤ
sub_time t u = pos (min (t - u) (2 ^ 63 - 1))

-- The complete years before a day, and the day's number in its year.
pub record Date : Type 0 where
  pub years : ℕ
  pub yday : ℕ

unfoldable pub date_of : ℕ → Date
date_of d =
    let n400 = d / 146097 in
    let d400 = d % 146097 in
    let n100 = min 3 (d400 / 36524) in
    let d100 = d400 - 36524 * n100 in
    let n4 = d100 / 1461 in
    let d4 = d100 % 1461 in
    let n1 = min 3 (d4 / 365) in
    record { years = 400 * n400 + 100 * n100 + 4 * n4 + n1; yday = d4 - 365 * n1 }

unfoldable pub days_before : ℕ → ℕ
days_before y = 365 * y + y / 4 - y / 100 + y / 400

-- Whether the year after `y` complete years is a leap year.
unfoldable pub is_leap : ℕ → Bool
is_leap y = (y + 1) % 4 == 0 && (not ((y + 1) % 100 == 0) || (y + 1) % 400 == 0)

-- The same month and day in another year; 29 February becomes 1 March.
unfoldable pub move_yday : Bool → Bool → ℕ → ℕ
move_yday from to d =
    let march : ℕ = if from then 60 else 59 in
    let march' : ℕ = if to then 60 else 59 in
    if ltb d 59 then d else if ltb d march then 59 else march' + (d - march)

-- t.AddDate(k, 0, 0)
unfoldable pub add_years : ℕ → ℕ → ℕ
add_years k t =
    let date = date_of (t / day) in
    let y = date.years + k in
    (days_before y + move_yday (is_leap date.years) (is_leap y) date.yday) * day + t % day
