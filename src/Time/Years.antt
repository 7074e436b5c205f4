-- ===== src/Time/Years.antt =====
-- AddDate moves an instant by whole years.
use grok_inspection.Base.{ℕ, ◌+◌, ◌*◌, ◌/◌, ◌≤◌, ◌≡◌, refl, Bool, arith}
use grok_inspection.Time.{day, date_of, days_before, is_leap, move_yday, add_years}

-- A date counts the days before it.
pub days_before-date_of : (d : ℕ) → days_before (date_of d).years + (date_of d).yday ≡ d
unfolding days_before date_of
days_before-date_of d = omega arith

-- A move of a day within a year loses one day at most.
pub move_yday-le : (from to : Bool) (d : ℕ) → d ≤ move_yday from to d + 1
unfolding move_yday
move_yday-le from to d = ground arith

pub days_before-add : (y k : ℕ) → days_before y + 365 * k ≤ days_before (y + k)
unfolding days_before
days_before-add y k = omega arith

-- A move by k years is one by 365 k days, less one day, at least.
pub add_years-le : (k t : ℕ) → t + 365 * k * day ≤ add_years k t + day
unfolding add_years
add_years-le k t =
    let date = date_of (t / day) in
    let y = date.years + k in
    omega (
      arith,
      days_before-date_of (t / day),
      days_before-add date.years k,
      move_yday-le (is_leap date.years) (is_leap y) date.yday,
    )

leap_day : add_years 100 ((days_before 2023 + 59) * day) ≡ (days_before 2123 + 59) * day
unfolding add_years date_of days_before is_leap move_yday
leap_day = refl
