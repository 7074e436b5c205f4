-- ===== src/Ban/Headers/Window.antt =====
-- The instants that the headers give.
use grok_inspection.Base.{ℕ, ◌≤◌, ◌<◌, ◌≡◌, ℤ, pos, String, false, List, [], ◌∷◌, none, some, arith}
use grok_inspection.Text.{is_empty}
use grok_inspection.Text.Numbers.{parse_int}
use grok_inspection.Time.{Formats, add_years}
use grok_inspection.Ban.Headers.{
  Headers, first_header, reset_headers, unix_reset_time, absolute_from, absolute_reset_time,
  retry_after_duration, resolve_reset_at,
}

abbrev pub InWindow : ℕ → ℕ → Type 0
InWindow now t = (now < t) × (t ≤ add_years 5 now)

unix_reset_time-InWindow :
    (unix : ℤ) (now : ℕ) {t : ℕ} → unix_reset_time unix now ≡ some t → InWindow now t
unfolding unix_reset_time
unix_reset_time-InWindow unix now h = ground arith

module _ (formats : Formats) where
  absolute_from-InWindow :
      (names : List String) (headers : Headers) (now : ℕ) {t : ℕ}
      → absolute_from formats names headers now ≡ some t
      → InWindow now t
  unfolding absolute_from
  absolute_from-InWindow [] headers now h = cc
  absolute_from-InWindow (name ∷ names) headers now {t} h =
      grind (arith, absolute_from-InWindow names headers now, unix_reset_time-InWindow)

  -- The instant that the absolute reset headers give, Retry-After not among them, lies ahead, by five
  -- years at most.
  pub absolute_reset_time-InWindow :
      (headers : Headers) (now : ℕ) {t : ℕ}
      → absolute_reset_time formats headers now ≡ some t
      → InWindow now t
  unfolding absolute_reset_time
  absolute_reset_time-InWindow headers now {t} h =
      ground (arith, absolute_from-InWindow reset_headers headers now {t = t})

  -- After year 1 begins, where no header gives an instant, and Retry-After reads as a number of
  -- seconds that is above 9223372036 and at most 18446744073, the reset lies in the past: the
  -- product in nanoseconds wraps around to a negative Duration.
  pub retry_after_wraps :
      (headers : Headers) (now seconds : ℕ) (fallback : ℤ)
      → is_empty (first_header headers "Retry-After") ≡ false
      → parse_int (first_header headers "Retry-After") ≡ some (pos seconds)
      → absolute_reset_time formats headers now ≡ none
      → 9_223_372_036 < seconds
      → seconds ≤ 18_446_744_073
      → 0 < now
      → (resolve_reset_at formats headers now fallback).0 < now
  unfolding resolve_reset_at retry_after_duration
  retry_after_wraps headers now seconds fallback e p none_absolute low high h = ground arith
