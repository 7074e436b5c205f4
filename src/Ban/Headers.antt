-- ===== src/Ban/Headers.antt =====
-- ban_detector.go: when a rate-limited account may be used again, read from the answer's headers
-- (resolveResetAt, absoluteResetTime, retryAfterDuration, unixResetTime, firstHeader).
pub mod Window
use Prim.Native.Char.{Char, code}
use Prim.Native.String.{char_at}
use grok_inspection.Base.{
  ℕ, zero, suc, ◌+◌, ◌-◌, ◌*◌, ℤ, pos, negsuc, String, Bool, true, false, not, ◌&&◌, ◌||◌, List, [],
  ◌∷◌, Option, none, some, leb, ltb, ltb_ℤ, ◌==◌, if◌then◌else◌,
}
use grok_inspection.Text.{str_eq, is_empty, trim_space, to_lower}
use grok_inspection.Text.Numbers.{parse_int}
use grok_inspection.Time.{
  Formats, second, unix_epoch, after, mul_int64, add_duration, sub_time, add_years,
}

-- http.Header: each key with its values.
abbrev pub Headers : Type 0
Headers = List (String × List String)

upper_char : Char → Char
upper_char c =
    if leb b'a' (code c) && leb (code c) b'z'
    then char_at "ABCDEFGHIJKLMNOPQRSTUVWXYZ" (code c - b'a')
    else c

-- A letter that begins a word goes to upper case.
capitalize : Bool → String → String
unfolding upper_char
capitalize start String.[] = String.[]
capitalize start (String.◌∷◌ c s) =
    String.◌∷◌ (if start then upper_char c else c) (capitalize (code c == b'-') s)

-- The canonical form of a header's name: "X-Ratelimit-Reset-At".
unfoldable pub canonical_key : String → String
unfolding capitalize to_lower
canonical_key name = capitalize true (to_lower name)

first_value : List String → String
first_value [] = ""
first_value (v ∷ vs) = v

header_value : Headers → String → String
unfolding first_value str_eq
header_value [] key = ""
header_value ((k, vs) ∷ rest) key = if str_eq k key then first_value vs else header_value rest key

unfoldable pub first_header : Headers → String → String
unfolding header_value canonical_key trim_space
first_header headers name = trim_space (header_value headers (canonical_key name))

abbrev reset_headers : List String
reset_headers = "X-RateLimit-Reset-At" ∷ "X-Reset-At" ∷ "X-Grok-Reset-At" ∷ []

-- Unix seconds, or milliseconds from thirteen digits on.
unix_instant : ℕ → ℕ
unix_instant unix =
    if leb 1_000_000_000_000 unix then unix_epoch + unix * 1_000_000 else unix_epoch + unix * second

-- A Unix time is taken if it lies ahead, by five years at most.
unfoldable pub unix_reset_time : ℤ → ℕ → Option ℕ
unfolding unix_instant
unix_reset_time unix now =
    let n = unix_part unix in
    let t = unix_instant n in
    if not (ltb 0 n)
    then none
    else if not (after t now)
    then none
    else if after t (add_years 5 now)
    then none
    else some t
  where
    unix_part : ℤ → ℕ
    unix_part (pos n) = n
    unix_part (negsuc n) = 0

module _ (formats : Formats) where
  -- The loop over the header names; a value that no reader takes passes on to the next name.
  absolute_from : List String → Headers → ℕ → Option ℕ
  unfolding first_header
  absolute_from [] headers now = none
  absolute_from (name ∷ names) headers now =
      let value = first_header headers name in
      let later = absolute_from names headers now in
      let read : Option ℕ = elim (formats.rfc3339 value) [
        | some parsed ↦
            if not (after parsed now) || after parsed (add_years 5 now) then later else some parsed
        | none ↦ elim (parse_int value) [
          | none ↦ later
          | some unix ↦ elim (unix_reset_time unix now) [ none ↦ later | some t ↦ some t ]
        ]
      ] in
      if is_empty value then later else read

  unfoldable pub absolute_reset_time : Headers → ℕ → Option ℕ
  unfolding absolute_from
  absolute_reset_time headers now =
      let read = absolute_from reset_headers headers now in if now == 0 then none else read

  -- Retry-After as an HTTP date.
  retry_date : String → ℕ → Option ℤ
  retry_date value now = elim (formats.http_date value) [
    | none ↦ none
    | some at ↦ if after at now then some (sub_time at now) else none
  ]

  unfoldable pub retry_after_duration : Headers → ℕ → Option ℤ
  unfolding retry_date
  retry_after_duration headers now =
      let value = first_header headers "Retry-After" in
      let read : Option ℤ = elim (parse_int value) [
        | none ↦ retry_date value now
        | some seconds ↦
            if ltb_ℤ (pos 0) seconds then some (mul_int64 seconds second) else retry_date value now
      ] in
      if is_empty value then none else read

  by_date : Headers → ℕ → ℤ → ℕ × String
  by_date headers now fallback =
      let value = first_header headers "Date" in
      let local : ℕ × String = (add_duration now fallback, "local_plus_fallback") in
      let read : ℕ × String = elim (formats.http_date value) [
        | none ↦ local
        | some at ↦ (add_duration at fallback, "date_plus_fallback")
      ] in
      if is_empty value then local else read

  by_retry : Headers → ℕ → ℤ → ℕ × String
  unfolding by_date
  by_retry headers now fallback = elim (retry_after_duration headers now) [
    | some d ↦ (add_duration now d, "header_relative")
    | none ↦ by_date headers now fallback
  ]

  unfoldable pub resolve_reset_at : Headers → ℕ → ℤ → ℕ × String
  unfolding by_retry
  resolve_reset_at headers now fallback = elim (absolute_reset_time headers now) [
    | some at ↦ if after at now then (at, "header_absolute") else by_retry headers now fallback
    | none ↦ by_retry headers now fallback
  ]
