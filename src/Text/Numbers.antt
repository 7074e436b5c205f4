-- ===== src/Text/Numbers.antt =====
-- strconv.Atoi, strconv.ParseInt and the verb %d, for 64-bit integers.
use Prim.Native.Char.{code}
use grok_inspection.Base.{
  ℕ, zero, suc, ◌+◌, ◌-◌, ◌*◌, ◌/◌, ◌%◌, ◌^◌, ℤ, pos, negsuc, String, Bool, true, ◌&&◌, ◌∷◌, [],
  Option, none, some, leb, ltb, ◌==◌, if◌then◌else◌,
}
use grok_inspection.Text.{concat, is_empty}

unfoldable pub is_digit : ℕ → Bool
is_digit c = leb b'0' c && leb c b'9'

unfoldable pub all_digits : String → Bool
unfolding is_digit
all_digits String.[] = true
all_digits (String.◌∷◌ c s) = is_digit (code c) && all_digits s

unfoldable pub digits_value : ℕ → String → ℕ
digits_value acc String.[] = acc
digits_value acc (String.◌∷◌ c s) = digits_value (acc * 10 + (code c - b'0')) s

-- An unsigned decimal: one digit or more.
unfoldable pub parse_digits : String → Option ℕ
unfolding all_digits digits_value is_empty
parse_digits s = if is_empty s then none else if all_digits s then some (digits_value 0 s) else none

negate : Option ℕ → Option ℤ
negate none = none
negate (some zero) = some (pos 0)
negate (some (suc n)) = if leb (suc n) (2 ^ 63) then some (negsuc n) else none

positive : Option ℕ → Option ℤ
positive none = none
positive (some n) = if ltb n (2 ^ 63) then some (pos n) else none

-- ParseInt(s, 10, 64): an optional sign, digits, and the range of int64.
unfoldable pub parse_int : String → Option ℤ
unfolding parse_digits negate positive
parse_int String.[] = none
parse_int (String.◌∷◌ c s) =
    if code c == b'-'
    then negate (parse_digits s)
    else if code c == b'+'
    then positive (parse_digits s)
    else positive (parse_digits (String.◌∷◌ c s))

abbrev digit_text : ℕ → String
digit_text zero = "0"
digit_text (suc zero) = "1"
digit_text (suc (suc zero)) = "2"
digit_text (suc (suc (suc zero))) = "3"
digit_text (suc (suc (suc (suc zero)))) = "4"
digit_text (suc (suc (suc (suc (suc zero))))) = "5"
digit_text (suc (suc (suc (suc (suc (suc zero)))))) = "6"
digit_text (suc (suc (suc (suc (suc (suc (suc zero))))))) = "7"
digit_text (suc (suc (suc (suc (suc (suc (suc (suc zero)))))))) = "8"
digit_text (suc (suc (suc (suc (suc (suc (suc (suc (suc n))))))))) = "9"

-- The digits of a number below 10 ^ fuel.
show_fuel : ℕ → ℕ → String
unfolding concat
show_fuel zero n = ""
show_fuel (suc f) n =
    let high = show_fuel f (n / 10) in
    if ltb n 10 then digit_text n else concat (high ∷ digit_text (n % 10) ∷ [])

-- `%d` of an int: twenty digits are enough for 64 bits.
unfoldable pub show_int : ℤ → String
unfolding show_fuel concat
show_int (pos n) = show_fuel 20 n
show_int (negsuc n) = concat ("-" ∷ show_fuel 20 (suc n) ∷ [])
