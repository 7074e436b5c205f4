-- ===== src/Text.antt =====
-- What the plugin uses of Go's packages strings, strconv and fmt, over the native texts: TrimSpace,
-- ToLower, Contains, HasPrefix, Split, the comparison and concatenation of texts, Atoi and %d, with
-- the helpers lower, containsAny, firstNonEmpty and truncateErrMessage of classify.go. A text is
-- its characters, and `len` counts the bytes of its UTF-8, as Go's len does. ToLower folds the ASCII
-- letters: a text with other upper-case letters, or with invalid UTF-8, lies outside the model.
pub mod Laws
pub mod Numbers
pub mod Trim
use Prim.Native.Char.{Char, code}
use Prim.Native.String.{char_at, len, count}
use Prim.Native.String.{◌++◌ as append}
use text.Mathlib.Text.{◌==◌ as native_eq}
use grok_inspection.Base.{
  ℕ, zero, suc, ◌-◌, String, Bool, true, false, not, ◌&&◌, ◌||◌, List, [], ◌∷◌, leb, ◌==◌,
  if◌then◌else◌,
}

-- `a == b` on Go strings.
unfoldable pub str_eq : String → String → Bool
str_eq s t = native_eq s t

-- unicode.IsSpace
is_space : ℕ → Bool
is_space c =
    leb 9 c && leb c 13
    || c == 0x20
    || c == 0x85
    || c == 0xa0
    || c == 0x1680
    || leb 0x2000 c && leb c 0x200a
    || c == 0x2028
    || c == 0x2029
    || c == 0x202f
    || c == 0x205f
    || c == 0x3000

trim_left : String → String
trim_left String.[] = String.[]
trim_left (String.◌∷◌ c s) =
    let rest = trim_left s in if is_space (code c) then rest else String.◌∷◌ c s

-- A character in front of a text that ends with no space.
cons_trimmed : Char → String → String
cons_trimmed c String.[] = if is_space (code c) then String.[] else String.◌∷◌ c String.[]
cons_trimmed c (String.◌∷◌ d t) = String.◌∷◌ c (String.◌∷◌ d t)

trim_right : String → String
unfolding cons_trimmed
trim_right String.[] = String.[]
trim_right (String.◌∷◌ c s) = cons_trimmed c (trim_right s)

unfoldable pub trim_space : String → String
unfolding trim_left trim_right is_space
trim_space s = trim_right (trim_left s)

lower_char : Char → Char
lower_char c =
    if leb b'A' (code c) && leb (code c) b'Z'
    then char_at "abcdefghijklmnopqrstuvwxyz" (code c - b'A')
    else c

unfoldable pub to_lower : String → String
unfolding lower_char
to_lower String.[] = String.[]
to_lower (String.◌∷◌ c s) = String.◌∷◌ (lower_char c) (to_lower s)

unfoldable pub has_prefix : String → String → Bool
has_prefix s String.[] = true
has_prefix String.[] (String.◌∷◌ d t) = false
has_prefix (String.◌∷◌ c s) (String.◌∷◌ d t) = code c == code d && has_prefix s t

unfoldable pub contains : String → String → Bool
unfolding has_prefix
contains String.[] t = has_prefix String.[] t
contains (String.◌∷◌ c s) t = has_prefix (String.◌∷◌ c s) t || contains s t

-- The texts one after another: `+` on strings, and a format whose arguments are texts.
unfoldable pub concat : List String → String
concat [] = ""
concat (s ∷ ss) = append s (concat ss)

cons_head : Char → List String → List String
cons_head c [] = String.◌∷◌ c String.[] ∷ []
cons_head c (p ∷ ps) = String.◌∷◌ c p ∷ ps

-- strings.Split at a one-character separator: always at least one part.
unfoldable pub split : ℕ → String → List String
unfolding cons_head
split sep String.[] = "" ∷ []
split sep (String.◌∷◌ c s) =
    let rest = split sep s in if code c == sep then "" ∷ rest else cons_head c rest

unfoldable pub is_empty : String → Bool
is_empty String.[] = true
is_empty (String.◌∷◌ c s) = false

unfoldable pub take_chars : ℕ → String → String
take_chars zero s = ""
take_chars (suc n) String.[] = ""
take_chars (suc n) (String.◌∷◌ c s) = String.◌∷◌ c (take_chars n s)

unfoldable pub lower : String → String
unfolding to_lower trim_space
lower value = to_lower (trim_space value)

any_needle : String → List String → Bool
any_needle value [] = false
any_needle value (needle ∷ rest) =
    not (is_empty needle) && contains value (lower needle) || any_needle value rest

unfoldable pub contains_any : String → List String → Bool
unfolding any_needle contains lower is_empty
contains_any text needles = any_needle (lower text) needles

unfoldable pub first_non_empty : List String → String
unfolding is_empty trim_space
first_non_empty [] = ""
first_non_empty (value ∷ rest) =
    let t = trim_space value in let r = first_non_empty rest in if is_empty t then r else t

-- The cut counts characters, and is tried only where the bytes are too many.
unfoldable pub truncate_err_message : String → ℕ → String
unfolding trim_space concat take_chars
truncate_err_message value max =
    let v = trim_space value in
    if leb max 0 || leb (len v) max
    then v
    else if leb (count v) max
    then v
    else concat (take_chars max v ∷ "…" ∷ [])
