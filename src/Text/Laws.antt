-- ===== src/Text/Laws.antt =====
-- Laws of the operations on texts.
use text.Mathlib.TextEquality.{eq_iff}
use text.Mathlib.TextPositions.{eq_refl}
use grok_inspection.Base.{◌≡◌, refl, ◌↔◌, ◌≢◌, String, true, false, arith}
use grok_inspection.Text.{str_eq, is_empty, trim_space, contains, to_lower}

pub str_eq_iff : (s t : String) → (str_eq s t ≡ true) ↔ (s ≡ t)
unfolding str_eq
str_eq_iff s t = eq_iff s t

pub str_eq_refl : (s : String) → str_eq s s ≡ true
unfolding str_eq
str_eq_refl s = eq_refl s

-- Two texts that the comparison tells apart; at two literals the premise is `refl`.
pub ne_of_str_eq : (s t : String) → str_eq s t ≡ false → s ≢ t
ne_of_str_eq s t h e = ground (arith, (str_eq_iff s t).1 e)

pub is_empty_iff : (s : String) → (is_empty s ≡ true) ↔ (s ≡ "")
unfolding is_empty
is_empty_iff String.[] = ((λ h. refl), λ h. refl)
is_empty_iff (String.◌∷◌ c s) = ((λ h. cc), λ h. cc)

trim_space_runs : trim_space "  ab c " ≡ "ab c"
unfolding trim_space
trim_space_runs = refl

to_lower_runs : to_lower "Grok XAI" ≡ "grok xai"
unfolding to_lower
to_lower_runs = refl

contains_runs : contains "hello world" "lo w" ≡ true
unfolding contains
contains_runs = refl
