-- ===== src/Text/Trim.antt =====
-- TrimSpace leaves nothing to trim.
use Prim.Native.Char.{Char, code}
use grok_inspection.Base.{String, false, ◌≡◌, refl, ap, ◌∙◌, Bool-cases, inl, inr}
use grok_inspection.Text.{is_space, cons_trimmed, trim_left, trim_right, trim_space}

-- The text is empty, or begins with no space.
abbrev IsSolid : String → Type 0
IsSolid String.[] = Unit {0}
IsSolid (String.◌∷◌ c s) = is_space (code c) ≡ false

trim_left-IsSolid : (s : String) → IsSolid (trim_left s)
unfolding trim_left
trim_left-IsSolid String.[] = tt
trim_left-IsSolid (String.◌∷◌ c s) = elim (Bool-cases (is_space (code c))) [
  | inl e ↦ rw e (trim_left-IsSolid s)
  | inr e ↦ rw e e
]

trim_left_of_IsSolid : (s : String) → IsSolid s → trim_left s ≡ s
unfolding trim_left
trim_left_of_IsSolid String.[] h = refl
trim_left_of_IsSolid (String.◌∷◌ c s) h = rw h

cons_trimmed-IsSolid :
    (c : Char) (t : String) → is_space (code c) ≡ false → IsSolid (cons_trimmed c t)
unfolding cons_trimmed
cons_trimmed-IsSolid c String.[] h = rw h h
cons_trimmed-IsSolid c (String.◌∷◌ d t) h = h

trim_right-IsSolid : (s : String) → IsSolid s → IsSolid (trim_right s)
unfolding trim_right
trim_right-IsSolid String.[] h = tt
trim_right-IsSolid (String.◌∷◌ c s) h = cons_trimmed-IsSolid c (trim_right s) h

trim_right-cons_trimmed :
    (c : Char) (t : String) → trim_right t ≡ t → trim_right (cons_trimmed c t) ≡ cons_trimmed c t
unfolding trim_right
trim_right-cons_trimmed c String.[] h = elim (Bool-cases (is_space (code c))) [
  | inl e ↦ rw e
  | inr e ↦ rw (e, e)
]
trim_right-cons_trimmed c (String.◌∷◌ d t) h = ap (cons_trimmed c) h

trim_right_idem : (s : String) → trim_right (trim_right s) ≡ trim_right s
unfolding trim_right
trim_right_idem String.[] = refl
trim_right_idem (String.◌∷◌ c s) = trim_right-cons_trimmed c (trim_right s) (trim_right_idem s)

-- What TrimSpace leaves, it leaves as it is.
pub trim_space_idem : (s : String) → trim_space (trim_space s) ≡ trim_space s
unfolding trim_space
trim_space_idem s =
    ap trim_right (trim_left_of_IsSolid _ (trim_right-IsSolid (trim_left s) (trim_left-IsSolid s)))
    ∙ trim_right_idem (trim_left s)
