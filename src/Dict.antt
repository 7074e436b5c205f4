-- ===== src/Dict.antt =====
-- A Go map with string keys, as an association list: the order of the list stands for the order in
-- which a range statement happens to visit the map.
use grok_inspection.Base.{
  String, ◌≡◌, refl, List, [], ◌∷◌, Option, none, some, arith, if◌then◌else◌, if_cases,
}
use grok_inspection.Text.{str_eq}
use grok_inspection.Text.Laws.{str_eq_iff}

module _ {ℓ} {V : Type ℓ} where
  unfoldable pub lookup : String → List (String × V) → Option V
  lookup k [] = none
  lookup k ((j, v) ∷ m) = if str_eq j k then some v else lookup k m

  unfoldable pub insert : String → V → List (String × V) → List (String × V)
  insert k v [] = (k, v) ∷ []
  insert k v ((j, w) ∷ m) = if str_eq j k then (k, v) ∷ m else (j, w) ∷ insert k v m

  unfoldable pub remove : String → List (String × V) → List (String × V)
  remove k [] = []
  remove k ((j, w) ∷ m) = let rest = remove k m in if str_eq j k then rest else (j, w) ∷ rest

  unfoldable pub values : List (String × V) → List V
  values [] = []
  values ((k, v) ∷ m) = v ∷ values m

  pub lookup-insert :
      (k j : String) (v : V) (m : List (String × V))
      → lookup j (insert k v m) ≡ (if str_eq k j then some v else lookup j m)
  unfolding lookup insert
  lookup-insert k j v [] = refl
  lookup-insert k j v ((i, w) ∷ m) =
      ground (arith, str_eq_iff k j, str_eq_iff i k, str_eq_iff i j, lookup-insert k j v m)

  pub lookup-remove :
      (k j : String) (m : List (String × V))
      → lookup j (remove k m) ≡ (if str_eq k j then none else lookup j m)
  unfolding lookup remove
  lookup-remove k j [] = ground arith
  lookup-remove k j ((i, w) ∷ m) =
      ground (arith, str_eq_iff k j, str_eq_iff i k, str_eq_iff i j, lookup-remove k j m)

  -- No key stands twice.
  abbrev pub IsDistinct : List (String × V) → Type ℓ
  IsDistinct [] = Unit
  IsDistinct ((k, v) ∷ m) = (lookup k m ≡ none) × IsDistinct m

  pub insert-IsDistinct :
      (k : String) (v : V) (m : List (String × V)) → IsDistinct m → IsDistinct (insert k v m)
  unfolding insert
  insert-IsDistinct k v [] d = (refl_none, tt)
    where
      refl_none : lookup k [] ≡ none
      refl_none = unfold lookup in refl
  insert-IsDistinct k v ((j, w) ∷ m) d =
      if_cases IsDistinct (str_eq j k) ((k, v) ∷ m) ((j, w) ∷ insert k v m)
        (λ e. (ground (arith, str_eq_iff j k), d.1))
        λ e. (
          ground (arith, lookup-insert k j v m, str_eq_iff j k, str_eq_iff k j),
          insert-IsDistinct k v m d.1,
        )

  pub remove-IsDistinct :
      (k : String) (m : List (String × V)) → IsDistinct m → IsDistinct (remove k m)
  unfolding remove
  remove-IsDistinct k [] d = tt
  remove-IsDistinct k ((j, w) ∷ m) d =
      if_cases IsDistinct (str_eq j k) (remove k m) ((j, w) ∷ remove k m)
        (λ e. remove-IsDistinct k m d.1)
        λ e. (ground (arith, lookup-remove k j m), remove-IsDistinct k m d.1)
