-- ===== src/Accounts/Lookup/Resolved.antt =====
-- The row that a target names is one of the best rank: by auth index, then file, name, e-mail.
use grok_inspection.Base.{
  ℕ, suc, ◌≤◌, ◌<◌, String, Bool, true, false, ◌||◌, ◌≡◌, refl, sym, ap, ◌∙◌, subst, List, [], ◌∷◌,
  Option, none, some, if_cases, All, length, arith, if◌then◌else◌,
}
use grok_inspection.Text.{str_eq, is_empty, trim_space}
use grok_inspection.Accounts.{AccountResult, find, find_by, or_else}
use grok_inspection.Accounts.Lookup.{resolve_account_result_by_target_id, target_tests, is_name}
use mathlib.Core.List.{Memᴰ}
use mathlib.Core.List.Memᴰ.{head, tail}

module _ {A : Type 0} where
  -- The number of tests that fail before the first that holds; that of all tests where none does.
  unfoldable pub rank : List (A → Bool) → A → ℕ
  rank [] x = 0
  rank (p ∷ ps) x = if p x then 0 else suc (rank ps x)

  -- The answer is a row of the list that passes a test, of no higher rank than any other; none, if no
  -- row passes a test.
  abbrev pub IsBest : List (A → Bool) → List A → Option A → Type 0
  IsBest ps xs none = All (λ x. rank ps x ≡ length ps) xs
  IsBest ps xs (some x) = Memᴰ x xs × (rank ps x < length ps) × All (λ y. rank ps x ≤ rank ps y) xs

  abbrev Found : (A → Bool) → List A → Option A → Type 0
  Found p xs none = All (λ x. p x ≡ false) xs
  Found p xs (some x) = Memᴰ x xs × (p x ≡ true)

  step-Found :
      (p : A → Bool) (x : A) (xs : List A) (o : Option A)
      → Found p xs o
      → p x ≡ false
      → Found p (x ∷ xs) o
  step-Found p x xs none f e = (e, f)
  step-Found p x xs (some y) f e = (tail f.0, f.1)

  find-Found : (p : A → Bool) (xs : List A) → Found p xs (find p xs)
  unfolding find
  find-Found p [] = tt
  find-Found p (x ∷ xs) =
      if_cases (Found p (x ∷ xs)) (p x) (some x) (find p xs) (λ e. (head refl, e))
        λ e. step-Found p x xs (find p xs) (find-Found p xs) e

  rank_none :
      (p : A → Bool) (ps : List (A → Bool)) (xs : List A)
      → All (λ x. p x ≡ false) xs
      → All (λ x. rank ps x ≡ length ps) xs
      → All (λ x. rank (p ∷ ps) x ≡ suc (length ps)) xs
  unfolding rank
  rank_none p ps [] f b = tt
  rank_none p ps (x ∷ xs) (e, f) (r, b) = (ground arith, rank_none p ps xs f b)

  rank_le :
      (p : A → Bool) (ps : List (A → Bool)) (n : ℕ) (xs : List A)
      → All (λ x. p x ≡ false) xs
      → All (λ x. n ≤ rank ps x) xs
      → All (λ x. suc n ≤ rank (p ∷ ps) x) xs
  unfolding rank
  rank_le p ps n [] f b = tt
  rank_le p ps n (x ∷ xs) (e, f) (r, b) = (ground arith, rank_le p ps n xs f b)

  zero_le : (q : List (A → Bool)) (xs : List A) → All (λ x. 0 ≤ rank q x) xs
  zero_le q [] = tt
  zero_le q (x ∷ xs) = (omega arith, zero_le q xs)

  none_left : (xs : List A) → All (λ x. rank [] x ≡ 0) xs
  unfolding rank
  none_left [] = tt
  none_left (x ∷ xs) = (refl, none_left xs)

  false_of :
      (p : A → Bool) (x : A) (xs : List A) → All (λ y. p y ≡ false) xs → Memᴰ x xs → p x ≡ false
  false_of p x [] f m = elim m [ ]
  false_of p x (y ∷ xs) (e, f) (head h) = ground arith
  false_of p x (y ∷ xs) (e, f) (tail m) = false_of p x xs f m

  later-IsBest :
      (p : A → Bool) (ps : List (A → Bool)) (xs : List A) (o : Option A)
      → All (λ x. p x ≡ false) xs
      → IsBest ps xs o
      → IsBest (p ∷ ps) xs o
  later-IsBest p ps xs none f b = rank_none p ps xs f b
  later-IsBest p ps xs (some x) f (m, l, b) =
      let e = false_of p x xs f m in
      let r : rank (p ∷ ps) x ≡ suc (rank ps x) = unfold rank in ground arith in
      (
        m,
        omega arith,
        subst (λ n. All (λ y. n ≤ rank (p ∷ ps) y) xs) (sym r) (rank_le p ps (rank ps x) xs f b),
      )

  or_else-IsBest :
      (p : A → Bool) (ps : List (A → Bool)) (xs : List A) (o rest : Option A)
      → Found p xs o
      → IsBest ps xs rest
      → IsBest (p ∷ ps) xs (or_else o rest)
  unfolding or_else
  or_else-IsBest p ps xs none rest f b = later-IsBest p ps xs rest f b
  or_else-IsBest p ps xs (some x) rest (m, e) b =
      let r : rank (p ∷ ps) x ≡ 0 = unfold rank in ground arith in
      (m, omega arith, subst (λ n. All (λ y. n ≤ rank (p ∷ ps) y) xs) (sym r) (zero_le (p ∷ ps) xs))

  pub find_by-IsBest : (ps : List (A → Bool)) (xs : List A) → IsBest ps xs (find_by ps xs)
  unfolding find_by
  find_by-IsBest [] xs = none_left xs
  find_by-IsBest (p ∷ ps) xs =
      or_else-IsBest p ps xs (find p xs) (find_by ps xs) (find-Found p xs) (find_by-IsBest ps xs)

-- The fields that name a row, the strongest first.
abbrev pub priority : String → List (AccountResult → Bool)
priority id =
    (λ item. str_eq (trim_space item.auth_index) id)
    ∷ (λ item. str_eq (trim_space item.file_name) id || str_eq (trim_space item.file_id) id)
    ∷ (λ item. str_eq (trim_space item.name) id)
    ∷ (λ item. str_eq (trim_space item.email) id)
    ∷ []

target_tests-priority : (id : String) → target_tests id ≡ priority id
unfolding target_tests is_name
target_tests-priority id = refl

resolve-find_by :
    (results : List AccountResult) (target : String)
    → is_empty (trim_space target) ≡ false
    → resolve_account_result_by_target_id results target
      ≡ find_by (target_tests (trim_space target)) results
unfolding resolve_account_result_by_target_id
resolve-find_by results target h = ground arith

-- A target that is not blank resolves to a row of the list that it names, by a field of the best
-- rank at which it names any row (auth index, then file name or id, then name, then e-mail), and to
-- none exactly if it names no row.
pub resolve_account_result_by_target_id-IsBest :
    (results : List AccountResult) (target : String)
    → is_empty (trim_space target) ≡ false
    → IsBest
        (priority (trim_space target))
        results
        (resolve_account_result_by_target_id results target)
resolve_account_result_by_target_id-IsBest results target h =
    let tests = priority (trim_space target) in
    let e =
      resolve-find_by results target h
      ∙ ap (λ ps. find_by ps results) (target_tests-priority (trim_space target)) in
    subst (IsBest tests results) (sym e) (find_by-IsBest tests results)
