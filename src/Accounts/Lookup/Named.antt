-- ===== src/Accounts/Lookup/Named.antt =====
-- The rows that a list of names stands for.
use grok_inspection.Base.{
  String, true, ◌||◌, ◌≡◌, refl, subst, inl, inr, List, [], ◌∷◌, Option, none, some, if_cases,
  Bool-cases, All, arith, if◌then◌else◌,
}
use grok_inspection.Text.{is_empty, trim_space}
use grok_inspection.Accounts.{AccountResult, has}
use grok_inspection.Accounts.Lookup.{
  resolve_account_result_by_target_id, collect, collect_accounts_by_target_ids, identity,
}
use grok_inspection.Accounts.Lookup.Resolved.{
  IsBest, priority, resolve_account_result_by_target_id-IsBest,
}
use mathlib.Core.List.{Memᴰ}
use mathlib.Core.List.Memᴰ.{head, tail}

resolved_blank :
    (results : List AccountResult) (id : String)
    → is_empty (trim_space id) ≡ true
    → resolve_account_result_by_target_id results id ≡ none
unfolding resolve_account_result_by_target_id
resolved_blank results id h = ground arith

module _ (results : List AccountResult) where
  -- The row that a name stands for is one of the rows.
  resolved-Memᴰ :
      (id : String) (row : AccountResult)
      → resolve_account_result_by_target_id results id ≡ some row
      → Memᴰ row results
  resolved-Memᴰ id row h = elim (Bool-cases (is_empty (trim_space id))) [
    | inl b ↦ let l = resolved_blank results id b in absurd (cc)
    | inr b ↦
        (subst (IsBest (priority (trim_space id)) results) h
          (resolve_account_result_by_target_id-IsBest results id b)).0
  ]

  -- The row is the one that one of the names stands for.
  abbrev pub Named : List String → AccountResult → Type 0
  Named ids row =
      Memᴰ row results
      × ((id : String) × Memᴰ id ids × (resolve_account_result_by_target_id results id ≡ some row))

  widen :
      (id : String) (ids : List String) (rows : List AccountResult)
      → All (Named ids) rows
      → All (Named (id ∷ ids)) rows
  widen id ids [] a = tt
  widen id ids (r ∷ rs) ((m, (x, i, e)), a) = ((m, (x, tail i, e)), widen id ids rs a)

  step-Named :
      (seen : List String) (id : String) (ids : List String) (o : Option AccountResult)
      → resolve_account_result_by_target_id results id ≡ o
      → ((seen' : List String) → All (Named ids) (collect results seen' ids))
      → All (Named (id ∷ ids)) (elim o [
        | none ↦ collect results seen ids
        | some item ↦
            let key = identity item in
            if is_empty key || has key seen
            then collect results seen ids
            else item ∷ collect results (key ∷ seen) ids
      ])
  step-Named seen id ids none e rest = widen id ids (collect results seen ids) (rest seen)
  step-Named seen id ids (some row) e rest =
      let key = identity row in
      let kept = collect results seen ids in
      let more = collect results (key ∷ seen) ids in
      if_cases (All (Named (id ∷ ids))) (is_empty key || has key seen) kept (row ∷ more)
        (λ _. widen id ids kept (rest seen))
        λ _. ((resolved-Memᴰ id row e, (id, head refl, e)), widen id ids more (rest (key ∷ seen)))

  collect-Named : (seen ids : List String) → All (Named ids) (collect results seen ids)
  unfolding collect
  collect-Named seen [] = tt
  collect-Named seen (id ∷ ids) =
      step-Named seen id ids (resolve_account_result_by_target_id results id) refl
        λ seen'. collect-Named seen' ids

  -- Every row that is collected is one of the rows, and one of the names stands for it.
  pub collect_accounts_by_target_ids-Named :
      (ids : List String) → All (Named ids) (collect_accounts_by_target_ids results ids)
  unfolding collect_accounts_by_target_ids
  collect_accounts_by_target_ids-Named ids = collect-Named [] ids
