-- ===== src/Schedule/Targets/Exact.antt =====
-- A scheduled action reaches exactly the rows that its tests select.
use grok_inspection.Base.{
  ℕ, pos, ◌==ℤ◌, ◌≤◌, String, Bool, true, false, not, ◌&&◌, ◌||◌, ◌≡◌, refl, sym, ap, ◌∙◌, subst,
  ◌⊎◌, inl, inr, List, [], ◌∷◌, Option, none, some, All, length, arith, if◌then◌else◌,
}
use grok_inspection.Text.{str_eq, lower, is_empty, trim_space, first_non_empty}
use grok_inspection.Text.Laws.{str_eq_iff}
use grok_inspection.Text.Trim.{trim_space_idem}
use grok_inspection.Accounts.{AccountResult}
use grok_inspection.Accounts.Lookup.{resolve_account_result_by_target_id}
use grok_inspection.Accounts.Lookup.Resolved.{
  IsBest, priority, rank, resolve_account_result_by_target_id-IsBest,
}
use grok_inspection.Schedule.Targets.{in_scope, target_of, is_target, scheduled_targets_match}
use mathlib.Core.List.{Memᴰ}
use mathlib.Core.List.Memᴰ.{head, tail}

abbrev pub IsWanted : ℕ → String → String → String → Option (List String) → AccountResult → Type 0
IsWanted status class code action scope r =
    (r.http_status ≡ pos status)
    × (r.classification ≡ class)
    × (lower r.error_code ≡ lower code)
    × (in_scope scope r ≡ true)
    × (action ≡ "disable" → r.disabled ≡ false)

status_eq : (z : _) (n : ℕ) → (z ==ℤ n) ≡ true → z ≡ pos n
status_eq (pos m) n h = ap pos (ground arith)
status_eq _ n h = ground arith

tests_of :
    (a b c d e f : Bool)
    → (if not a
        then false
        else if not b || not c
        then false
        else if not d
        then false
        else not (e && f))
      ≡ true
    → (a ≡ true) × (b ≡ true) × (c ≡ true) × (d ≡ true) × (e ≡ true → f ≡ false)
tests_of a b c d e f h = (ground arith, ground arith, ground arith, ground arith, λ g. ground arith)

is_target-IsWanted :
    (status : ℕ) (class code action : String) (scope : Option (List String)) (r : AccountResult)
    → is_target status class code action scope r ≡ true
    → IsWanted status class code action scope r
unfolding is_target
is_target-IsWanted status class code action scope r h =
    let t =
      tests_of (in_scope scope r) (r.http_status ==ℤ status) (str_eq r.classification class)
        (str_eq (lower r.error_code) (lower code)) (str_eq action "disable") r.disabled h in
    (
      status_eq r.http_status status t.1,
      (str_eq_iff r.classification class).0 t.2,
      (str_eq_iff (lower r.error_code) (lower code)).0 t.3,
      t.0,
      λ e. t.4 ((str_eq_iff action "disable").1 e),
    )

-- A row of the list that the tests select and that the text stands for.
abbrev Source :
    ℕ → String → String → String → Option (List String) → List AccountResult → String → Type 0
Source status class code action scope results t =
    (r : AccountResult) × Memᴰ r results
    × (is_target status class code action scope r ≡ true)
    × (t ≡ target_of r)

later-Source :
    (status : ℕ) (class code action : String) (scope : Option (List String)) (x : AccountResult)
    (results : List AccountResult) (t : String)
    → Source status class code action scope results t
    → Source status class code action scope (x ∷ results) t
later-Source status class code action scope x results t (r, m, h, e) = (r, tail m, h, e)

take_step :
    (b e : Bool) (x t : String) (rest : List String)
    → Memᴰ t (if not b then rest else if e then rest else x ∷ rest)
    → ((b ≡ true) × (t ≡ x)) ⊎ Memᴰ t rest
take_step false e x t rest m = inr m
take_step true true x t rest m = inr m
take_step true false x t rest (head h) = inl (refl, h)
take_step true false x t rest (tail m) = inr m

targets-Source :
    (status : ℕ) (class code action : String) (scope : Option (List String))
    (results : List AccountResult) (t : String)
    → Memᴰ t (scheduled_targets_match results status class code action scope)
    → Source status class code action scope results t
unfolding scheduled_targets_match
targets-Source status class code action scope [] t m = elim m [ ]
targets-Source status class code action scope (x ∷ results) t m =
    elim (take_step (is_target status class code action scope x) (is_empty (target_of x))
      (target_of x) t (scheduled_targets_match results status class code action scope) m) [
        | inl p ↦ (x, head refl, p.0, p.1)
        | inr n ↦
            later-Source status class code action scope x results t
              (targets-Source status class code action scope results t n)
      ]

target_of_index :
    (r : AccountResult)
    → is_empty (trim_space r.auth_index) ≡ false
    → target_of r ≡ trim_space r.auth_index
unfolding target_of first_non_empty
target_of_index r h = ground arith

All_at :
    (P : AccountResult → Type 0) (results : List AccountResult) (r : AccountResult)
    → All P results
    → Memᴰ r results
    → P r
All_at P [] r ps m = elim m [ ]
All_at P (x ∷ xs) r (p, ps) (head h) = subst P (sym h) p
All_at P (x ∷ xs) r (p, ps) (tail m) = All_at P xs r ps m

rank_zero :
    (id : String) (r : AccountResult)
    → str_eq (trim_space r.auth_index) id ≡ true
    → rank (priority id) r ≡ 0
unfolding rank
rank_zero id r h = ground arith

index_of_rank :
    (id : String) (r : AccountResult)
    → rank (priority id) r ≡ 0
    → str_eq (trim_space r.auth_index) id ≡ true
unfolding rank
index_of_rank id r h = ground arith

-- The best answer for a text that is some row's auth index is a row with that auth index.
best_index :
    (results : List AccountResult) (id : String) (r : AccountResult) (o : Option AccountResult)
    → Memᴰ r results
    → trim_space r.auth_index ≡ id
    → IsBest (priority id) results o
    → (s : AccountResult) × (o ≡ some s) × Memᴰ s results × (trim_space s.auth_index ≡ id)
best_index results id r none m e b =
    let z = rank_zero id r ((str_eq_iff (trim_space r.auth_index) id).1 e) in
    let n = All_at (λ x. rank (priority id) x ≡ length (priority id)) results r b m in
    let n4 : rank (priority id) r ≡ 4 = n in ground arith
best_index results id r (some s) m e (k, l, b) =
    let z = rank_zero id r ((str_eq_iff (trim_space r.auth_index) id).1 e) in
    let n = All_at (λ y. rank (priority id) s ≤ rank (priority id) y) results r b m in
    (s, refl, k, (str_eq_iff (trim_space s.auth_index) id).0 (index_of_rank id s (omega arith)))

-- Where every row has an auth index, and no two rows the same one, each target of a scheduled action
-- resolves to a row of the list that has exactly the HTTP status, the class and the error code that
-- the action is for, that the run has probed, and that is not disabled already if the action is to
-- disable.
pub scheduled_targets-Exact :
    (results : List AccountResult) (status : ℕ) (class code action : String)
    (scope : Option (List String)) (t : String)
    → All (λ r. is_empty (trim_space r.auth_index) ≡ false) results
    → ((r s : AccountResult)
        → Memᴰ r results
        → Memᴰ s results
        → trim_space r.auth_index ≡ trim_space s.auth_index
        → r ≡ s)
    → Memᴰ t (scheduled_targets_match results status class code action scope)
    → (r : AccountResult) × (resolve_account_result_by_target_id results t ≡ some r)
      × Memᴰ r results
      × IsWanted status class code action scope r
scheduled_targets-Exact results status class code action scope t h d m =
    let (r, k, w, e) = targets-Source status class code action scope results t m in
    let i = All_at (λ r. is_empty (trim_space r.auth_index) ≡ false) results r h k in
    let e' = e ∙ target_of_index r i in
    let q : trim_space t ≡ trim_space r.auth_index =
      ap trim_space e' ∙ trim_space_idem r.auth_index in
    let full : is_empty (trim_space t) ≡ false = ap is_empty q ∙ i in
    let (s, found, k', e'') =
      best_index results (trim_space t) r (resolve_account_result_by_target_id results t) k (sym q)
        (resolve_account_result_by_target_id-IsBest results t full) in
    let same : r ≡ s = d r s k k' (sym q ∙ sym e'') in
    (
      s,
      found,
      k',
      subst (IsWanted status class code action scope) same
          (is_target-IsWanted status class code action scope r w),
    )
