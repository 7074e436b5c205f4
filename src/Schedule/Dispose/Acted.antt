-- ===== src/Schedule/Dispose/Acted.antt =====
-- What one action of a scheduled run counts, and what it leaves of the rows and the bans.
use grok_inspection.Base.{
  ℕ, ◌+◌, ◌≤◌, ◌==◌, String, true, false, ◌||◌, ◌≡◌, refl, ◌⊎◌, inl, inr, List, [], ◌∷◌, length,
  if_cases, Bool-cases, arith, if◌then◌else◌,
}
use grok_inspection.Text.{str_eq, is_empty}
use grok_inspection.Accounts.{AccountResult}
use grok_inspection.Ban.Store.{Store}
use grok_inspection.Schedule.Progress.{
  Tally, no_tally, ScheduledTargetIdentity, build_scheduled_target_identities,
  record_scheduled_action_progress_identities, scheduled_action_success_count_identities,
}
use grok_inspection.Schedule.Dispose.{
  Pool, ActEnd, refused_stopped, refused, stopped, ended, RunStats, ActionAsked, counted,
  run_action,
}

-- n accounts are matched, and every one is counted once more: as changed, as deleted, or as failed.
abbrev pub IsTallied : ℕ → Tally → Type 0
IsTallied n t = (t.matched ≡ n) × (t.disabled + t.deleted + t.failed ≡ n)

success-length :
    (results : List AccountResult) (s : Store) (action : String)
    (ids : List ScheduledTargetIdentity)
    → scheduled_action_success_count_identities results s action ids ≤ length ids
unfolding scheduled_action_success_count_identities
success-length results s action [] = omega arith
success-length results s action (id ∷ ids) = ground (arith, success-length results s action ids)

length-identities :
    (results : List AccountResult) (tokens : List String)
    → length (build_scheduled_target_identities results tokens) ≡ length tokens
unfolding build_scheduled_target_identities
length-identities results [] = refl
length-identities results (t ∷ ts) = ground (arith, length-identities results ts)

progress-IsTallied :
    (results : List AccountResult) (s : Store) (action : String)
    (ids : List ScheduledTargetIdentity) (n : ℕ)
    → length ids ≡ n
    → IsTallied n (
        record_scheduled_action_progress_identities results s action ids
          (record no_tally { matched = n }))
unfolding record_scheduled_action_progress_identities
progress-IsTallied results s action ids n h =
    if_cases (IsTallied n) (str_eq action "delete") _ _
      (λ _. (refl, omega (arith, success-length results s action ids, h)))
      λ _. (refl, omega (arith, success-length results s action ids, h))

progress-deleted :
    (results : List AccountResult) (s : Store) (action : String)
    (ids : List ScheduledTargetIdentity) (n : ℕ)
    → str_eq action "delete" ≡ false
    → (record_scheduled_action_progress_identities results s action ids
        (record no_tally { matched = n })).deleted
      ≡ 0
unfolding record_scheduled_action_progress_identities
progress-deleted results s action ids n h = rw h refl

-- Where the run goes on after an action, its tally adds up; a disable deletes nothing.
abbrev pub Goes : ActionAsked → RunStats → Type 0
Goes asked r =
    (r.goes_on ≡ false)
    ⊎ (IsTallied (length asked.targets) r.tally
        × ((str_eq asked.action "delete" ≡ true) ⊎ (r.tally.deleted ≡ 0)))

all_failed : (n : ℕ) → 0 + 0 + n ≡ n
all_failed n = omega arith

module _ (act : ActionAsked → Pool → Pool × ActEnd) where
  deleted-cases :
      (asked : ActionAsked) (before after : Pool)
      → (str_eq asked.action "delete" ≡ true)
        ⊎ ((record_scheduled_action_progress_identities after.results after.bans asked.action
              (build_scheduled_target_identities before.results asked.targets)
              (record no_tally { matched = length asked.targets })).deleted
            ≡ 0)
  deleted-cases asked before after = elim (Bool-cases (str_eq asked.action "delete")) [
    | inl e ↦ inl e
    | inr e ↦ inr (progress-deleted after.results after.bans asked.action _ _ e)
  ]

  counted-Goes :
      (asked : ActionAsked) (before : Pool) (r : Pool × ActEnd) (errors : List String)
      → Goes asked (counted act asked before r errors)
  unfolding counted
  counted-Goes asked before (after, refused_stopped) errors = inl refl
  counted-Goes asked before (after, refused m) errors = inr ((refl, omega arith), inr refl)
  counted-Goes asked before (after, stopped) errors = inl refl
  counted-Goes asked before (after, ended failures) errors = inr (
    progress-IsTallied after.results after.bans asked.action _ _
        (length-identities before.results asked.targets),
    deleted-cases asked before after,
  )

  pub run_action-Goes :
      (password : String) (asked : ActionAsked) (pool : Pool) (errors : List String)
      → Goes asked (run_action act password asked pool errors)
  unfolding run_action
  run_action-Goes password asked pool errors =
      let n = length asked.targets in
      let failed : Tally = record no_tally { matched = n; failed = n } in
      let idle : RunStats = record {
        pool = pool;
        tally = no_tally;
        errors = errors;
        goes_on = true;
      } in
      let locked : RunStats = record {
        pool = pool;
        tally = failed;
        errors = errors;
        goes_on = true;
      } in
      let done = counted act asked pool (act asked pool) errors in
      let rest : RunStats = if is_empty password then locked else done in
      if_cases (Goes asked) (n == 0) idle rest (λ e. inr ((ground arith, ground arith), inr refl))
        λ _.
          if_cases (Goes asked) (is_empty password) locked done
            (λ _. inr ((refl, all_failed n), inr refl))
            λ _. counted-Goes asked pool (act asked pool) errors

-- What an action of the run leaves of the pool: it is asked for where it has targets and there is a
-- password for it.
abbrev pub left : (ActionAsked → Pool → Pool × ActEnd) → String → ActionAsked → Pool → Pool
left act password asked pool =
    if is_empty password || length asked.targets == 0 then pool else (act asked pool).0

module _ (act : ActionAsked → Pool → Pool × ActEnd) where
  counted_pool :
      (asked : ActionAsked) (before : Pool) (r : Pool × ActEnd) (errors : List String)
      → (counted act asked before r errors).pool ≡ r.0
  unfolding counted
  counted_pool asked before (after, refused_stopped) errors = refl
  counted_pool asked before (after, refused m) errors = refl
  counted_pool asked before (after, stopped) errors = refl
  counted_pool asked before (after, ended failures) errors = refl

  pub run_action_pool :
      (password : String) (asked : ActionAsked) (pool : Pool) (errors : List String)
      → (run_action act password asked pool errors).pool ≡ left act password asked pool
  unfolding run_action
  run_action_pool password asked pool errors =
      ground (arith, counted_pool asked pool (act asked pool) errors)
