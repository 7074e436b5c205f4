-- ===== src/Schedule/Dispose.antt =====
-- inspection_schedule.go, runScheduledInspection: what a scheduled run does once its inspection has
-- ended: whether it acts at all, its five actions one after another, and what it reports. `act` is one
-- action by startApply, with the wait for its end: it takes the rows and the bans to those that the
-- apply and the other threads leave, and says how it ended.
pub mod Acted
pub mod Tallied
use grok_inspection.Base.{
  ℕ, ◌+◌, ltb, ◌==◌, String, Bool, true, false, not, ◌&&◌, ◌||◌, List, [], ◌∷◌, ◌++◌, length,
  Option, none, some, if◌then◌else◌,
}
use grok_inspection.Text.{str_eq, is_empty}
use grok_inspection.Accounts.{AccountResult}
use grok_inspection.Ban.Evidence.{
  exhausted_error_code, permission_denied_error_code, spending_limit_error_code,
  unauthorized_error_code,
}
use grok_inspection.Ban.Store.{Store}
use grok_inspection.Schedule.Settings.{
  Schedule, Counters, no_counters, normalize_action, or_default,
}
use grok_inspection.Schedule.Targets.{
  scheduled_permission_denied_targets, scheduled_spending_limit_targets,
  scheduled_quota_exhausted_targets, scheduled_unauthorized_targets,
  scheduled_healthy_recover_targets,
}
use grok_inspection.Schedule.Progress.{
  Tally, no_tally, join, build_scheduled_target_identities,
  record_scheduled_action_progress_identities, scheduled_completion_status,
}
use grok_inspection.Engine.State.{InspectionEngine}
use grok_inspection.Engine.Run.{
  WaitState, run_active, run_finished, run_superseded, RunOutcome, inspection_run_wait_state,
  finished_run_outcome, finished_run_probed_keys,
}

-- What the actions work on.
pub record Pool : Type 0 where
  pub results : List AccountResult
  pub bans : Store

-- The apply was refused, with the engine stopped or with a message; it was stopped, by the end of the
-- schedule or of the engine's work; or it ended, with the failures that it lists.
pub data ActEnd : Type 0 where
  refused_stopped : ActEnd
  refused : String → ActEnd
  stopped : ActEnd
  ended : List String → ActEnd

-- The tallies and errors so far; none for the tally where the run has stopped.
pub record RunStats : Type 0 where
  pub pool : Pool
  pub tally : Tally
  pub errors : List String
  pub goes_on : Bool

pub record ActionAsked : Type 0 where
  pub action : String
  pub ban_error_code : String
  pub targets : List String

module _ (act : ActionAsked → Pool → Pool × ActEnd) where
  counted : ActionAsked → Pool → Pool × ActEnd → List String → RunStats
  unfolding build_scheduled_target_identities record_scheduled_action_progress_identities
  counted asked before r errors =
      let n = length asked.targets in
      let ids = build_scheduled_target_identities before.results asked.targets in
      let matched : Tally = record no_tally { matched = n } in
      let all_failed : Tally = record matched { failed = n } in
      let progress =
        record_scheduled_action_progress_identities r.0.results r.0.bans asked.action ids matched in
      elim r.1 [
        | refused_stopped ↦ record { pool = r.0; tally = matched; errors = errors; goes_on = false }
        | refused m ↦ record {
          pool = r.0;
          tally = all_failed;
          errors = errors ++ m ∷ [];
          goes_on = true;
        }
        | stopped ↦ record { pool = r.0; tally = progress; errors = errors; goes_on = false }
        | ended failures ↦ record {
          pool = r.0;
          tally = progress;
          errors = errors ++ failures;
          goes_on = true;
        }
      ]

  -- runAction
  unfoldable pub run_action : String → ActionAsked → Pool → List String → RunStats
  unfolding counted is_empty
  run_action password asked pool errors =
      let n = length asked.targets in
      let failed : Tally = record no_tally { matched = n; failed = n } in
      let done = counted asked pool (act asked pool) errors in
      if n == 0
      then record { pool = pool; tally = no_tally; errors = errors; goes_on = true }
      else if is_empty password
      then record { pool = pool; tally = failed; errors = errors; goes_on = true }
      else done

-- The tallies of the five actions, in their order.
pub record Tallies : Type 0 where
  pub quota : Tally
  pub unauthorized : Tally
  pub permission : Tally
  pub spending : Tally
  pub recover : Tally

abbrev pub no_tallies : Tallies
no_tallies = record {
  quota = no_tally;
  unauthorized = no_tally;
  permission = no_tally;
  spending = no_tally;
  recover = no_tally;
}

-- What setInspectionScheduleRuntimeStatus is told.
pub record Report : Type 0 where
  pub status : String
  pub error : String
  pub tallies : Tallies

abbrev report : String → String → Report
report status error = record { status = status; error = error; tallies = no_tallies }

stopped_report : List String → Tallies → Report
unfolding join
stopped_report errors ts = record { status = "stopped"; error = join "; " errors; tallies = ts }

abbrev pub matched_total : Tallies → ℕ
matched_total ts =
    ts.permission.matched + ts.spending.matched + ts.quota.matched + ts.unauthorized.matched
    + ts.recover.matched

abbrev pub failed_total : Tallies → ℕ
failed_total ts =
    ts.permission.failed + ts.spending.failed + ts.quota.failed + ts.unauthorized.failed
    + ts.recover.failed

unfoldable pub final_report : String → List String → Tallies → Report
unfolding join scheduled_completion_status is_empty
final_report password errors ts =
    let all_errors =
      if is_empty password && ltb 0 (failed_total ts)
      then errors ++ "CPA management password is unavailable" ∷ []
      else errors in
    record {
      status = scheduled_completion_status (matched_total ts) (failed_total ts) all_errors;
      error = if ltb 0 (matched_total ts) then join "; " all_errors else "";
      tallies = ts;
    }

-- The counters of the settings: the totals are made where they are stored.
unfoldable pub counters_of : Tallies → Counters
counters_of ts = record no_counters {
  matched_403 = ts.permission.matched;
  disabled_403 = ts.permission.disabled;
  deleted_403 = ts.permission.deleted;
  failed_403 = ts.permission.failed;
  matched_402 = ts.spending.matched;
  disabled_402 = ts.spending.disabled;
  deleted_402 = ts.spending.deleted;
  failed_402 = ts.spending.failed;
  matched_429 = ts.quota.matched;
  disabled_429 = ts.quota.disabled;
  failed_429 = ts.quota.failed;
  matched_401 = ts.unauthorized.matched;
  disabled_401 = ts.unauthorized.disabled;
  failed_401 = ts.unauthorized.failed;
  matched_recover = ts.recover.matched;
  recovered = ts.recover.disabled;
  failed_recover = ts.recover.failed;
}

abbrev asking : String → String → List String → ActionAsked
asking action code targets = record { action = action; ban_error_code = code; targets = targets }

module _ (act : ActionAsked → Pool → Pool × ActEnd) (cfg : Schedule) (password : String)
    (scope : Option (List String)) (now : ℕ) where
  recover_step : Tallies → RunStats → Report
  unfolding run_action stopped_report final_report scheduled_healthy_recover_targets
  recover_step ts r =
      let targets = scheduled_healthy_recover_targets r.pool.bans r.pool.results scope now in
      let n = run_action act password (asking "enable" "" targets) r.pool r.errors in
      let all : Tallies = record ts { recover = n.tally } in
      if not cfg.auto_recover_healthy
      then final_report password r.errors ts
      else if not n.goes_on
      then stopped_report n.errors all
      else final_report password n.errors all

  spending_step : Tallies → RunStats → Report
  unfolding recover_step run_action stopped_report normalize_action
  spending_step ts r =
      let action = or_default "disable" (normalize_action cfg.spending_limit_action) in
      let targets = scheduled_spending_limit_targets r.pool.results action scope in
      let n =
        run_action act password (asking action spending_limit_error_code targets) r.pool r.errors in
      let all : Tallies = record ts { spending = n.tally } in
      if not n.goes_on then stopped_report n.errors all else recover_step all n

  permission_step : Tallies → RunStats → Report
  unfolding spending_step run_action stopped_report normalize_action
  permission_step ts r =
      let action = or_default "disable" (normalize_action cfg.permission_denied_action) in
      let targets = scheduled_permission_denied_targets r.pool.results action scope in
      let n =
        run_action act password (asking action permission_denied_error_code targets) r.pool
          r.errors in
      let all : Tallies = record ts { permission = n.tally } in
      if not n.goes_on then stopped_report n.errors all else spending_step all n

  unauthorized_step : Tallies → RunStats → Report
  unfolding permission_step run_action stopped_report
  unauthorized_step ts r =
      let targets = scheduled_unauthorized_targets r.pool.results "disable" scope in
      let n =
        run_action act password (asking "disable" unauthorized_error_code targets) r.pool
          r.errors in
      let all : Tallies = record ts { unauthorized = n.tally } in
      if not n.goes_on then stopped_report n.errors all else permission_step all n

  -- The five actions, from the rows and the bans that the inspection leaves.
  unfoldable pub dispose_results : Pool → Report
  unfolding unauthorized_step run_action stopped_report
  dispose_results pool =
      let targets = scheduled_quota_exhausted_targets pool.results "disable" scope in
      let n = run_action act password (asking "disable" exhausted_error_code targets) pool [] in
      let all : Tallies = record no_tallies { quota = n.tally } in
      if not n.goes_on then stopped_report n.errors all else unauthorized_step all n

-- The keys of the accounts that the run has probed, where it has not covered the whole list.
scope_of : InspectionEngine → ℕ → Bool → Option (List String)
unfolding finished_run_probed_keys
scope_of e run_id true = none
scope_of e run_id false = finished_run_probed_keys e run_id

is_unknown : Bool → Option (List String) → Bool
is_unknown true scope = false
is_unknown false none = true
is_unknown false (some []) = true
is_unknown false (some (k ∷ ks)) = false

module _ (act : ActionAsked → Pool → Pool × ActEnd) (cfg : Schedule) (password : String) where
  with_outcome : InspectionEngine → ℕ → Store → ℕ → Option RunOutcome → Report
  unfolding scope_of is_unknown dispose_results is_empty
  with_outcome e run_id bans now none =
      report "failed" "inspection run outcome missing or superseded"
  with_outcome e run_id bans now (some o) =
      let scope = scope_of e run_id o.full_inspect in
      if not o.list_ok
      then report "failed" (
          if is_empty o.list_error
          then "account list was not obtained for this run"
          else o.list_error)
      else if is_unknown o.full_inspect scope
      then report "failed" "scheduled run scope is unknown; auto-actions skipped"
      else dispose_results act cfg password scope now (record { results = e.results; bans = bans })

  -- One round of the wait for the run, and what follows its end: none where the wait goes on.
  unfoldable pub run_scheduled_inspection : InspectionEngine → ℕ → Store → ℕ → Bool → Option Report
  unfolding with_outcome inspection_run_wait_state finished_run_outcome
  run_scheduled_inspection e run_id bans now is_told_to_stop =
      let superseded =
        some (report "stopped" "scheduled inspection run was stopped or superseded") in
      let finished = with_outcome e run_id bans now (finished_run_outcome e run_id) in
      if is_told_to_stop
      then some (report "stopped" "")
      else elim (inspection_run_wait_state e run_id) [
        | run_active ↦ none
        | run_finished ↦ some finished
        | run_superseded ↦ superseded
      ]
