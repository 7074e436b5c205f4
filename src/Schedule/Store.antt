-- ===== src/Schedule/Store.antt =====
-- inspection_schedule.go, schedule_store.go: the settings in memory and in their file. Each call is a
-- transaction under scheduleTxnMu. The encoder of the file is Go's, so that the file stands for what
-- it decodes to, and none for a file that is missing. A write succeeds or fails as the call is told,
-- and `print` is Time.Format.
pub mod Committed
pub mod Followed
pub mod Restart
use grok_inspection.Base.{
  ℕ, ◌+◌, ℤ, pos, String, Bool, true, false, Option, none, some, if◌then◌else◌,
}
use grok_inspection.Text.{str_eq, trim_space}
use grok_inspection.Inspect.Sample.{normalize_sample_request}
use grok_inspection.Schedule.Settings.{
  Schedule, Counters, default_schedule, normalize_workers, normalize_interval, normalize_scope,
  normalize_action, is_asked, normalize_schedule, next_run,
}

-- engine.schedule, and schedule.json.
pub record Saved : Type 0 where
  pub memory : Schedule
  pub file : Option Schedule

-- inspectionScheduleUpdate: none for a field that the request leaves out.
pub record InspectionScheduleUpdate : Type 0 where
  pub enabled : Option Bool
  pub interval_minutes : Option ℤ
  pub workers : Option ℤ
  pub include_disabled : Option Bool
  pub only_disabled : Option Bool
  pub scope : Option String
  pub sample_count : Option ℤ
  pub sample_percent : Option ℤ
  pub permission_denied_action : Option String
  pub spending_limit_action : Option String
  pub auto_recover_healthy : Option Bool

pub data UpdateError : Type 0 where
  interval_invalid workers_invalid scope_invalid sample_invalid action_invalid persist_failed :
      UpdateError

-- The settings that are being built, or the error with the settings that go back with it.
pub data Step : Type 0 where
  next : Schedule → Step
  stop : Schedule → UpdateError → Step

infixl 5 ◌>>=◌
unfoldable pub ◌>>=◌ : Step → (Schedule → Step) → Step
next cfg >>= f = f cfg
stop cfg e >>= f = stop cfg e

abbrev pub given {ℓ} : {A : Type ℓ} → Option A → A → A
given none a = a
given (some b) a = b

-- A field that is checked: `check` is none for an error.
put_checked {ℓ} : {A : Type ℓ} → UpdateError → (A → Schedule) → Schedule → Option A → Step
put_checked e put cfg none = stop cfg e
put_checked e put cfg (some b) = next (put b)

checked {ℓ} :
    {A : Type ℓ} → Option A → (A → Option A) → UpdateError → (A → Schedule) → Schedule → Step
unfolding put_checked
checked none check e put cfg = next cfg
checked (some a) check e put cfg = put_checked e put cfg (check a)

set_interval : InspectionScheduleUpdate → Schedule → Step
unfolding checked normalize_interval
set_interval req cfg =
    checked req.interval_minutes normalize_interval interval_invalid
      (λ i. record cfg { interval_minutes = i }) cfg

set_workers : InspectionScheduleUpdate → Schedule → Step
unfolding checked normalize_workers
set_workers req cfg =
    checked req.workers normalize_workers workers_invalid (λ w. record cfg { workers = w }) cfg

-- include_disabled and only_disabled take each other back.
set_disabled : InspectionScheduleUpdate → Schedule → Schedule
set_disabled req cfg =
    let a = record cfg {
      include_disabled = given req.include_disabled cfg.include_disabled;
      only_disabled = if given req.include_disabled false then false else cfg.only_disabled;
    } in
    record a {
      only_disabled = given req.only_disabled a.only_disabled;
      include_disabled = if given req.only_disabled false then false else a.include_disabled;
    }

set_scope : InspectionScheduleUpdate → Schedule → Step
unfolding checked normalize_scope
set_scope req cfg =
    checked req.scope normalize_scope scope_invalid (λ s. record cfg { scope = s }) cfg

set_sample : InspectionScheduleUpdate → Schedule → Step
unfolding normalize_sample_request is_asked str_eq
set_sample req cfg =
    let a = record cfg {
      sample_count = given req.sample_count cfg.sample_count;
      sample_percent = given req.sample_percent cfg.sample_percent;
    } in
    if str_eq a.scope "sample"
    then (if is_asked (normalize_sample_request true a.sample_count a.sample_percent)
        then next a
        else stop a sample_invalid)
    else next (record a { sample_count = pos 0; sample_percent = pos 0 })

set_denied : InspectionScheduleUpdate → Schedule → Step
unfolding checked normalize_action
set_denied req cfg =
    checked req.permission_denied_action normalize_action action_invalid
      (λ a. record cfg { permission_denied_action = a }) cfg

set_limited : InspectionScheduleUpdate → Schedule → Step
unfolding checked normalize_action
set_limited req cfg =
    checked req.spending_limit_action normalize_action action_invalid
      (λ a. record cfg { spending_limit_action = a }) cfg

-- The fields in the order of the code.
unfoldable pub build : InspectionScheduleUpdate → Schedule → Step
unfolding ◌>>=◌ set_interval set_workers set_disabled set_scope set_sample set_denied set_limited
build req prev = do
  a ← set_interval req (record prev { enabled = given req.enabled prev.enabled })
  b ← set_workers req a
  c ← set_scope req (set_disabled req b)
  d ← set_sample req c
  e ← set_denied req d
  f ← set_limited req e
  next (record f { auto_recover_healthy = given req.auto_recover_healthy f.auto_recover_healthy })

-- What a call returns: the settings, with the error if there is one.
pub data UpdateResult : Type 0 where
  ok : Schedule → UpdateResult
  err : Schedule → UpdateError → UpdateResult

module _ (print : ℕ → String) where
  unfoldable pub stamp : ℕ → Schedule → Schedule
  unfolding next_run
  stamp now cfg =
      if cfg.enabled
      then record cfg {
        next_run_at = print (next_run now cfg.interval_minutes);
        last_status = "waiting";
        last_error = "";
      }
      else record cfg { next_run_at = ""; last_status = "disabled"; last_error = "" }

  commit : Saved → Schedule → Bool → Step → ℕ → Saved × UpdateResult
  unfolding stamp normalize_schedule
  commit s prev write_ok (stop cfg e) now = (s, err cfg e)
  commit s prev write_ok (next cfg) now =
      let new = stamp now cfg in
      if write_ok
      then (record { memory = new; file = some (normalize_schedule new) }, ok new)
      else (s, err prev persist_failed)

  unfoldable pub update_schedule :
      Saved → InspectionScheduleUpdate → Bool → ℕ → Saved × UpdateResult
  unfolding commit build normalize_schedule
  update_schedule s req write_ok now =
      let prev = normalize_schedule s.memory in commit s prev write_ok (build req prev) now

  -- setInspectionScheduleRuntimeStatus; the memory takes the status even where the write fails.
  unfoldable pub set_runtime_status : Saved → String → String → ℕ → Counters → Bool → ℕ → Saved
  unfolding normalize_schedule next_run trim_space
  set_runtime_status s status last_error started c write_ok now =
      let cfg = normalize_schedule s.memory in
      let new = record cfg {
        last_run_at = print started;
        last_status = status;
        last_error = trim_space last_error;
        counters = record c {
          matched =
              c.matched_403 + c.matched_402 + c.matched_429 + c.matched_401 + c.matched_recover;
          disabled = c.disabled_403 + c.disabled_402 + c.disabled_429 + c.disabled_401;
          deleted = c.deleted_403 + c.deleted_402;
          failed = c.failed_403 + c.failed_402 + c.failed_429 + c.failed_401 + c.failed_recover;
        };
        next_run_at = if cfg.enabled then print (next_run now cfg.interval_minutes) else "";
      } in
      record { memory = new; file = if write_ok then some (normalize_schedule new) else s.file }

-- loadInspectionScheduleFromDisk where schedule.json is readable, or where it and results.json are
-- missing.
unfoldable pub load : Option Schedule → Schedule
unfolding normalize_schedule default_schedule
load none = default_schedule
load (some cfg) = normalize_schedule cfg
