-- ===== src/Schedule/Settings.antt =====
-- inspection_schedule.go: the settings of the schedule, their normal form
-- (normalizePersistedInspectionSchedule and its parts), when the next run is due, and the request of a
-- scheduled run (scheduledInspectionRequest).
pub mod Normal
use grok_inspection.Base.{
  ℕ, ℤ, pos, ltb_ℤ, ◌==ℤ◌, ltb, ◌==◌, String, Bool, true, false, not, ◌&&◌, ◌||◌, Option, none,
  some, if◌then◌else◌, List, [],
}
use grok_inspection.Text.{str_eq, lower, is_empty}
use grok_inspection.Time.{mul_int64, add_duration}
use grok_inspection.Inspect.Sample.{SampleRequest, asks, refuses, normalize_sample_request}

-- engine_types.go defaultWorkers, minWorkers and maxWorkers, and the bounds of the interval in minutes.
abbrev pub default_workers : ℤ
default_workers = pos 6

abbrev pub max_workers : ℤ
max_workers = pos 16

abbrev pub default_interval : ℤ
default_interval = pos 60

abbrev pub max_interval : ℤ
max_interval = pos 10_080

abbrev pub minute : ℕ
minute = 60_000_000_000

-- The counters of the last run, by the status code of the accounts it acted on.
pub record Counters : Type 0 where
  pub matched : ℕ
  pub disabled : ℕ
  pub deleted : ℕ
  pub failed : ℕ
  pub matched_403 : ℕ
  pub disabled_403 : ℕ
  pub deleted_403 : ℕ
  pub failed_403 : ℕ
  pub matched_402 : ℕ
  pub disabled_402 : ℕ
  pub deleted_402 : ℕ
  pub failed_402 : ℕ
  pub matched_429 : ℕ
  pub disabled_429 : ℕ
  pub failed_429 : ℕ
  pub matched_401 : ℕ
  pub disabled_401 : ℕ
  pub failed_401 : ℕ
  pub matched_recover : ℕ
  pub recovered : ℕ
  pub failed_recover : ℕ

abbrev pub no_counters : Counters
no_counters = record {
  matched = 0;
  disabled = 0;
  deleted = 0;
  failed = 0;
  matched_403 = 0;
  disabled_403 = 0;
  deleted_403 = 0;
  failed_403 = 0;
  matched_402 = 0;
  disabled_402 = 0;
  deleted_402 = 0;
  failed_402 = 0;
  matched_429 = 0;
  disabled_429 = 0;
  failed_429 = 0;
  matched_401 = 0;
  disabled_401 = 0;
  failed_401 = 0;
  matched_recover = 0;
  recovered = 0;
  failed_recover = 0;
}

-- persistedInspectionSchedule; `counters` holds its fields LastMatched to LastFailedRecover.
pub record Schedule : Type 0 where
  pub enabled : Bool
  pub interval_minutes : ℤ
  pub workers : ℤ
  pub include_disabled : Bool
  pub only_disabled : Bool
  pub scope : String
  pub sample_count : ℤ
  pub sample_percent : ℤ
  pub permission_denied_action : String
  pub spending_limit_action : String
  pub auto_recover_healthy : Bool
  pub last_run_at : String
  pub next_run_at : String
  pub last_status : String
  pub last_error : String
  pub counters : Counters

unfoldable pub default_schedule : Schedule
default_schedule = record {
  enabled = false;
  interval_minutes = default_interval;
  workers = default_workers;
  include_disabled = false;
  only_disabled = false;
  scope = "full";
  sample_count = pos 0;
  sample_percent = pos 0;
  permission_denied_action = "disable";
  spending_limit_action = "disable";
  auto_recover_healthy = false;
  last_run_at = "";
  next_run_at = "";
  last_status = "";
  last_error = "";
  counters = no_counters;
}

-- The normalized value; none for the error.
unfoldable pub normalize_workers : ℤ → Option ℤ
normalize_workers workers =
    if workers ==ℤ 0
    then some default_workers
    else if ltb_ℤ workers (pos 1) || ltb_ℤ max_workers workers
    then none
    else some workers

unfoldable pub normalize_interval : ℤ → Option ℤ
normalize_interval minutes =
    if minutes ==ℤ 0
    then some default_interval
    else if ltb_ℤ minutes (pos 1) || ltb_ℤ max_interval minutes
    then none
    else some minutes

unfoldable pub normalize_scope : String → Option String
unfolding lower is_empty str_eq
normalize_scope scope =
    let s = lower scope in
    if is_empty s
    then some "full"
    else if str_eq s "full" || str_eq s "sample"
    then some s
    else none

unfoldable pub normalize_action : String → Option String
unfolding lower is_empty str_eq
normalize_action action =
    let a = lower action in
    if is_empty a
    then some "disable"
    else if str_eq a "disable" || str_eq a "delete"
    then some a
    else none

abbrev pub or_default {ℓ} : {A : Type ℓ} → A → Option A → A
or_default d none = d
or_default d (some a) = a

unfoldable pub is_asked : SampleRequest → Bool
is_asked (asks count percent) = true
is_asked (refuses error) = false

-- A sample that can no longer be drawn becomes a full run.
unfoldable pub kept_scope : String → ℤ → ℤ → String
unfolding normalize_scope normalize_sample_request is_asked str_eq
kept_scope scope count percent =
    let s = or_default "full" (normalize_scope scope) in
    if str_eq s "sample" && not (is_asked (normalize_sample_request true count percent))
    then "full"
    else s

-- The count or the percentage, of a sample alone.
unfoldable pub kept_sample : String → ℤ → ℤ
unfolding str_eq
kept_sample scope n = if not (str_eq scope "sample") then pos 0 else n

unfoldable pub normalize_schedule : Schedule → Schedule
unfolding normalize_interval normalize_workers normalize_action kept_scope kept_sample
normalize_schedule cfg =
    let scope' = kept_scope cfg.scope cfg.sample_count cfg.sample_percent in
    record cfg {
      interval_minutes = or_default default_interval (normalize_interval cfg.interval_minutes);
      workers = or_default default_workers (normalize_workers cfg.workers);
      permission_denied_action =
          or_default "disable" (normalize_action cfg.permission_denied_action);
      spending_limit_action = or_default "disable" (normalize_action cfg.spending_limit_action);
      scope = scope';
      sample_count = kept_sample scope' cfg.sample_count;
      sample_percent = kept_sample scope' cfg.sample_percent;
      include_disabled = if cfg.only_disabled then false else cfg.include_disabled;
      next_run_at = if not cfg.enabled then "" else cfg.next_run_at;
    }

-- now is due against the next run; 0 is the zero Time.
unfoldable pub is_due : ℕ → ℕ → Bool
is_due now next = next == 0 || not (ltb now next)

unfoldable pub next_run : ℕ → ℤ → ℕ
unfolding normalize_interval
next_run now interval =
    add_duration now (mul_int64 (or_default default_interval (normalize_interval interval)) minute)

-- engine_types.go startRequest.
pub record StartRequest : Type 0 where
  pub lang : String
  pub workers : ℤ
  pub include_disabled : Bool
  pub only_disabled : Bool
  pub incremental : Bool
  pub sample : Bool
  pub sample_count : ℤ
  pub sample_percent : ℤ
  pub classifications : List String

unfoldable pub scheduled_request : Schedule → StartRequest
unfolding normalize_workers normalize_scope normalize_sample_request is_asked str_eq
scheduled_request cfg =
    let sampled : Bool = elim (normalize_scope cfg.scope) [
      | none ↦ false
      | some s ↦
          str_eq s "sample"
          && is_asked (normalize_sample_request true cfg.sample_count cfg.sample_percent)
    ] in
    record {
      lang = "zh";
      workers = or_default default_workers (normalize_workers cfg.workers);
      include_disabled = if cfg.only_disabled then false else cfg.include_disabled;
      only_disabled = cfg.only_disabled;
      incremental = false;
      sample = sampled;
      sample_count = if sampled then cfg.sample_count else pos 0;
      sample_percent = if sampled then cfg.sample_percent else pos 0;
      classifications = [];
    }
