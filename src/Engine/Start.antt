-- ===== src/Engine/Start.antt =====
-- engine_lifecycle.go: the start of an inspection: what the request asks for, the checks under the
-- locks, and the state that the run begins with. A refused call leaves the state as it was.
pub mod Scheduled
use grok_inspection.Base.{
  ℕ, ◌+◌, ◌%◌, ◌==◌, ℤ, String, Bool, true, false, not, ◌&&◌, ◌||◌, List, [], ◌∷◌, ◌++◌, length,
  Option, none, some, if◌then◌else◌,
}
use grok_inspection.Text.{is_empty, trim_space}
use grok_inspection.Lang.{Lang, zh, normalize_lang, translate}
use grok_inspection.Accounts.{
  HostAuthFileEntry, AccountResult, string_set, probed_key_set_from_entries,
}
use grok_inspection.Inspect.Sample.{
  SampleError, sample_count_invalid, sample_percent_invalid, sample_params_required, asks, refuses,
  normalize_sample_request,
}
use grok_inspection.Schedule.Settings.{StartRequest, normalize_workers}
use grok_inspection.Engine.Rows.{
  normalize_classifications, is_any_matched, put_result, cancelled_account_result,
  result_contains_auth_file,
}
use grok_inspection.Engine.State.{
  InspectionEngine, UnbanJobState, Refusal, bump, slow_retry_workers,
}

abbrev is_nil {ℓ} : {A : Type ℓ} → List A → Bool
is_nil [] = true
is_nil (x ∷ xs) = false

abbrev pub refusal : ℕ → String → Refusal
refusal status key = record { status = status; key = key }

sample_key : SampleError → String
sample_key sample_count_invalid = "sample_count_invalid"
sample_key sample_percent_invalid = "sample_percent_invalid"
sample_key sample_params_required = "sample_params_required"

-- What the request asks for, once it has been read.
pub record RunOptions : Type 0 where
  pub lang : Lang
  pub workers : ℤ
  pub include_disabled : Bool
  pub only_disabled : Bool
  pub incremental : Bool
  pub sample_mode : Bool
  pub sample_count : ℤ
  pub sample_percent : ℤ
  pub classifications : List String

pub data Asked : Type 0 where
  accepted : RunOptions → Asked
  rejected : Refusal → Asked

-- The checks before the lock.
unfoldable pub read_request : StartRequest → Asked
unfolding normalize_lang normalize_workers normalize_classifications normalize_sample_request
    sample_key
read_request req = elim (normalize_workers req.workers) [
  | none ↦ rejected (refusal 400 "workers_range")
  | some workers ↦
      let classifications = normalize_classifications req.classifications in
      if not (is_nil classifications) && req.incremental
      then rejected (refusal 400 "category_with_incremental")
      else if req.sample && req.incremental
      then rejected (refusal 400 "sample_with_incremental")
      else elim (normalize_sample_request req.sample req.sample_count req.sample_percent) [
        | refuses e ↦ rejected (refusal 400 (sample_key e))
        | asks count percent ↦ accepted (record {
          lang = normalize_lang req.lang;
          workers = workers;
          include_disabled = req.include_disabled;
          only_disabled = req.only_disabled;
          incremental = req.incremental;
          sample_mode = req.sample;
          sample_count = count;
          sample_percent = percent;
          classifications = classifications;
        })
      ]
]

-- The checks under the locks of the engine and the unban job: none lets the run begin.
unfoldable pub start_refusal : InspectionEngine → UnbanJobState → RunOptions → Option Refusal
unfolding is_any_matched string_set
start_refusal e job opts =
    let scoped = not (is_nil opts.classifications) in
    if e.shutting_down
    then some (refusal 503 "busy_generic")
    else if e.running || e.applying || e.apply_draining
    then some (refusal 409 "already_running")
    else if not (e.action_in_flight == 0)
    then some (refusal 409 "busy_row_action")
    else if job.running
    then some (refusal 409 "busy_unban")
    else if opts.incremental && is_nil e.results
    then some (refusal 400 "incremental_needs_results")
    else if scoped && is_nil e.results
    then some (refusal 400 "category_needs_results")
    else if scoped && not (is_any_matched e.results (string_set opts.classifications))
    then some (refusal 400 "no_accounts_in_category")
    else none

unfoldable pub begin_run : InspectionEngine → RunOptions → ℕ → InspectionEngine
unfolding slow_retry_workers
begin_run e opts now =
    let scoped = not (is_nil opts.classifications) in
    let full = not opts.incremental && not scoped && not opts.sample_mode in
    record e {
      lang = some opts.lang;
      running = true;
      stopped = false;
      applying = false;
      run_targets = [];
      run_model = "";
      run_classify_scoped = false;
      incremental = opts.incremental && not scoped && not opts.sample_mode;
      sample_mode = opts.sample_mode;
      sample_count = opts.sample_count;
      sample_percent = opts.sample_percent;
      classifications = opts.classifications;
      workers = opts.workers;
      include_disabled = if opts.only_disabled then false else opts.include_disabled;
      only_disabled = opts.only_disabled;
      full_clear_pending = full;
      run_is_full_inspect = full;
      run_list_ok = false;
      run_list_error = "";
      run_probed_keys = none;
      total = 0;
      probe_done = 0;
      probe_phase = "listing";
      retry_done = 0;
      retry_total = 0;
      retry_workers = slow_retry_workers opts.workers;
      apply_done = 0;
      apply_total = 0;
      apply_current = "";
      apply_failures = [];
      started_at = some now;
      finished_at = none;
      run_id = bump e.run_id;
      persist_seq = bump e.persist_seq;
    }

-- The new state and the run's id, or the error.
pub data StartAnswer : Type 0 where
  started : InspectionEngine → ℕ → StartAnswer
  refused : Refusal → StartAnswer

unfoldable pub start_unless : Option Refusal → StartAnswer → StartAnswer
start_unless none a = a
start_unless (some r) a = refused r

unfoldable pub start_locked : InspectionEngine → UnbanJobState → ℕ → Asked → StartAnswer
unfolding start_unless start_refusal begin_run
start_locked e job now (rejected r) = refused r
start_locked e job now (accepted opts) =
    start_unless (start_refusal e job opts) (started (begin_run e opts now) (bump e.run_id))

unfoldable pub start_with_run_id : InspectionEngine → UnbanJobState → StartRequest → ℕ → StartAnswer
unfolding start_locked read_request
start_with_run_id e job req now = start_locked e job now (read_request req)
