-- ===== src/Engine/Run.antt =====
-- engine_lifecycle.go: the stop of an inspection, what its workers write, its end, and what is
-- published of it. A write of results.json is only its sequence number here.
use grok_inspection.Base.{
  ℕ, ◌+◌, ◌%◌, ◌==◌, String, Bool, true, false, not, ◌&&◌, ◌||◌, List, [], ◌∷◌, ◌++◌, length,
  Option, none, some, if◌then◌else◌,
}
use grok_inspection.Text.{is_empty, trim_space}
use grok_inspection.Lang.{Lang, zh, normalize_lang, translate}
use grok_inspection.Accounts.{HostAuthFileEntry, AccountResult, probed_key_set_from_entries}
use grok_inspection.Engine.Rows.{put_result, cancelled_account_result, result_contains_auth_file}
use grok_inspection.Engine.State.{InspectionEngine, bump}

or_lang : Option Lang → Lang → Lang
or_lang none l = l
or_lang (some k) l = k

unfoldable pub resolve_stop_lang : InspectionEngine → String → Lang
unfolding trim_space is_empty normalize_lang or_lang
resolve_stop_lang e lang =
    if not (is_empty (trim_space lang))
    then normalize_lang lang
    else if e.applying
    then or_lang e.apply_lang (or_lang e.lang zh)
    else or_lang e.lang zh

-- A row for each target that has none yet.
cancel_targets :
    String → Lang → Bool → List AccountResult → List HostAuthFileEntry → List AccountResult
unfolding result_contains_auth_file put_result cancelled_account_result
cancel_targets model lang scoped results [] = results
cancel_targets model lang scoped results (file ∷ files) =
    let item = cancelled_account_result file model lang in
    let kept =
      if result_contains_auth_file results file
      then results
      else if scoped
      then put_result results item
      else results ++ item ∷ [] in
    cancel_targets model lang scoped kept files

unfoldable pub abort_run : InspectionEngine → ℕ → InspectionEngine
unfolding cancel_targets or_lang
abort_run e now =
    let lang = or_lang e.stop_lang (or_lang e.lang zh) in
    let results = cancel_targets e.run_model lang e.run_classify_scoped e.results e.run_targets in
    let done = if e.total == 0 then length results else e.total in
    let aborted : InspectionEngine = record e {
      results = results;
      probe_done = done;
      total = done;
      running = false;
      probe_phase = "stopped";
      finished_at = some now;
      run_targets = [];
      results_gen = bump e.results_gen;
      run_id = bump e.run_id;
    } in
    if e.running then aborted else e

-- What a stop notes: the bulk apply is cancelled, and goes on draining.
unfoldable pub stop_noted : InspectionEngine → Lang → InspectionEngine
unfolding translate
stop_noted e stop_lang =
    let asked : InspectionEngine = record e { stopped = true; stop_lang = some stop_lang } in
    let cancelled : InspectionEngine = record asked {
      apply_run_id = bump e.apply_run_id;
      applying = false;
      apply_draining = true;
      apply_current = translate stop_lang "stopped";
    } in
    if e.applying then cancelled else asked

-- stopWithLang, but for the unban job.
unfoldable pub stop_with_lang : InspectionEngine → String → ℕ → InspectionEngine
unfolding resolve_stop_lang stop_noted abort_run
stop_with_lang e lang now =
    let ended = abort_run (stop_noted e (resolve_stop_lang e lang)) now in
    record ended { persist_seq = bump ended.persist_seq }

unfoldable pub is_stopped : InspectionEngine → ℕ → Bool
is_stopped e run_id = e.stopped || not (e.run_id == run_id)

-- A flush at each 25th row.
unfoldable pub flushed : InspectionEngine → ℕ → InspectionEngine
flushed e done =
    let saved : InspectionEngine = record e { persist_seq = bump e.persist_seq } in
    if done % 25 == 0 then saved else e

unfoldable pub append_result : InspectionEngine → ℕ → AccountResult → InspectionEngine
unfolding is_stopped flushed
append_result e run_id result =
    let written : InspectionEngine = record e {
      results = e.results ++ result ∷ [];
      probe_done = e.probe_done + 1;
      results_gen = bump e.results_gen;
    } in
    if is_stopped e run_id then e else flushed written written.probe_done

unfoldable pub upsert_result : InspectionEngine → ℕ → AccountResult → InspectionEngine
unfolding is_stopped flushed put_result
upsert_result e run_id result =
    let written : InspectionEngine = record e {
      results = put_result e.results result;
      probe_done = e.probe_done + 1;
      results_gen = bump e.results_gen;
    } in
    if is_stopped e run_id then e else flushed written written.probe_done

unfoldable pub replace_result : InspectionEngine → ℕ → AccountResult → InspectionEngine
unfolding is_stopped flushed put_result
replace_result e run_id result =
    let written : InspectionEngine = record e {
      results = put_result e.results result;
      retry_done = e.retry_done + 1;
      results_gen = bump e.results_gen;
    } in
    if is_stopped e run_id then e else flushed written written.retry_done

-- Whether the retry goes on, in the new state.
unfoldable pub set_retry_phase : InspectionEngine → ℕ → ℕ → ℕ → InspectionEngine × Bool
unfolding is_stopped
set_retry_phase e run_id total workers =
    let retrying : InspectionEngine = record e {
      probe_phase = "retry";
      retry_total = total;
      retry_done = 0;
      retry_workers = workers;
    } in
    if is_stopped e run_id then (e, false) else (retrying, true)

unfoldable pub finish : InspectionEngine → ℕ → ℕ → InspectionEngine
finish e run_id now =
    let finished : InspectionEngine = record e {
      running = false;
      probe_phase = "finished";
      finished_at = some now;
      last_finished_run_id = run_id;
      last_finished_list_ok = e.run_list_ok;
      last_finished_list_error = e.run_list_error;
      last_finished_full_inspect = e.run_is_full_inspect;
      last_finished_probed_keys = e.run_probed_keys;
      persist_seq = bump e.persist_seq;
    } in
    if e.run_id == run_id then finished else e

unfoldable pub note_run_list_outcome : InspectionEngine → ℕ → Bool → String → InspectionEngine
unfolding trim_space
note_run_list_outcome e run_id ok message =
    let noted : InspectionEngine = record e {
      run_list_ok = ok;
      run_list_error = if ok then "" else trim_space message;
    } in
    if e.run_id == run_id then noted else e

pub data WaitState : Type 0 where
  run_active run_finished run_superseded : WaitState

unfoldable pub inspection_run_wait_state : InspectionEngine → ℕ → WaitState
inspection_run_wait_state e run_id =
    if e.last_finished_run_id == run_id
    then run_finished
    else if e.run_id == run_id && e.running
    then run_active
    else run_superseded

pub record RunOutcome : Type 0 where
  pub list_ok : Bool
  pub list_error : String
  pub full_inspect : Bool

unfoldable pub finished_run_outcome : InspectionEngine → ℕ → Option RunOutcome
finished_run_outcome e run_id =
    let published : RunOutcome = record {
      list_ok = e.last_finished_list_ok;
      list_error = e.last_finished_list_error;
      full_inspect = e.last_finished_full_inspect;
    } in
    if e.last_finished_run_id == run_id then some published else none

unfoldable pub finished_run_probed_keys : InspectionEngine → ℕ → Option (List String)
finished_run_probed_keys e run_id =
    if e.last_finished_run_id == run_id then e.last_finished_probed_keys else none

-- What commitRunPlanLocked leaves: the state, whether the run goes on, whether it has cleared the rows.
pub record PlanAnswer : Type 0 where
  pub engine : InspectionEngine
  pub goes_on : Bool
  pub cleared : Bool

unfoldable pub planned :
    InspectionEngine
    → List HostAuthFileEntry
    → List AccountResult
    → String
    → Bool
    → InspectionEngine
unfolding probed_key_set_from_entries
planned e targets missing model scoped =
    let cleared : InspectionEngine =
      if e.full_clear_pending
      then record e { results = []; results_gen = bump e.results_gen; full_clear_pending = false }
      else e in
    record cleared {
      total = if scoped then length targets + length missing else length targets;
      run_targets = targets;
      run_probed_keys =
          if e.run_is_full_inspect
          then e.run_probed_keys
          else some (probed_key_set_from_entries targets);
      run_model = model;
      run_classify_scoped = scoped;
      probe_phase = "primary";
    }

unfoldable pub commit_run_plan :
    InspectionEngine
    → ℕ
    → List HostAuthFileEntry
    → List AccountResult
    → String
    → Bool
    → ℕ
    → PlanAnswer
unfolding planned abort_run
commit_run_plan e run_id targets missing model scoped now =
    let p = planned e targets missing model scoped in
    let stale : PlanAnswer = record { engine = e; goes_on = false; cleared = false } in
    let ended : PlanAnswer = record {
      engine = abort_run p now;
      goes_on = false;
      cleared = e.full_clear_pending;
    } in
    let on : PlanAnswer = record { engine = p; goes_on = true; cleared = e.full_clear_pending } in
    if not (e.run_id == run_id) then stale else if e.stopped then ended else on
