-- ===== src/Engine/State.antt =====
-- engine_types.go, ban_unban_job.go: the state of the engine and that of the unban job. Times are
-- those of the model's clock, none for the zero time; none stands for an empty language. A uint64
-- wraps.
use grok_inspection.Base.{
  ℕ, ◌+◌, ◌%◌, ◌^◌, ℤ, pos, negsuc, ◌/◌, ltb, String, Bool, false, List, [], Option, none,
  if◌then◌else◌,
}
use grok_inspection.Lang.{Lang}
use grok_inspection.Accounts.{HostAuthFileEntry, AccountResult}

pub record RowActionReport : Type 0 where
  pub seq : ℕ
  pub key : String
  pub action : String
  pub ok : Bool
  pub error : String

-- The fields that the calls below read or write.
pub record InspectionEngine : Type 0 where
  pub lang : Option Lang
  pub apply_lang : Option Lang
  pub stop_lang : Option Lang
  pub running : Bool
  pub stopped : Bool
  pub shutting_down : Bool
  pub applying : Bool
  pub apply_draining : Bool
  pub apply_run_id : ℕ
  pub persist_seq : ℕ
  pub action_in_flight : ℕ
  pub action_seq : ℕ
  pub recent_row_actions : List RowActionReport
  pub incremental : Bool
  pub sample_mode : Bool
  pub sample_count : ℤ
  pub sample_percent : ℤ
  pub classifications : List String
  pub run_id : ℕ
  pub workers : ℤ
  pub include_disabled : Bool
  pub only_disabled : Bool
  pub total : ℕ
  pub probe_done : ℕ
  pub probe_phase : String
  pub retry_done : ℕ
  pub retry_total : ℕ
  pub retry_workers : ℕ
  pub results : List AccountResult
  pub apply_done : ℕ
  pub apply_total : ℕ
  pub apply_current : String
  pub apply_failures : List String
  pub results_gen : ℕ
  pub started_at : Option ℕ
  pub finished_at : Option ℕ
  pub run_targets : List HostAuthFileEntry
  pub run_model : String
  pub run_classify_scoped : Bool
  pub full_clear_pending : Bool
  pub run_is_full_inspect : Bool
  pub run_list_ok : Bool
  pub run_list_error : String
  pub run_probed_keys : Option (List String)
  pub last_finished_run_id : ℕ
  pub last_finished_list_ok : Bool
  pub last_finished_list_error : String
  pub last_finished_full_inspect : Bool
  pub last_finished_probed_keys : Option (List String)

pub record UnbanJobState : Type 0 where
  pub run_id : ℕ
  pub running : Bool
  pub stopped : Bool
  pub mode : String
  pub done : ℕ
  pub total : ℤ
  pub enabled : ℕ
  pub missing : ℕ
  pub deleted : ℕ
  pub failed : ℕ
  pub current : String
  pub failures : List String
  pub persist_error : String
  pub started_at : Option ℕ
  pub finished : Option ℕ

-- x++ on a uint64.
abbrev pub bump : ℕ → ℕ
bump x = (x + 1) % 2 ^ 64

abbrev pub new_engine : InspectionEngine
new_engine = record {
  lang = none;
  apply_lang = none;
  stop_lang = none;
  running = false;
  stopped = false;
  shutting_down = false;
  applying = false;
  apply_draining = false;
  apply_run_id = 0;
  persist_seq = 0;
  action_in_flight = 0;
  action_seq = 0;
  recent_row_actions = [];
  incremental = false;
  sample_mode = false;
  sample_count = pos 0;
  sample_percent = pos 0;
  classifications = [];
  run_id = 0;
  workers = pos 6;
  include_disabled = false;
  only_disabled = false;
  total = 0;
  probe_done = 0;
  probe_phase = "";
  retry_done = 0;
  retry_total = 0;
  retry_workers = 0;
  results = [];
  apply_done = 0;
  apply_total = 0;
  apply_current = "";
  apply_failures = [];
  results_gen = 0;
  started_at = none;
  finished_at = none;
  run_targets = [];
  run_model = "";
  run_classify_scoped = false;
  full_clear_pending = false;
  run_is_full_inspect = false;
  run_list_ok = false;
  run_list_error = "";
  run_probed_keys = none;
  last_finished_run_id = 0;
  last_finished_list_ok = false;
  last_finished_list_error = "";
  last_finished_full_inspect = false;
  last_finished_probed_keys = none;
}

abbrev pub new_unban_job : UnbanJobState
new_unban_job = record {
  run_id = 0;
  running = false;
  stopped = false;
  mode = "";
  done = 0;
  total = pos 0;
  enabled = 0;
  missing = 0;
  deleted = 0;
  failed = 0;
  current = "";
  failures = [];
  persist_error = "";
  started_at = none;
  finished = none;
}

-- An error of a call: its HTTP status, 0 for a plain error, and the key of its message, or the text
-- of a plain one.
pub record Refusal : Type 0 where
  pub status : ℕ
  pub key : String

unfoldable pub slow_retry_workers : ℤ → ℕ
slow_retry_workers (negsuc n) = 1
slow_retry_workers (pos n) =
    let retry_workers = (n + 1) / 2 in
    if ltb retry_workers 1 then 1 else if ltb 8 retry_workers then 8 else retry_workers
