-- ===== src/Engine/Jobs.antt =====
-- apply_run.go: the start and the end of a bulk apply and of a row action. What the workers do to the
-- accounts between the two is not part of this module.
use grok_inspection.Base.{
  ℕ, ◌+◌, ◌-◌, ◌%◌, ◌==◌, ltb, String, Bool, true, false, not, ◌&&◌, ◌||◌, List, [], ◌∷◌, ◌++◌,
  length, Option, none, some, if◌then◌else◌,
}
use grok_inspection.Text.{str_eq, is_empty, trim_space, first_non_empty, concat}
use grok_inspection.Lang.{Lang, normalize_lang, translate}
use grok_inspection.Inspect.Sample.{take}
use grok_inspection.Ban.Evidence.{manual_inspection_ban_error_code}
use grok_inspection.Accounts.{AccountResult}
use grok_inspection.Accounts.Lookup.{lookup_result_for_disable, disable_action_target_name}
use grok_inspection.Accounts.Select.{
  ApplyRequest, ApplyError, Candidates, force_action_invalid, force_action_requires_targets,
  collect_candidates, inspection_disable_ban_error_code,
}
use grok_inspection.Accounts.Select.Candidates.{ok, err}
use grok_inspection.Engine.State.{InspectionEngine, UnbanJobState, RowActionReport, Refusal, bump}
use grok_inspection.Engine.Start.{refusal}

apply_error : ApplyError → Refusal
apply_error force_action_invalid = refusal 400 "force_action_invalid"
apply_error force_action_requires_targets = refusal 400 "force_action_requires_targets"

unfoldable pub apply_busy : InspectionEngine → UnbanJobState → Option Refusal
apply_busy e job =
    if e.shutting_down
    then some (refusal 503 "busy_generic")
    else if e.running || e.applying || e.apply_draining || ltb 0 e.action_in_flight
    then some (refusal 409 "busy_generic")
    else if job.running
    then some (refusal 409 "busy_unban")
    else none

unfoldable pub begin_apply : InspectionEngine → Lang → List AccountResult → InspectionEngine
begin_apply e lang candidates = record e {
  applying = true;
  apply_run_id = bump e.apply_run_id;
  apply_lang = some lang;
  apply_done = 0;
  apply_total = length candidates;
  apply_current = "";
  apply_failures = [];
}

-- The new state, the apply's id and its rows, or the error.
pub data ApplyAnswer : Type 0 where
  applies : InspectionEngine → ℕ → List AccountResult → ApplyAnswer
  apply_refused : Refusal → ApplyAnswer

unfoldable pub apply_candidates :
    InspectionEngine → Lang → String → List AccountResult → ApplyAnswer
unfolding begin_apply is_empty trim_space
apply_candidates e lang force [] =
    if is_empty (trim_space force)
    then apply_refused (refusal 409 "no_recommended_actions")
    else apply_refused (refusal 400 "no_accounts_matched")
apply_candidates e lang force (c ∷ cs) =
    applies (begin_apply e lang (c ∷ cs)) (bump e.apply_run_id) (c ∷ cs)

unfoldable pub apply_unless : Option Refusal → ApplyAnswer → ApplyAnswer
apply_unless none a = a
apply_unless (some r) a = apply_refused r

unfoldable pub apply_chosen : InspectionEngine → Lang → String → Candidates → ApplyAnswer
unfolding apply_candidates apply_error
apply_chosen e lang force (err x) = apply_refused (apply_error x)
apply_chosen e lang force (ok cs) = apply_candidates e lang force cs

unfoldable pub start_apply : InspectionEngine → UnbanJobState → String → ApplyRequest → ApplyAnswer
unfolding apply_unless apply_busy apply_chosen collect_candidates normalize_lang
start_apply e job lang req =
    apply_unless (apply_busy e job)
      (apply_chosen e (normalize_lang lang) req.force_action (collect_candidates e.results req))

unfoldable pub is_apply_active : InspectionEngine → ℕ → Bool
is_apply_active e apply_id = e.applying && e.apply_run_id == apply_id

-- The progress of one row, or of a batch of deletes, unless the apply has been stopped since. The rows
-- are flushed at each 25th, and after the last batch.
unfoldable pub note_applied : InspectionEngine → ℕ → ℕ → List String → Bool → InspectionEngine
note_applied e apply_id done failures is_last =
    let noted : InspectionEngine = record e {
      apply_done = e.apply_done + done;
      apply_failures = take 20 (e.apply_failures ++ failures);
    } in
    let saved : InspectionEngine = record noted { persist_seq = bump e.persist_seq } in
    if e.apply_run_id == apply_id
    then (if (e.apply_done + done) % 25 == 0 || is_last then saved else noted)
    else e

-- The deferred end of runApply; `save_failure` is the message of a failed save of the bans.
unfoldable pub end_apply : InspectionEngine → ℕ → Lang → Option String → InspectionEngine
unfolding str_eq translate
end_apply e apply_id lang save_failure =
    let failures : List String = elim save_failure [
      | none ↦ e.apply_failures
      | some m ↦ take 20 (e.apply_failures ++ m ∷ [])
    ] in
    record e {
      apply_failures = failures;
      apply_current =
          if e.apply_run_id == apply_id && not (str_eq e.apply_current (translate lang "stopped"))
          then ""
          else e.apply_current;
      apply_draining = false;
      applying = false;
      persist_seq = bump e.persist_seq;
    }

pub record ActionRequest : Type 0 where
  pub lang : String
  pub auth_index : String
  pub name : String
  pub disabled : Bool
  pub delete : Bool

-- What the worker of a row action is told to do.
pub record ActionTask : Type 0 where
  pub seq : ℕ
  pub key : String
  pub action : String
  pub target : String
  pub ban_code : String

pub data ActionAnswer : Type 0 where
  acts : InspectionEngine → ActionTask → ActionAnswer
  action_refused : Refusal → ActionAnswer

unfoldable pub action_busy : InspectionEngine → UnbanJobState → Option Refusal
action_busy e job =
    if e.shutting_down
    then some (refusal 503 "busy_generic")
    else if e.running
    then some (refusal 409 "busy_inspection")
    else if e.applying || e.apply_draining
    then some (refusal 409 "busy_apply")
    else if job.running
    then some (refusal 409 "busy_unban")
    else none

action_word : ActionRequest → String
action_word req = if req.delete then "delete" else if req.disabled then "disable" else "enable"

-- The target's name and the reason of the ban, for a disable from the row.
aimed : String → Option AccountResult → String × String
unfolding disable_action_target_name is_empty inspection_disable_ban_error_code
aimed name none = (name, manual_inspection_ban_error_code)
aimed name (some item) =
    let target = disable_action_target_name item in
    (if is_empty target then name else target, inspection_disable_ban_error_code item)

unfoldable pub action_task : InspectionEngine → ActionRequest → String → ActionTask
unfolding action_word aimed lookup_result_for_disable first_non_empty
action_task e req name =
    let plain : String × String = (name, manual_inspection_ban_error_code) in
    let found = aimed name (lookup_result_for_disable e.results name req.auth_index) in
    let chosen = if req.disabled && not req.delete then found else plain in
    record {
      seq = bump e.action_seq;
      key = first_non_empty (req.auth_index ∷ req.name ∷ name ∷ []);
      action = action_word req;
      target = chosen.0;
      ban_code = chosen.1;
    }

unfoldable pub begin_action : InspectionEngine → InspectionEngine
begin_action e = record e {
  action_seq = bump e.action_seq;
  action_in_flight = e.action_in_flight + 1;
}

unfoldable pub action_unless : Option Refusal → ActionAnswer → ActionAnswer
action_unless none a = a
action_unless (some r) a = action_refused r

unfoldable pub start_action : InspectionEngine → UnbanJobState → ActionRequest → ActionAnswer
unfolding action_unless action_busy action_task begin_action first_non_empty is_empty
start_action e job req =
    let name = first_non_empty (req.name ∷ req.auth_index ∷ []) in
    if is_empty name
    then action_refused (refusal 400 "name_or_auth_required")
    else action_unless (action_busy e job) (acts (begin_action e) (action_task e req name))

-- The newest reports, of which `max` are kept.
newest : ℕ → List RowActionReport → List RowActionReport
newest max [] = []
newest max (r ∷ rs) = let rest = newest max rs in if ltb max (length (r ∷ rs)) then rest else r ∷ rs

-- The end of a row action, with the error that it ended with.
unfoldable pub end_action : InspectionEngine → ActionTask → Option String → InspectionEngine
unfolding newest concat
end_action e task error =
    let report : RowActionReport = elim error [
      | none ↦ record {
        seq = task.seq;
        key = task.key;
        action = task.action;
        ok = true;
        error = "";
      }
      | some m ↦ record {
        seq = task.seq;
        key = task.key;
        action = task.action;
        ok = false;
        error = m;
      }
    ] in
    let reported : InspectionEngine = record e {
      action_in_flight = e.action_in_flight - 1;
      recent_row_actions = newest 32 (e.recent_row_actions ++ report ∷ []);
    } in
    elim error [
      | none ↦ reported
      | some m ↦ record reported {
        apply_failures = take 20 (concat (task.target ∷ ": " ∷ m ∷ []) ∷ reported.apply_failures);
        persist_seq = bump reported.persist_seq;
      }
    ]
