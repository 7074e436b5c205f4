-- ===== src/Schedule/Progress.antt =====
-- inspection_schedule.go: which rows the targets of a scheduled action stand for before it begins, how
-- many of them it has changed as it should, and the status of the whole run.
use grok_inspection.Base.{
  ℕ, suc, ◌-◌, ltb, ◌==◌, String, Bool, true, false, not, ◌||◌, List, [], ◌∷◌, length, Option, none,
  some, if◌then◌else◌,
}
use grok_inspection.Text.{str_eq, is_empty, trim_space, concat}
use grok_inspection.Accounts.{AccountResult, find}
use grok_inspection.Accounts.Lookup.{resolve_account_result_by_target_id}
use grok_inspection.Ban.Store.{Store}
use grok_inspection.Schedule.Targets.{account_has_any_matching_ban}

-- strings.Join
unfoldable pub join : String → List String → String
unfolding concat
join sep [] = ""
join sep (s ∷ []) = s
join sep (s ∷ t ∷ ss) = concat (s ∷ sep ∷ join sep (t ∷ ss) ∷ [])

unfoldable pub account_result_stable_id : AccountResult → String
unfolding join trim_space
account_result_stable_id item = join "\u{1e}" (
    trim_space item.auth_index
    ∷ trim_space item.file_name
    ∷ trim_space item.file_id
    ∷ trim_space item.name
    ∷ trim_space item.email
    ∷ [])

-- `row` holds the fields of the row that the target resolves to, and none where it resolves to none.
pub record ScheduledTargetIdentity : Type 0 where
  pub token : String
  pub stable_id : String
  pub row : Option AccountResult

identity_of : String → Option AccountResult → ScheduledTargetIdentity
unfolding account_result_stable_id
identity_of token none = record { token = token; stable_id = ""; row = none }
identity_of token (some item) = record {
  token = token;
  stable_id = account_result_stable_id item;
  row = some item;
}

unfoldable pub build_scheduled_target_identities :
    List AccountResult → List String → List ScheduledTargetIdentity
unfolding identity_of resolve_account_result_by_target_id trim_space
build_scheduled_target_identities results [] = []
build_scheduled_target_identities results (token ∷ tokens) =
    let t = trim_space token in
    identity_of t (resolve_account_result_by_target_id results t)
    ∷ build_scheduled_target_identities results tokens

unfoldable pub find_account_result_by_stable_id : List AccountResult → String → Option AccountResult
unfolding find account_result_stable_id str_eq is_empty trim_space
find_account_result_by_stable_id results stable_id =
    if is_empty (trim_space stable_id)
    then none
    else find (λ item. str_eq (account_result_stable_id item) stable_id) results

is_disabled_row : Option AccountResult → Bool
is_disabled_row none = false
is_disabled_row (some item) = item.disabled

is_gone : Option AccountResult → Bool
is_gone none = true
is_gone (some item) = false

is_recovered : Store → Option AccountResult → Bool
unfolding account_has_any_matching_ban
is_recovered s none = false
is_recovered s (some item) = not (item.disabled || account_has_any_matching_ban s item)

-- The rows and the bans are those after the action.
unfoldable pub is_success : List AccountResult → Store → String → ScheduledTargetIdentity → Bool
unfolding find_account_result_by_stable_id is_gone is_disabled_row is_recovered str_eq is_empty
is_success results s action id =
    let found = find_account_result_by_stable_id results id.stable_id in
    if is_gone id.row || is_empty id.stable_id
    then false
    else if str_eq action "delete"
    then is_gone found
    else if str_eq action "disable"
    then is_disabled_row found
    else if str_eq action "enable"
    then is_recovered s found
    else false

unfoldable pub scheduled_action_success_count_identities :
    List AccountResult → Store → String → List ScheduledTargetIdentity → ℕ
unfolding is_success
scheduled_action_success_count_identities results s action [] = 0
scheduled_action_success_count_identities results s action (id ∷ ids) =
    let rest = scheduled_action_success_count_identities results s action ids in
    if is_success results s action id then suc rest else rest

-- What one action of the run has come to; `disabled` also counts the accounts that it enabled.
pub record Tally : Type 0 where
  pub matched : ℕ
  pub disabled : ℕ
  pub deleted : ℕ
  pub failed : ℕ

abbrev pub no_tally : Tally
no_tally = record { matched = 0; disabled = 0; deleted = 0; failed = 0 }

unfoldable pub record_scheduled_action_progress_identities :
    List AccountResult → Store → String → List ScheduledTargetIdentity → Tally → Tally
unfolding scheduled_action_success_count_identities str_eq
record_scheduled_action_progress_identities results s action ids t =
    let succeeded = scheduled_action_success_count_identities results s action ids in
    let counted : Tally = record t { failed = length ids - succeeded } in
    let removed : Tally = record counted { deleted = succeeded } in
    let switched : Tally = record counted { disabled = succeeded } in
    if str_eq action "delete" then removed else switched

unfoldable pub schedule_action_errors_present : List String → Bool
unfolding is_empty trim_space
schedule_action_errors_present [] = false
schedule_action_errors_present (e ∷ es) =
    let rest = schedule_action_errors_present es in
    if not (is_empty (trim_space e)) then true else rest

unfoldable pub scheduled_completion_status : ℕ → ℕ → List String → String
unfolding schedule_action_errors_present
scheduled_completion_status matched failed errors =
    if matched == 0
    then "completed"
    else if ltb 0 failed || schedule_action_errors_present errors
    then "completed_with_errors"
    else "completed"
