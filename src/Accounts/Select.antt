-- ===== src/Accounts/Select.antt =====
-- apply_run.go: the rows that an apply request acts on (collectCandidates, itemSelected,
-- normalizeForceAction, inspectionDisableBanErrorCode).
pub mod Chosen
use grok_inspection.Base.{
  String, Bool, true, false, not, ◌&&◌, ◌||◌, List, [], ◌∷◌, Option, none, some, if◌then◌else◌,
}
use grok_inspection.Text.{str_eq, is_empty, trim_space, lower}
use grok_inspection.Ban.Evidence.{exhausted_error_code, manual_inspection_ban_error_code}
use grok_inspection.Accounts.{AccountResult, has, string_set}
use grok_inspection.Accounts.Lookup.{collect_accounts_by_target_ids}

-- The fields of the request that choose the rows.
pub record ApplyRequest : Type 0 where
  pub auth_indexes : List String
  pub actions : List String
  pub classifications : List String
  pub force_action : String
  pub ban_error_code : String

-- The keys of the messages of a 400 answer.
pub data ApplyError : Type 0 where
  force_action_invalid force_action_requires_targets : ApplyError

pub data Candidates : Type 0 where
  ok : List AccountResult → Candidates
  err : ApplyError → Candidates

unfoldable pub normalize_force_action : String → Option String
unfolding lower has
normalize_force_action value =
    let v = lower value in
    if has v ("" ∷ "disable" ∷ "enable" ∷ "delete" ∷ []) then some v else none

-- The length of a set decides only whether it is empty.
unfoldable pub none_named : List String → Bool
none_named [] = true
none_named (x ∷ xs) = false

unfoldable pub item_selected : AccountResult → List String → List String → Bool
unfolding has none_named
item_selected item index_set class_set =
    if not (none_named class_set) && not (has item.classification class_set)
    then false
    else if none_named index_set
    then true
    else has item.auth_index index_set
      || has item.name index_set
      || has item.file_name index_set
      || has item.email index_set

unfoldable pub inspection_disable_ban_error_code : AccountResult → String
unfolding str_eq trim_space
inspection_disable_ban_error_code item =
    if str_eq (trim_space item.classification) "quota_exhausted"
      && str_eq (trim_space item.error_code) exhausted_error_code
    then exhausted_error_code
    else manual_inspection_ban_error_code

with_action : AccountResult → String → String → AccountResult
with_action item action code = record {
  auth_index = item.auth_index;
  name = item.name;
  file_name = item.file_name;
  email = item.email;
  file_id = item.file_id;
  file_mod_unix = item.file_mod_unix;
  file_size = item.file_size;
  disabled = item.disabled;
  classification = item.classification;
  action = action;
  reason = item.reason;
  http_status = item.http_status;
  model = item.model;
  error_code = item.error_code;
  error_message = item.error_message;
  ban_error_code = code;
}

-- The row as an apply with a forced action acts on it.
forced : ApplyRequest → String → AccountResult → AccountResult
unfolding with_action inspection_disable_ban_error_code is_empty trim_space str_eq
forced req force item =
    let asked = trim_space req.ban_error_code in
    let code = if is_empty asked then inspection_disable_ban_error_code item else asked in
    with_action item force (if str_eq force "disable" then code else item.ban_error_code)

-- The row as an apply of the recommended actions acts on it.
with_reason : AccountResult → AccountResult
unfolding with_action inspection_disable_ban_error_code str_eq
with_reason item = with_action item item.action (
    if str_eq item.action "disable"
    then inspection_disable_ban_error_code item
    else item.ban_error_code)

recommended : List String → AccountResult → Option AccountResult
unfolding with_reason has none_named
recommended action_set item =
    if not (has item.action ("disable" ∷ "enable" ∷ "delete" ∷ []))
    then none
    else if not (none_named action_set) && not (has item.action action_set)
    then none
    else some (with_reason item)

-- One pass of the loop over the rows; none for `continue`.
candidate : ApplyRequest → String → AccountResult → Option AccountResult
unfolding item_selected forced recommended string_set none_named has is_empty
candidate req force item =
    let index_set = string_set req.auth_indexes in
    let class_set = string_set req.classifications in
    let in_class = none_named class_set || has item.classification class_set in
    let chosen =
      if none_named index_set then item_selected item index_set class_set else in_class in
    if not chosen
    then none
    else if not (is_empty force)
    then some (forced req force item)
    else recommended (string_set req.actions) item

candidates : ApplyRequest → String → List AccountResult → List AccountResult
unfolding candidate
candidates req force [] = []
candidates req force (item ∷ items) = elim (candidate req force item) [
  | none ↦ candidates req force items
  | some c ↦ c ∷ candidates req force items
]

base_rows : List AccountResult → ApplyRequest → List AccountResult
unfolding collect_accounts_by_target_ids string_set none_named
base_rows results req =
    if none_named (string_set req.auth_indexes)
    then results
    else collect_accounts_by_target_ids results req.auth_indexes

collect_with : List AccountResult → ApplyRequest → Option String → Candidates
unfolding candidates base_rows string_set none_named is_empty
collect_with results req none = err force_action_invalid
collect_with results req (some force) =
    if not (is_empty force)
      && none_named (string_set req.auth_indexes)
      && none_named (string_set req.classifications)
    then err force_action_requires_targets
    else ok (candidates req force (base_rows results req))

unfoldable pub collect_candidates : List AccountResult → ApplyRequest → Candidates
unfolding collect_with normalize_force_action
collect_candidates results req = collect_with results req (normalize_force_action req.force_action)
