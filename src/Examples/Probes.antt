-- ===== src/Examples/Probes.antt =====
-- The theorems on probes, samples, versions and apply requests at concrete inputs.
use grok_inspection.Base.{
  ◌*◌, ◌/◌, min, max, ℤ, pos, leb_ℤ, ltb_ℤ, ◌==ℤ◌, String, Bool, true, false, ◌≡◌, refl, ◌↔◌, ◌⊎◌,
  List, [], ◌∷◌, some, arith,
}
use grok_inspection.Text.{is_empty, trim_space}
use grok_inspection.Json.{Body, obj, str, end, field}
use grok_inspection.Lang.{en}
use grok_inspection.Ban.Evidence.{
  is_content_safety_violation, is_strong_unauthorized_evidence, is_free_usage_exhausted,
  is_spending_limit_blocked, is_account_level_permission_denied, has_account_signal,
}
use grok_inspection.Inspect.Classify.{ClassifyInput, classify_probe, recommend_action}
use grok_inspection.Inspect.Classify.Action.{
  delete_iff, disable_grounds, enable_grounds, action-recommend_action,
}
use grok_inspection.Inspect.Sample.{
  resolve_sample_size, normalize_sample_request, refuses, ok, err, sample_percent_invalid,
  sample_auth_entries,
}
use grok_inspection.Inspect.Sample.Size.{resolve_sample_size_both, resolve-normalize}
use grok_inspection.Inspect.Sample.Draw.{IsSample, sample_auth_entries-IsSample}
use grok_inspection.Inspect.Version.{default_version, answers, fails, refreshes, acceptable_version}
use grok_inspection.Inspect.Version.Floor.{IsAtFloor, acceptable-IsAtFloor, refreshes-IsAtFloor}
use grok_inspection.Accounts.{AccountResult}
use grok_inspection.Accounts.Lookup.{resolve_account_result_by_target_id}
use grok_inspection.Accounts.Lookup.Resolved.{
  IsBest, priority, resolve_account_result_by_target_id-IsBest,
}
use grok_inspection.Accounts.Select.{ApplyRequest, ok as accepted}

abbrev probe : ℤ → String → String → Bool → ClassifyInput
probe status code error disabled = record {
  lang = en;
  chat_status = status;
  chat_code = code;
  chat_error = error;
  disabled = disabled;
  request_error = "";
}

delete_iff_example :
    ((classify_probe (probe (pos 401) "invalid_token" "" false)).action ≡ "delete") ↔ (
      (is_content_safety_violation "invalid_token" "" ≡ false)
      × ((pos 401 ==ℤ 401) ≡ true)
      × (is_strong_unauthorized_evidence "invalid_token" "" ≡ true))
delete_iff_example = delete_iff (probe (pos 401) "invalid_token" "" false)

limited_disables :
    (classify_probe (probe (pos 402) "personal-team-blocked:spending-limit" "" false)).action
    ≡ "disable"
unfolding classify_probe is_content_safety_violation is_free_usage_exhausted
    is_spending_limit_blocked
limited_disables = refl

disable_grounds_example :
    (false ≡ false)
    × (is_content_safety_violation "personal-team-blocked:spending-limit" "" ≡ false)
    × ((((pos 402 ==ℤ 401) ≡ false)
          × (is_free_usage_exhausted "personal-team-blocked:spending-limit" "" ≡ true))
        ⊎ ((((pos 402 ==ℤ 402) ≡ true)
              × (is_spending_limit_blocked "personal-team-blocked:spending-limit" "" ≡ true))
            ⊎ (((pos 402 ==ℤ 403) ≡ true)
                × (has_account_signal "personal-team-blocked:spending-limit" "" ≡ true))))
disable_grounds_example =
    disable_grounds (probe (pos 402) "personal-team-blocked:spending-limit" "" false)
      limited_disables

healthy_enables : (classify_probe (probe (pos 200) "" "" true)).action ≡ "enable"
unfolding classify_probe is_content_safety_violation is_free_usage_exhausted
    is_account_level_permission_denied
healthy_enables = refl

enable_grounds_example :
    (true ≡ true) × (leb_ℤ (pos 200) (pos 200) ≡ true) × (ltb_ℤ (pos 200) (pos 300) ≡ true)
enable_grounds_example = enable_grounds (probe (pos 200) "" "" true) healthy_enables

action-recommend_action_example :
    (classify_probe (probe (pos 200) "" "" true)).action
    ≡ recommend_action (classify_probe (probe (pos 200) "" "" true)).classification true
action-recommend_action_example = action-recommend_action (probe (pos 200) "" "" true)

abbrev names : List String
names = "a" ∷ "b" ∷ "c" ∷ []

sample_auth_entries-IsSample_example : IsSample names 2 (sample_auth_entries names (pos 2) (λ i. 1))
sample_auth_entries-IsSample_example = sample_auth_entries-IsSample names (pos 2) (λ i. 1)

resolve_sample_size_both_example :
    resolve_sample_size (pos 10) (pos 4) (pos 25) ≡ ok (min (min 4 10) (max 1 (10 * 25 / 100)))
resolve_sample_size_both_example =
    resolve_sample_size_both 10 4 25 (omega arith) (omega arith) (omega arith) (omega arith)
      (omega arith)

two_of_ten : resolve_sample_size (pos 10) (pos 4) (pos 25) ≡ ok 2
unfolding resolve_sample_size
two_of_ten = refl

resolve-normalize_example :
    (resolve_sample_size (pos 10) (pos 4) (pos 101) ≡ err sample_percent_invalid)
    ↔ (normalize_sample_request true (pos 4) (pos 101) ≡ refuses sample_percent_invalid)
resolve-normalize_example = resolve-normalize (pos 10) (pos 4) (pos 101) sample_percent_invalid

default_acceptable : acceptable_version default_version ≡ true
unfolding acceptable_version
default_acceptable = refl

abbrev npm_answer : Body
npm_answer = record { text = "{}"; decoded = some (obj (field "version" (str "1.0.47") end)) }

refreshes-IsAtFloor_example :
    IsAtFloor (refreshes default_version (fails ∷ answers (pos 200) npm_answer ∷ []))
refreshes-IsAtFloor_example =
    refreshes-IsAtFloor default_version (fails ∷ answers (pos 200) npm_answer ∷ [])
      (acceptable-IsAtFloor default_version default_acceptable)

abbrev row : String → String → String → AccountResult
row auth_index file_name action = record {
  auth_index = auth_index;
  name = "";
  file_name = file_name;
  email = "";
  file_id = "";
  file_mod_unix = pos 0;
  file_size = pos 0;
  disabled = false;
  classification = "quota_exhausted";
  action = action;
  reason = "";
  http_status = pos 429;
  model = "";
  error_code = "";
  error_message = "";
  ban_error_code = "";
}

abbrev rows : List AccountResult
rows = row "1" "2" "keep" ∷ row "2" "3" "disable" ∷ []

two_named : is_empty (trim_space "2") ≡ false
unfolding is_empty trim_space
two_named = refl

resolve_account_result_by_target_id-IsBest_example :
    IsBest (priority (trim_space "2")) rows (resolve_account_result_by_target_id rows "2")
resolve_account_result_by_target_id-IsBest_example =
    resolve_account_result_by_target_id-IsBest rows "2" two_named

abbrev enable_all : ApplyRequest
enable_all = record {
  auth_indexes = [];
  actions = [];
  classifications = "quota_exhausted" ∷ [];
  force_action = "Enable";
  ban_error_code = "";
}
