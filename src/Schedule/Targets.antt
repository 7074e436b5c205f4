-- ===== src/Schedule/Targets.antt =====
-- inspection_schedule.go, inspection_schedule_dispose.go: the accounts that a scheduled run disables,
-- deletes or enables. A scope is none where the run covered the whole list of accounts.
pub mod Exact
use grok_inspection.Base.{
  ℕ, ◌==ℤ◌, ◌==◌, String, Bool, true, false, not, ◌&&◌, ◌||◌, List, [], ◌∷◌, Option, none, some,
  if◌then◌else◌,
}
use grok_inspection.Text.{str_eq, lower, is_empty, trim_space, first_non_empty}
use grok_inspection.Time.{after}
use grok_inspection.Accounts.{AccountResult, result_in_probed_scope}
use grok_inspection.Accounts.Aliases.{host_auth_from_account_result}
use grok_inspection.Ban.Evidence.{
  exhausted_error_code, permission_denied_error_code, spending_limit_error_code,
  unauthorized_error_code,
}
use grok_inspection.Ban.Detector.{BanEntry}
use grok_inspection.Ban.Store.{Store}
use grok_inspection.Ban.Aliases.{list_bans_matching_target}

unfoldable pub in_scope : Option (List String) → AccountResult → Bool
unfolding result_in_probed_scope
in_scope none item = true
in_scope (some keys) item = result_in_probed_scope keys item

-- The id under which an account is asked for.
unfoldable pub target_of : AccountResult → String
unfolding first_non_empty
target_of item = first_non_empty (item.auth_index ∷ item.file_name ∷ item.name ∷ item.email ∷ [])

-- The tests of the loop, in its order.
unfoldable pub is_target :
    ℕ → String → String → String → Option (List String) → AccountResult → Bool
unfolding in_scope lower str_eq
is_target status classification error_code action scope item =
    if not (in_scope scope item)
    then false
    else if not (item.http_status ==ℤ status) || not (str_eq item.classification classification)
    then false
    else if not (str_eq (lower item.error_code) (lower error_code))
    then false
    else not (str_eq action "disable" && item.disabled)

unfoldable pub scheduled_targets_match :
    List AccountResult → ℕ → String → String → String → Option (List String) → List String
unfolding is_target target_of is_empty
scheduled_targets_match [] status classification error_code action scope = []
scheduled_targets_match (item ∷ results) status classification error_code action scope =
    let rest = scheduled_targets_match results status classification error_code action scope in
    if not (is_target status classification error_code action scope item)
    then rest
    else if is_empty (target_of item)
    then rest
    else target_of item ∷ rest

abbrev pub scheduled_permission_denied_targets :
    List AccountResult → String → Option (List String) → List String
scheduled_permission_denied_targets results action scope =
    scheduled_targets_match results 403 "permission_denied" permission_denied_error_code action
      scope

abbrev pub scheduled_spending_limit_targets :
    List AccountResult → String → Option (List String) → List String
scheduled_spending_limit_targets results action scope =
    scheduled_targets_match results 402 "spending_limit" spending_limit_error_code action scope

abbrev pub scheduled_quota_exhausted_targets :
    List AccountResult → String → Option (List String) → List String
scheduled_quota_exhausted_targets results action scope =
    scheduled_targets_match results 429 "quota_exhausted" exhausted_error_code action scope

abbrev pub scheduled_unauthorized_targets :
    List AccountResult → String → Option (List String) → List String
scheduled_unauthorized_targets results action scope =
    scheduled_targets_match results 401 "reauth" unauthorized_error_code action scope

unfoldable pub matching_bans_for_account_result : Store → AccountResult → List BanEntry
unfolding list_bans_matching_target host_auth_from_account_result first_non_empty
matching_bans_for_account_result s item =
    list_bans_matching_target s (host_auth_from_account_result item)
      (first_non_empty (item.file_name ∷ item.auth_index ∷ item.name ∷ item.email ∷ []))

all_expired : List BanEntry → ℕ → Bool
unfolding str_eq trim_space
all_expired [] now = true
all_expired (e ∷ es) now =
    let rest = all_expired es now in
    if not (str_eq (trim_space e.error_code) exhausted_error_code)
      || e.reset_at == 0
      || after e.reset_at now
    then false
    else rest

all_exhausted : List BanEntry → Bool
unfolding str_eq trim_space
all_exhausted [] = true
all_exhausted (e ∷ es) =
    let rest = all_exhausted es in
    if not (str_eq (trim_space e.error_code) exhausted_error_code) then false else rest

is_none : List BanEntry → Bool
is_none [] = true
is_none (e ∷ es) = false

unfoldable pub account_has_expired_exact_quota_exhaustion_bans : Store → AccountResult → ℕ → Bool
unfolding matching_bans_for_account_result all_expired is_none
account_has_expired_exact_quota_exhaustion_bans s item now =
    let bans = matching_bans_for_account_result s item in
    if is_none bans then false else all_expired bans now

unfoldable pub account_has_only_exact_quota_exhaustion_bans : Store → AccountResult → Bool
unfolding matching_bans_for_account_result all_exhausted is_none
account_has_only_exact_quota_exhaustion_bans s item =
    let bans = matching_bans_for_account_result s item in
    if is_none bans then false else all_exhausted bans

unfoldable pub account_has_any_matching_ban : Store → AccountResult → Bool
unfolding matching_bans_for_account_result is_none
account_has_any_matching_ban s item = not (is_none (matching_bans_for_account_result s item))

unfoldable pub scheduled_healthy_recover_targets :
    Store → List AccountResult → Option (List String) → ℕ → List String
unfolding in_scope account_has_expired_exact_quota_exhaustion_bans target_of is_empty str_eq
    trim_space
scheduled_healthy_recover_targets s [] scope now = []
scheduled_healthy_recover_targets s (item ∷ results) scope now =
    let rest = scheduled_healthy_recover_targets s results scope now in
    if not (in_scope scope item)
    then rest
    else if not item.disabled
    then rest
    else if not (str_eq (trim_space item.classification) "healthy")
    then rest
    else if not (account_has_expired_exact_quota_exhaustion_bans s item now)
    then rest
    else if is_empty (target_of item)
    then rest
    else target_of item ∷ rest
