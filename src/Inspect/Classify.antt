-- ===== src/Inspect/Classify.antt =====
-- classify.go: what the answer of a probe says of an account (classifyProbe), the advice for a
-- classification (recommendAction), and the choice of the accounts to probe (shouldInspectEntry).
pub mod Action
use grok_inspection.Base.{
  ℤ, pos, negsuc, ltb_ℤ, leb_ℤ, ◌==ℤ◌, String, Bool, true, false, not, ◌&&◌, ◌||◌, List, [], ◌∷◌,
  if◌then◌else◌,
}
use grok_inspection.Text.{
  str_eq, is_empty, lower, trim_space, has_prefix, concat, contains_any, first_non_empty,
  truncate_err_message,
}
use grok_inspection.Text.Numbers.{show_int}
use grok_inspection.Lang.{Lang, translate}
use grok_inspection.Ban.Evidence.{
  blob, is_content_safety_violation, is_strong_unauthorized_evidence, is_free_usage_exhausted,
  is_spending_limit_blocked, is_account_level_permission_denied,
}

unfoldable pub is_xai_entry : String → String → String → Bool
unfolding lower str_eq has_prefix
is_xai_entry provider name entry_type =
    let p = lower provider in
    let t = lower entry_type in
    let n = lower name in
    if str_eq p "xai" || str_eq p "x-ai" || str_eq p "grok"
    then true
    else if str_eq t "xai" || str_eq t "x-ai" || str_eq t "grok"
    then true
    else has_prefix n "xai-" || has_prefix n "grok-"

unfoldable pub is_disabled_entry : Bool → String → Bool
unfolding lower str_eq
is_disabled_entry disabled status =
    let s = lower status in if disabled then true else str_eq s "disabled" || str_eq s "inactive"

unfoldable pub should_inspect_entry : String → String → String → Bool → String → Bool → Bool → Bool
unfolding is_xai_entry is_disabled_entry
should_inspect_entry provider name entry_type disabled status include_disabled only_disabled =
    let is_disabled = is_disabled_entry disabled status in
    if not (is_xai_entry provider name entry_type)
    then false
    else if only_disabled
    then is_disabled
    else if not include_disabled && is_disabled
    then false
    else true

-- The advice for a classification; used again after a forced enable or disable.
unfoldable pub recommend_action : String → Bool → String
unfolding str_eq trim_space
recommend_action classification disabled =
    let c = trim_space classification in
    if str_eq c "healthy"
    then (if disabled then "enable" else "keep")
    else if str_eq c "quota_exhausted" || str_eq c "permission_denied" || str_eq c "spending_limit"
    then (if disabled then "keep" else "disable")
    else if str_eq c "reauth"
    then "delete"
    else "keep"

pub record ClassifyInput : Type 0 where
  pub lang : Lang
  pub chat_status : ℤ
  pub chat_code : String
  pub chat_error : String
  pub disabled : Bool
  pub request_error : String

pub record ClassifyResult : Type 0 where
  pub classification : String
  pub action : String
  pub reason : String

abbrev result : String → String → String → ClassifyResult
result classification action reason = record {
  classification = classification;
  action = action;
  reason = reason;
}

-- fmt.Sprintf("%s (HTTP %d)", reason, status)
unfoldable pub with_status : String → ℤ → String
unfolding concat show_int
with_status reason status = concat (reason ∷ " (HTTP " ∷ show_int status ∷ ")" ∷ [])

-- The probe's own words, or the generic failure.
unfoldable pub own_reason : ClassifyInput → String
unfolding trim_space first_non_empty translate
own_reason input = trim_space (
    first_non_empty (input.chat_error ∷ input.chat_code ∷ translate input.lang "probe_failed" ∷ []))

or_failed : Lang → String → String
or_failed lang reason = if is_empty reason then translate lang "probe_failed" else reason

-- HTTP 426: the probe's client is too old.
outdated_reason : ClassifyInput → String
unfolding trim_space first_non_empty translate concat truncate_err_message is_empty
outdated_reason input =
    let detail = trim_space (first_non_empty (input.chat_error ∷ input.chat_code ∷ [])) in
    let base = translate input.lang "client_version_outdated" in
    if is_empty detail then base else concat (base ∷ ": " ∷ truncate_err_message detail 200 ∷ [])

-- The reason of a probe that failed with no better one.
failed_reason : ClassifyInput → String
unfolding trim_space is_empty translate with_status
failed_reason input =
    let reason = trim_space input.request_error in
    let base = translate input.lang "probe_failed" in
    let numbered =
      if ltb_ℤ (pos 0) input.chat_status then with_status base input.chat_status else base in
    if is_empty reason then numbered else reason

unfoldable pub classify_probe : ClassifyInput → ClassifyResult
unfolding own_reason or_failed outdated_reason failed_reason
classify_probe input =
    let status = input.chat_status in
    let code = input.chat_code in
    let message = input.chat_error in
    let lang = input.lang in
    let disable = if input.disabled then "keep" else "disable" in
    if is_content_safety_violation code message
    then result "probe_error" "keep"
        (if ltb_ℤ (pos 0) status then with_status (own_reason input) status else own_reason input)
    else if status ==ℤ 401
    then (if is_strong_unauthorized_evidence code message
        then result "reauth" "delete" (translate lang "auth_expired")
        else result "probe_error" "keep" (with_status (or_failed lang (own_reason input)) status))
    else if is_free_usage_exhausted code message
    then result "quota_exhausted" disable (translate lang "quota_exhausted")
    else if status ==ℤ 429
    then result "probe_error" "keep" (translate lang "temp_rate_limited")
    else if status ==ℤ 402 && is_spending_limit_blocked code message
    then result "spending_limit" disable (with_status (translate lang "spending_limit") status)
    else if status ==ℤ 426
    then result "probe_error" "keep" (with_status (outdated_reason input) status)
    else if not (status ==ℤ 402) && is_account_level_permission_denied status code message
    then result "permission_denied" disable (
        if ltb_ℤ (pos 0) status
        then with_status (translate lang "permission_denied") status
        else translate lang "permission_denied")
    else if status ==ℤ 403
    then result "probe_error" "keep" (with_status (or_failed lang (own_reason input)) status)
    else if status ==ℤ 404
        || contains_any (blob code message)
            ("not-found" ∷ "does not exist" ∷ "no access to it" ∷ [])
    then result "model_unavailable" "keep" (translate lang "model_unavailable")
    else if leb_ℤ (pos 200) status && ltb_ℤ status (pos 300)
    then result "healthy" (if input.disabled then "enable" else "keep") (translate lang "chat_ok")
    else if not (is_empty (trim_space input.request_error)) || ltb_ℤ (pos 0) status
    then result "probe_error" "keep" (failed_reason input)
    else result "unknown" "keep" (translate lang "unable_classify")
