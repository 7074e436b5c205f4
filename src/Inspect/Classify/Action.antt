-- ===== src/Inspect/Classify/Action.antt =====
-- The advice that classifyProbe gives.
use grok_inspection.Base.{
  ℤ, pos, leb_ℤ, ltb_ℤ, ◌==ℤ◌, String, Bool, true, false, ◌≡◌, refl, ◌≢◌, ◌↔◌, ◌⊎◌, arith,
  if◌then◌else◌,
}
use grok_inspection.Text.{str_eq}
use grok_inspection.Text.Laws.{ne_of_str_eq}
use grok_inspection.Ban.Evidence.{
  is_content_safety_violation, is_strong_unauthorized_evidence, is_free_usage_exhausted,
  is_spending_limit_blocked, is_account_level_permission_denied, has_account_signal,
}
use grok_inspection.Inspect.Classify.{
  ClassifyInput, ClassifyResult, classify_probe, recommend_action,
}

abbrev pub IsAdvised : Bool → ClassifyResult → Type 0
IsAdvised disabled r = r.action ≡ recommend_action r.classification disabled

module _ (d : Bool) where
  advise_error : recommend_action "probe_error" d ≡ "keep"
  unfolding recommend_action
  advise_error = refl

  advise_unknown : recommend_action "unknown" d ≡ "keep"
  unfolding recommend_action
  advise_unknown = refl

  advise_model : recommend_action "model_unavailable" d ≡ "keep"
  unfolding recommend_action
  advise_model = refl

  advise_reauth : recommend_action "reauth" d ≡ "delete"
  unfolding recommend_action
  advise_reauth = refl

  advise_healthy : recommend_action "healthy" d ≡ (if d then "enable" else "keep")
  unfolding recommend_action
  advise_healthy = refl

  advise_quota : recommend_action "quota_exhausted" d ≡ (if d then "keep" else "disable")
  unfolding recommend_action
  advise_quota = refl

  advise_denied : recommend_action "permission_denied" d ≡ (if d then "keep" else "disable")
  unfolding recommend_action
  advise_denied = refl

  advise_limit : recommend_action "spending_limit" d ≡ (if d then "keep" else "disable")
  unfolding recommend_action
  advise_limit = refl

-- The advice of a probe is the advice of its classification.
pub action-recommend_action :
    (i : ClassifyInput)
    → (classify_probe i).action ≡ recommend_action (classify_probe i).classification i.disabled
unfolding classify_probe
action-recommend_action i = ground (
  arith,
  advise_error i.disabled,
  advise_unknown i.disabled,
  advise_model i.disabled,
  advise_reauth i.disabled,
  advise_healthy i.disabled,
  advise_quota i.disabled,
  advise_denied i.disabled,
  advise_limit i.disabled,
)

keep_ne_delete : ◌≢◌ {A = String} "keep" "delete"
unfolding str_eq
keep_ne_delete = ne_of_str_eq "keep" "delete" refl

disable_ne_delete : ◌≢◌ {A = String} "disable" "delete"
unfolding str_eq
disable_ne_delete = ne_of_str_eq "disable" "delete" refl

enable_ne_delete : ◌≢◌ {A = String} "enable" "delete"
unfolding str_eq
enable_ne_delete = ne_of_str_eq "enable" "delete" refl

keep_ne_disable : ◌≢◌ {A = String} "keep" "disable"
unfolding str_eq
keep_ne_disable = ne_of_str_eq "keep" "disable" refl

delete_ne_disable : ◌≢◌ {A = String} "delete" "disable"
unfolding str_eq
delete_ne_disable = ne_of_str_eq "delete" "disable" refl

enable_ne_disable : ◌≢◌ {A = String} "enable" "disable"
unfolding str_eq
enable_ne_disable = ne_of_str_eq "enable" "disable" refl

keep_ne_enable : ◌≢◌ {A = String} "keep" "enable"
unfolding str_eq
keep_ne_enable = ne_of_str_eq "keep" "enable" refl

delete_ne_enable : ◌≢◌ {A = String} "delete" "enable"
unfolding str_eq
delete_ne_enable = ne_of_str_eq "delete" "enable" refl

disable_ne_enable : ◌≢◌ {A = String} "disable" "enable"
unfolding str_eq
disable_ne_enable = ne_of_str_eq "disable" "enable" refl

-- Deletion is advised exactly for a 401 with strong evidence against the credentials and no sign
-- of a content-safety block.
pub delete_iff :
    (i : ClassifyInput)
    → ((classify_probe i).action ≡ "delete") ↔ (
        (is_content_safety_violation i.chat_code i.chat_error ≡ false)
        × ((i.chat_status ==ℤ 401) ≡ true)
        × (is_strong_unauthorized_evidence i.chat_code i.chat_error ≡ true))
unfolding classify_probe
delete_iff i =
    (λ h. ground (arith, keep_ne_delete, disable_ne_delete, enable_ne_delete), λ h. ground arith)

denied_grounds :
    (status : ℤ) (code message : String)
    → is_account_level_permission_denied status code message ≡ true
    → ((status ==ℤ 403) ≡ true) × (has_account_signal code message ≡ true)
unfolding is_account_level_permission_denied
denied_grounds status code message h = (ground arith, ground arith)

-- Disabling is advised only for an account that is not disabled, without a content-safety block, on
-- one of three grounds: free usage exhausted on a status other than 401, the exact spending-limit
-- code on a 402, or the text of an account-level denial on a 403.
pub disable_grounds :
    (i : ClassifyInput)
    → (classify_probe i).action ≡ "disable"
    → (i.disabled ≡ false)
      × (is_content_safety_violation i.chat_code i.chat_error ≡ false)
      × ((((i.chat_status ==ℤ 401) ≡ false)
            × (is_free_usage_exhausted i.chat_code i.chat_error ≡ true))
          ⊎ ((((i.chat_status ==ℤ 402) ≡ true)
                × (is_spending_limit_blocked i.chat_code i.chat_error ≡ true))
              ⊎ (((i.chat_status ==ℤ 403) ≡ true)
                  × (has_account_signal i.chat_code i.chat_error ≡ true))))
unfolding classify_probe
disable_grounds i h = ground (
  arith,
  keep_ne_disable,
  delete_ne_disable,
  enable_ne_disable,
  denied_grounds i.chat_status i.chat_code i.chat_error,
)

-- Enabling is advised only for a disabled account whose probe was answered with a 2xx status.
pub enable_grounds :
    (i : ClassifyInput)
    → (classify_probe i).action ≡ "enable"
    → (i.disabled ≡ true)
      × (leb_ℤ (pos 200) i.chat_status ≡ true)
      × (ltb_ℤ i.chat_status (pos 300) ≡ true)
unfolding classify_probe
enable_grounds i h = ground (arith, keep_ne_enable, delete_ne_enable, disable_ne_enable)
