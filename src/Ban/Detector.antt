-- ===== src/Ban/Detector.antt =====
-- ban_detector.go: which failed request bans its account, for what reason and until when (detectBan,
-- resolveBanWindow, normalizeProvider, parseErrorCode, parseErrorMessage).
pub mod Detect
use grok_inspection.Base.{
  ℕ, ◌*◌, ℤ, pos, leb_ℤ, ltb_ℤ, ◌==ℤ◌, String, Bool, true, false, not, ◌&&◌, ◌||◌, List, [], ◌∷◌,
  Option, none, some, if◌then◌else◌,
}
use grok_inspection.Text.{str_eq, is_empty, trim_space, lower, to_lower}
use grok_inspection.Json.{Json, Fields, Body, get, string_field, any_field}
use grok_inspection.Json.{null, bool, num, str, arr, obj, end, field}
use grok_inspection.Time.{Formats, mul_int64, add_years}
use grok_inspection.Ban.Headers.{Headers, first_header, resolve_reset_at}
use grok_inspection.Ban.Evidence.{
  is_strong_unauthorized_evidence, is_account_level_permission_denied, exhausted_error_code,
  permission_denied_error_code, spending_limit_error_code, unauthorized_error_code,
}

pub record BanEntry : Type 0 where
  pub auth_id : String
  pub provider : String
  pub error_code : String
  pub error_code_diag : String
  pub banned_at : ℕ
  pub reset_at : ℕ
  pub reset_source : String
  pub trace_id : String
  pub cpa_synced : Bool
  pub revision : ℕ
  pub cpa_sync_error : String

-- The fields of pluginapi.UsageRecord that the plugin reads.
pub record UsageRecord : Type 0 where
  pub provider : String
  pub auth_id : String
  pub failed : Bool
  pub status_code : ℤ
  pub body : Body
  pub response_headers : Headers

-- ban_config.go pluginConfig
pub record PluginConfig : Type 0 where
  pub fallback_hours : ℤ
  pub persist_state : Bool
  pub state_file : String
  pub log_matches : Bool
  pub enabled : Bool

unfoldable pub normalize_provider : String → String
unfolding lower str_eq
normalize_provider provider =
    let p = lower provider in
    if str_eq p "xai" || str_eq p "x-ai" || str_eq p "grok" then "xai" else p

trimmed_code : Option String → Option String
trimmed_code none = none
trimmed_code (some code) = let c = trim_space code in if is_empty c then none else some c

-- The error code of a body: none where there is no body, no code or an empty one.
unfoldable pub parse_error_code : Body → Option String
unfolding trimmed_code string_field
parse_error_code body = elim body.decoded [
  | none ↦ none
  | some null ↦ none
  | some (obj fs) ↦ trimmed_code (string_field "code" (some "") fs)
  | some other ↦ none
]

abbrev pub or_empty : Option String → String
or_empty none = ""
or_empty (some s) = s

text_at : Fields → String → Option String
text_at fs key = elim (get fs key) [ some (str s) ↦ some (trim_space s) | _ ↦ none ]

-- The words of the error itself, if it has some.
words_of : Json → Option String
unfolding text_at
words_of (str s) = some (trim_space s)
words_of (obj fs) = elim (text_at fs "message") [ some m ↦ some m | none ↦ text_at fs "error" ]
words_of other = none

message_from : Fields → Option String → String
unfolding words_of any_field
message_from fs none = ""
message_from fs (some message) = elim (words_of (any_field "error" null fs)) [
  | some m ↦ m
  | none ↦ trim_space message
]

unfoldable pub parse_error_message : Body → String
unfolding message_from string_field
parse_error_message body = elim body.decoded [
  | none ↦ ""
  | some null ↦ ""
  | some (obj fs) ↦ message_from fs (string_field "message" (some "") fs)
  | some other ↦ ""
]

-- The ban's error code and its diagnostic code; none where the failure is no ground for a ban. A
-- 401 wants strong evidence, and any other status an error code.
unfoldable pub ban_codes : ℤ → Option String → String → Option (String × String)
ban_codes status code message =
    if status ==ℤ 401
    then (if is_strong_unauthorized_evidence (or_empty code) message
        then some (unauthorized_error_code, or_empty code)
        else none)
    else elim code [ none ↦ none | some c ↦ some (c, "") ]

-- A 403 bans on account-level evidence alone.
unfoldable pub is_forbidden_without_evidence : ℤ → String → String → Bool
unfolding str_eq
is_forbidden_without_evidence status code message =
    status ==ℤ 403
    && (not (str_eq code permission_denied_error_code)
        || not (is_account_level_permission_denied status code message))

abbrev pub hour : ℕ
hour = 3_600_000_000_000

-- The configured cool-down, or a day where it is none.
unfoldable pub fallback_of : PluginConfig → ℤ
fallback_of cfg =
    let fallback = mul_int64 cfg.fallback_hours hour in
    if leb_ℤ fallback (pos 0) then pos (24 * hour) else fallback

-- The entry for an account that a window keeps out of the pool.
ban_entry : UsageRecord → ℕ → String → String → String → ℕ × String → BanEntry
unfolding normalize_provider first_header
ban_entry r now auth_id code diag (reset_at, source) = record {
  auth_id = auth_id;
  provider = normalize_provider r.provider;
  error_code = code;
  error_code_diag = diag;
  banned_at = now;
  reset_at = reset_at;
  reset_source = source;
  trace_id = first_header r.response_headers "X-Request-Id";
  cpa_synced = false;
  revision = 0;
  cpa_sync_error = "";
}

module _ (formats : Formats) where
  unfoldable pub resolve_ban_window : ℤ → String → Headers → ℕ → PluginConfig → Option (ℕ × String)
  unfolding str_eq
  resolve_ban_window status code headers now cfg =
      let permanent : Option (ℕ × String) = some (add_years 100 now, "manual_unban") in
      if status ==ℤ 429 && str_eq code exhausted_error_code
      then some (resolve_reset_at formats headers now (fallback_of cfg))
      else if status ==ℤ 403 && str_eq code permission_denied_error_code
      then permanent
      else if status ==ℤ 402 && str_eq code spending_limit_error_code
      then permanent
      else if status ==ℤ 401
      then permanent
      else none

  -- The ban that the codes of a failure give.
  ban_with : UsageRecord → PluginConfig → ℕ → String → Option (String × String) → Option BanEntry
  unfolding ban_entry
  ban_with r cfg now auth_id none = none
  ban_with r cfg now auth_id (some (code, diag)) =
      let window = resolve_ban_window r.status_code code r.response_headers now cfg in
      let ban : Option BanEntry = elim window [
        | none ↦ none
        | some w ↦ some (ban_entry r now auth_id code diag w)
      ] in
      if is_forbidden_without_evidence r.status_code code (parse_error_message r.body)
      then none
      else ban

  unfoldable pub detect_ban : UsageRecord → PluginConfig → ℕ → Option BanEntry
  unfolding ban_with
  detect_ban r cfg now =
      let auth_id = trim_space r.auth_id in
      if not (str_eq (normalize_provider r.provider) "xai") || not r.failed
      then none
      else if is_empty auth_id
      then none
      else ban_with r cfg now auth_id
          (ban_codes r.status_code (parse_error_code r.body) (parse_error_message r.body))
