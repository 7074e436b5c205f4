-- ===== src/Examples/Pool.antt =====
-- The theorems on the ban pool, its queue, its file, and the gate of the host calls, at concrete inputs.
use grok_inspection.Base.{
  ℕ, ◌<◌, pos, String, true, false, ◌≡◌, refl, ◌⊎◌, [], ◌∷◌, none, some, arith,
}
use mathlib.Core.List.{Perm}
use grok_inspection.Text.{is_empty, trim_space, str_eq}
use grok_inspection.Text.Numbers.{parse_int}
use grok_inspection.Dict.{lookup, values, IsDistinct}
use grok_inspection.Json.{obj, str, end, field}
use grok_inspection.Time.{Formats}
use grok_inspection.Ban.Headers.{absolute_reset_time, first_header, resolve_reset_at}
use grok_inspection.Ban.Headers.Window.{InWindow, absolute_reset_time-InWindow, retry_after_wraps}
use grok_inspection.Ban.Detector.{BanEntry, UsageRecord, PluginConfig, detect_ban}
use grok_inspection.Ban.Detector.Detect.{IsBan, detect_ban-IsBan}
use grok_inspection.Ban.Store.{
  Store, new_store, set, get, delete_if_or_current, expired, list, clear_expired,
}
use grok_inspection.Ban.Store.Cas.{CasOutcome, delete_if_or_current-CasOutcome, delete_if-set}
use grok_inspection.Ban.Store.Merge.{IsLonger, IsReplaced, IsOther, set-IsLonger}
use grok_inspection.Ban.Store.Invariant.{IsValid, calls, sets, deletes_if, calls-IsValid}
use grok_inspection.Ban.Store.Views.{IsSorted, list-IsSorted-perm, has, is_expired, has-expired}

abbrev no_formats : Formats
no_formats = record { rfc3339 = λ s. none; http_date = λ s. none }

abbrev config : PluginConfig
config = record {
  fallback_hours = pos 24;
  persist_state = true;
  state_file = "bans.json";
  log_matches = true;
  enabled = true;
}

abbrev limited : UsageRecord
limited = record {
  provider = "xai";
  auth_id = " grok-1 ";
  failed = true;
  status_code = pos 402;
  body = record {
    text = "{}";
    decoded = some (obj (field "code" (str "personal-team-blocked:spending-limit") end));
  };
  response_headers = [];
}

abbrev ban : BanEntry
ban = record {
  auth_id = "grok-1";
  provider = "xai";
  error_code = "personal-team-blocked:spending-limit";
  error_code_diag = "";
  banned_at = 0;
  reset_at = 3_155_673_600_000_000_000;
  reset_source = "manual_unban";
  trace_id = "";
  cpa_synced = false;
  revision = 0;
  cpa_sync_error = "";
}

detected : detect_ban no_formats limited config 0 ≡ some ban
unfolding detect_ban is_empty grok_inspection.Ban.Detector.ban_codes
    grok_inspection.Ban.Detector.parse_error_code
    grok_inspection.Ban.Detector.is_forbidden_without_evidence
    grok_inspection.Ban.Detector.resolve_ban_window grok_inspection.Time.add_years
    grok_inspection.Time.days_before grok_inspection.Time.date_of grok_inspection.Time.move_yday
detected = refl

detect_ban-IsBan_example : IsBan no_formats limited config 0 ban
detect_ban-IsBan_example = detect_ban-IsBan no_formats limited config 0 ban detected

-- A free-usage ban that closes at an instant.
abbrev quota_ban : String → ℕ → BanEntry
quota_ban id reset_at = record {
  auth_id = id;
  provider = "xai";
  error_code = "subscription:free-usage-exhausted";
  error_code_diag = "";
  banned_at = 0;
  reset_at = reset_at;
  reset_source = "header_absolute";
  trace_id = "";
  cpa_synced = false;
  revision = 0;
  cpa_sync_error = "";
}

abbrev pool : Store
pool = record {
  bans =
      ("a", record (quota_ban "a" 100) { revision = 1 })
      ∷ ("b", record (quota_ban "b" 50) { revision = 2 })
      ∷ [];
  rev = 2;
}

pool_a : get pool "a" ≡ some (record (quota_ban "a" 100) { revision = 1 })
unfolding lookup str_eq
pool_a = refl

a_set : is_empty "a" ≡ false
unfolding is_empty
a_set = refl

a_trimmed : trim_space "a" ≡ "a"
unfolding trim_space
a_trimmed = refl

delete_if-set_example :
    (row : BanEntry) × (delete_if_or_current (set pool (quota_ban "a" 200)) "a" 1
      ≡ record { store = set pool (quota_ban "a" 200); deleted = false; current = some row })
    × (get (set pool (quota_ban "a" 200)) "a" ≡ some row)
    × (1 < row.revision)
delete_if-set_example =
    delete_if-set pool (quota_ban "a" 200) (record (quota_ban "a" 100) { revision = 1 }) a_set
      a_trimmed pool_a (omega arith) (omega arith)

set-IsLonger_example :
    (row : BanEntry) × (get (set pool (quota_ban "a" 200)) "a" ≡ some row)
    × (IsReplaced (record (quota_ban "a" 100) { revision = 1 }) (quota_ban "a" 200) row
        ⊎ (IsOther (record (quota_ban "a" 100) { revision = 1 }) (quota_ban "a" 200)
            × IsLonger (record (quota_ban "a" 100) { revision = 1 }) (quota_ban "a" 200) row))
set-IsLonger_example =
    set-IsLonger pool (quota_ban "a" 200) (record (quota_ban "a" 100) { revision = 1 }) a_set pool_a

a_not_blank : is_empty (trim_space "a") ≡ false
unfolding is_empty trim_space
a_not_blank = refl

delete_if_or_current-CasOutcome_example :
    CasOutcome pool (trim_space "a") 1 (delete_if_or_current pool "a" 1)
delete_if_or_current-CasOutcome_example = delete_if_or_current-CasOutcome pool "a" 1 a_not_blank

new_store-IsValid : IsValid new_store
new_store-IsValid = record { rows = λ id e g. absurd (unfold lookup in cc); distinct = tt }

calls-IsValid_example :
    IsValid
      (calls new_store (sets (quota_ban "a" 100) ∷ sets (quota_ban "b" 50) ∷ deletes_if "a" 1 ∷ []))
calls-IsValid_example =
    calls-IsValid new_store
      (sets (quota_ban "a" 100) ∷ sets (quota_ban "b" 50) ∷ deletes_if "a" 1 ∷ []) (omega arith)
      new_store-IsValid

pool-IsDistinct : IsDistinct pool.bans
unfolding lookup str_eq
pool-IsDistinct = (refl, (refl, tt))

list-IsSorted-perm_example :
    IsSorted (λ e. e.reset_at) (list pool 20)
    × Perm (list pool 20) (values (clear_expired pool 20).0.bans)
list-IsSorted-perm_example = list-IsSorted-perm pool 20

has-expired_example : has "b" (expired pool 60) ≡ is_expired 60 (get pool "b")
has-expired_example = has-expired pool 60 "b" pool-IsDistinct

absolute_example :
    absolute_reset_time no_formats
      (("X-Ratelimit-Reset-At", "99" ∷ []) ∷ [])
      62_135_596_800_000_000_000
    ≡ some 62_135_596_899_000_000_000
unfolding absolute_reset_time is_empty parse_int grok_inspection.Ban.Headers.unix_reset_time
    grok_inspection.Time.add_years grok_inspection.Time.days_before grok_inspection.Time.date_of
    grok_inspection.Time.move_yday
absolute_example = refl

absolute_reset_time-InWindow_example :
    InWindow 62_135_596_800_000_000_000 62_135_596_899_000_000_000
absolute_reset_time-InWindow_example =
    absolute_reset_time-InWindow no_formats (("X-Ratelimit-Reset-At", "99" ∷ []) ∷ [])
      62_135_596_800_000_000_000 absolute_example

retry_text :
    is_empty (first_header (("Retry-After", "10000000000" ∷ []) ∷ []) "Retry-After") ≡ false
unfolding is_empty first_header
retry_text = refl

retry_read :
    parse_int (first_header (("Retry-After", "10000000000" ∷ []) ∷ []) "Retry-After")
    ≡ some (pos 10_000_000_000)
unfolding parse_int first_header
retry_read = refl

retry_only : absolute_reset_time no_formats (("Retry-After", "10000000000" ∷ []) ∷ []) 1 ≡ none
unfolding absolute_reset_time is_empty
retry_only = refl

retry_after_wraps_example :
    (resolve_reset_at no_formats (("Retry-After", "10000000000" ∷ []) ∷ []) 1 (pos 5)).0 < 1
retry_after_wraps_example =
    retry_after_wraps no_formats (("Retry-After", "10000000000" ∷ []) ∷ []) 1 10_000_000_000 (pos 5)
      retry_text retry_read retry_only (omega arith) (omega arith) (omega arith)
