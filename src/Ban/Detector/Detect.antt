-- ===== src/Ban/Detector/Detect.antt =====
-- What a ban rests on: detectBan and resolveBanWindow on every status.
use grok_inspection.Base.{
  ℕ, ℤ, ◌==ℤ◌, String, true, false, ◌≡◌, refl, inl, inr, Option, none, some, arith, Option-cases,
  subst, sym,
}
use grok_inspection.Text.{is_empty, trim_space}
use grok_inspection.Text.Laws.{str_eq_iff}
use grok_inspection.Time.{Formats, add_years}
use grok_inspection.Ban.Headers.{Headers, resolve_reset_at}
use grok_inspection.Ban.Evidence.{
  is_strong_unauthorized_evidence, is_account_level_permission_denied, exhausted_error_code,
  permission_denied_error_code, spending_limit_error_code, unauthorized_error_code,
}
use grok_inspection.Ban.Detector.{
  BanEntry, UsageRecord, PluginConfig, normalize_provider, parse_error_code, parse_error_message,
  ban_codes, is_forbidden_without_evidence, fallback_of, resolve_ban_window, ban_entry, ban_with,
  detect_ban, or_empty,
}

abbrev codes_of : UsageRecord → Option (String × String)
codes_of r = ban_codes r.status_code (parse_error_code r.body) (parse_error_message r.body)

module _ (formats : Formats) where
  -- The window of each pair of status and code: the headers' for a quota, and a hundred years for
  -- what an operator has to lift.
  data Window (status : ℤ) (code : String) (headers : Headers) (now : ℕ) (cfg : PluginConfig)
      (w : ℕ × String) : Type 0 where
    quota :
        (status ==ℤ 429) ≡ true
        → code ≡ exhausted_error_code
        → w ≡ resolve_reset_at formats headers now (fallback_of cfg)
        → Window status code headers now cfg w
    permission :
        (status ==ℤ 403) ≡ true
        → code ≡ permission_denied_error_code
        → w ≡ (add_years 100 now, "manual_unban")
        → Window status code headers now cfg w
    spending :
        (status ==ℤ 402) ≡ true
        → code ≡ spending_limit_error_code
        → w ≡ (add_years 100 now, "manual_unban")
        → Window status code headers now cfg w
    unauthorized :
        (status ==ℤ 401) ≡ true
        → w ≡ (add_years 100 now, "manual_unban")
        → Window status code headers now cfg w

  resolve_ban_window-Window :
      (status : ℤ) (code : String) (headers : Headers) (now : ℕ) (cfg : PluginConfig)
      (w : ℕ × String)
      → resolve_ban_window formats status code headers now cfg ≡ some w
      → Window status code headers now cfg w
  unfolding resolve_ban_window
  resolve_ban_window-Window status code headers now cfg w h =
      grind (arith, quota, permission, spending, unauthorized, str_eq_iff)

  -- The ban lasts a hundred years, until an operator lifts it.
  pub record IsPermanent (now : ℕ) (e : BanEntry) : Type 0 where
    pub source : e.reset_source ≡ "manual_unban"
    pub until : e.reset_at ≡ add_years 100 now

  -- What the failure has to say for the ban that it leads to.
  pub data Grounds (r : UsageRecord) (cfg : PluginConfig) (now : ℕ) (e : BanEntry) : Type 0 where
    free_usage :
        (r.status_code ==ℤ 429) ≡ true
        → parse_error_code r.body ≡ some exhausted_error_code
        → e.error_code ≡ exhausted_error_code
        → e.reset_at ≡ (resolve_reset_at formats r.response_headers now (fallback_of cfg)).0
        → e.reset_source ≡ (resolve_reset_at formats r.response_headers now (fallback_of cfg)).1
        → Grounds r cfg now e
    denied :
        (r.status_code ==ℤ 403) ≡ true
        → parse_error_code r.body ≡ some permission_denied_error_code
        → is_account_level_permission_denied r.status_code permission_denied_error_code
            (parse_error_message r.body)
          ≡ true
        → e.error_code ≡ permission_denied_error_code
        → IsPermanent now e
        → Grounds r cfg now e
    limited :
        (r.status_code ==ℤ 402) ≡ true
        → parse_error_code r.body ≡ some spending_limit_error_code
        → e.error_code ≡ spending_limit_error_code
        → IsPermanent now e
        → Grounds r cfg now e
    invalid :
        (r.status_code ==ℤ 401) ≡ true
        → is_strong_unauthorized_evidence
            (or_empty (parse_error_code r.body))
            (parse_error_message r.body)
          ≡ true
        → e.error_code ≡ unauthorized_error_code
        → IsPermanent now e
        → Grounds r cfg now e

  pub record IsBan (r : UsageRecord) (cfg : PluginConfig) (now : ℕ) (e : BanEntry) : Type 0 where
    pub failed : r.failed ≡ true
    pub of_xai : normalize_provider r.provider ≡ "xai"
    pub provider : e.provider ≡ "xai"
    pub named : e.auth_id ≡ trim_space r.auth_id
    pub not_empty : is_empty e.auth_id ≡ false
    pub at : e.banned_at ≡ now
    pub unsynced : e.cpa_synced ≡ false
    pub grounds : Grounds r cfg now e

  Window-Grounds :
      (r : UsageRecord) (cfg : PluginConfig) (now : ℕ) (id code diag : String) (w : ℕ × String)
      → Window r.status_code code r.response_headers now cfg w
      → is_forbidden_without_evidence r.status_code code (parse_error_message r.body) ≡ false
      → codes_of r ≡ some (code, diag)
      → Grounds r cfg now (ban_entry r now id code diag w)
  unfolding is_forbidden_without_evidence ban_codes ban_entry
  Window-Grounds r cfg now id code diag w (quota s c e) f b =
      free_usage s (ground arith) c (ground arith) (ground arith)
  Window-Grounds r cfg now id code diag w (permission s c e) f b =
      denied s (ground arith) (ground (arith, str_eq_iff code permission_denied_error_code)) c
        (record { source = ground arith; until = ground arith })
  Window-Grounds r cfg now id code diag w (spending s c e) f b =
      limited s (ground arith) c (record { source = ground arith; until = ground arith })
  Window-Grounds r cfg now id code diag w (unauthorized s e) f b =
      invalid s (ground arith) (ground arith)
        (record { source = ground arith; until = ground arith })

  ban_with-eq :
      (r : UsageRecord) (cfg : PluginConfig) (now : ℕ) (id : String)
      (codes : Option (String × String)) {e : BanEntry}
      → ban_with formats r cfg now id codes ≡ some e
      → (c : String × String) × (w : ℕ × String) × (codes ≡ some c)
        × (is_forbidden_without_evidence r.status_code c.0 (parse_error_message r.body) ≡ false)
        × (resolve_ban_window formats r.status_code c.0 r.response_headers now cfg ≡ some w)
        × (e ≡ ban_entry r now id c.0 c.1 w)
  unfolding ban_with
  ban_with-eq r cfg now id none h = cc
  ban_with-eq r cfg now id (some (code, diag)) h =
      elim (Option-cases
        (resolve_ban_window formats r.status_code code r.response_headers now cfg)) [
          | inl e ↦ absurd (ground arith)
          | inr (w, e) ↦ ((code, diag), w, refl, ground arith, e, ground arith)
        ]

  entry-IsBan :
      (r : UsageRecord) (cfg : PluginConfig) (now : ℕ) (code diag : String) (w : ℕ × String)
      → r.failed ≡ true
      → normalize_provider r.provider ≡ "xai"
      → is_empty (trim_space r.auth_id) ≡ false
      → Grounds r cfg now (ban_entry r now (trim_space r.auth_id) code diag w)
      → IsBan r cfg now (ban_entry r now (trim_space r.auth_id) code diag w)
  unfolding ban_entry
  entry-IsBan r cfg now code diag w f x n g = record {
    failed = f;
    of_xai = x;
    provider = x;
    named = refl;
    not_empty = n;
    at = refl;
    unsynced = refl;
    grounds = g;
  }

  detect_ban_guards :
      (r : UsageRecord) (cfg : PluginConfig) (now : ℕ) (e : BanEntry)
      → detect_ban formats r cfg now ≡ some e
      → (r.failed ≡ true)
        × (normalize_provider r.provider ≡ "xai")
        × (is_empty (trim_space r.auth_id) ≡ false)
        × (ban_with formats r cfg now (trim_space r.auth_id) (codes_of r) ≡ some e)
  unfolding detect_ban
  detect_ban_guards r cfg now e h = ground (arith, str_eq_iff (normalize_provider r.provider) "xai")

  -- A ban is the ban of a failed request of an xAI account that names its account, on one of four
  -- grounds, each with its own window: the exact free-usage code on a 429, whose window the headers
  -- give; and, until an operator lifts it, the exact permission code with account-level evidence on
  -- a 403, the exact spending-limit code on a 402, and strong credential evidence on a 401.
  pub detect_ban-IsBan :
      (r : UsageRecord) (cfg : PluginConfig) (now : ℕ) (e : BanEntry)
      → detect_ban formats r cfg now ≡ some e
      → IsBan r cfg now e
  detect_ban-IsBan r cfg now e h =
      let (f, x, n, b) = detect_ban_guards r cfg now e h in
      let ((code, diag), w, coded, allowed, window, same) =
        ban_with-eq r cfg now (trim_space r.auth_id) (codes_of r) b in
      subst (IsBan r cfg now) (sym same) (
        entry-IsBan r cfg now code diag w f x n (
          Window-Grounds r cfg now (trim_space r.auth_id) code diag w
            (resolve_ban_window-Window r.status_code code r.response_headers now cfg w window)
            allowed coded))
