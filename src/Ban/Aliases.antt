-- ===== src/Ban/Aliases.antt =====
-- apply_ban_sync.go: the bans of an account that may stand under several names, and what an operator's
-- or a schedule's disable and enable do to them. The pool that other goroutines make while CPA is
-- called is CPA's to return, as in Ban/Scheduler.
use grok_inspection.Base.{
  ℕ, ◌+◌, ℤ, pos, String, Bool, true, false, List, [], ◌∷◌, Option, none, some, if◌then◌else◌,
}
use grok_inspection.Text.{str_eq, is_empty, trim_space, first_non_empty}
use grok_inspection.Time.{Formats, add_years}
use grok_inspection.Dict.{lookup}
use grok_inspection.Accounts.{HostAuthFileEntry}
use grok_inspection.Accounts.Aliases.{ban_aliases, ban_id_matches_aliases}
use grok_inspection.Ban.Evidence.{
  exhausted_error_code, permission_denied_error_code, spending_limit_error_code,
  unauthorized_error_code, manual_inspection_ban_error_code, manual_inspection_ban_reset_source,
}
use grok_inspection.Ban.Detector.{BanEntry, PluginConfig, normalize_provider, resolve_ban_window}
use grok_inspection.Ban.Store.{
  Store, CasResult, set, delete, delete_if_or_current, update_cpa_sync_state, snapshot_entries,
}
use grok_inspection.Ban.Scheduler.{DisableOutcome, disabled, missing, failed}

matching : List BanEntry → List String → List BanEntry
unfolding ban_id_matches_aliases
matching [] aliases = []
matching (e ∷ es) aliases =
    let rest = matching es aliases in
    if ban_id_matches_aliases e.auth_id aliases then e ∷ rest else rest

unfoldable pub list_bans_matching_target : Store → Option HostAuthFileEntry → String → List BanEntry
unfolding matching snapshot_entries ban_aliases
list_bans_matching_target s target name = matching (snapshot_entries s) (ban_aliases target name)

-- The loop of clearBansMatchingTargetInStore; a row that a matching id names is deleted.
clear_each : Store → List String → List BanEntry → Store
unfolding ban_id_matches_aliases delete trim_space
clear_each s aliases [] = s
clear_each s aliases (e ∷ es) =
    clear_each
      (if ban_id_matches_aliases e.auth_id aliases then (delete s (trim_space e.auth_id)).0 else s)
      aliases es

unfoldable pub clear_bans_matching_target_in_store :
    Store → Option HostAuthFileEntry → String → Store
unfolding clear_each snapshot_entries ban_aliases
clear_bans_matching_target_in_store s target name =
    clear_each s (ban_aliases target name) (snapshot_entries s)

-- The status code under which a ban with the code would have been detected; none for the others.
status_of : String → Option ℤ
unfolding str_eq trim_space
status_of error_code =
    let c = trim_space error_code in
    if str_eq c exhausted_error_code
    then some (pos 429)
    else if str_eq c permission_denied_error_code
    then some (pos 403)
    else if str_eq c spending_limit_error_code
    then some (pos 402)
    else if str_eq c unauthorized_error_code
    then some (pos 401)
    else none

window_or : ℕ → Option (ℕ × String) → ℕ × String
unfolding add_years
window_or now none = (add_years 100 now, manual_inspection_ban_reset_source)
window_or now (some w) = w

module _ (formats : Formats) where
  unfoldable pub inspection_ban_window : String → ℕ → PluginConfig → ℕ × String
  unfolding status_of window_or resolve_ban_window trim_space
  inspection_ban_window error_code now cfg = elim (status_of error_code) [
    | none ↦ window_or now none
    | some status ↦
        window_or now (resolve_ban_window formats status (trim_space error_code) [] now cfg)
  ]

  -- The account of the row: the file's name where there is one.
  ban_id : Option HostAuthFileEntry → String → String
  unfolding first_non_empty trim_space
  ban_id none fallback = trim_space fallback
  ban_id (some t) fallback =
      trim_space (first_non_empty (t.name ∷ t.id ∷ fallback ∷ t.auth_index ∷ t.email ∷ []))

  ban_provider : Option HostAuthFileEntry → String
  unfolding normalize_provider is_empty
  ban_provider none = "xai"
  ban_provider (some t) =
      if is_empty (normalize_provider t.provider) then "xai" else normalize_provider t.provider

  -- The code of the ban, and the pool with a flag for a ban that was written.
  unfoldable pub sync_inspection_ban :
      Store → Option HostAuthFileEntry → String → ℕ → String → PluginConfig → Store × Bool
  unfolding inspection_ban_window ban_id ban_provider clear_bans_matching_target_in_store set
      trim_space is_empty
  sync_inspection_ban s target fallback now error_code cfg =
      let trimmed = trim_space error_code in
      let code = if is_empty trimmed then manual_inspection_ban_error_code else trimmed in
      let (reset_at, source) = inspection_ban_window code now cfg in
      let id = ban_id target fallback in
      if is_empty id then (s, false) else (
        set (clear_bans_matching_target_in_store s target fallback) (record {
          auth_id = id;
          provider = ban_provider target;
          error_code = code;
          error_code_diag = "";
          banned_at = now;
          reset_at = reset_at;
          reset_source = source;
          trace_id = "";
          cpa_synced = true;
          revision = 0;
          cpa_sync_error = "";
        }),
        true,
      )

-- What clearBansMatchingTargetCAS returns.
pub record Cleared (W : Type 0) : Type 0 where
  pub world : W
  pub store : Store
  pub removed : ℕ
  pub local_ban_remains : Bool
  pub redisable_ok : Bool
  pub store_changed : Bool

module _ {W : Type 0} where
  redisabled : Cleared W → String → W → Store → DisableOutcome → Cleared W
  unfolding update_cpa_sync_state
  redisabled r id w s disabled = record r {
    world = w;
    store = update_cpa_sync_state s id true "";
    local_ban_remains = true;
    store_changed = true;
  }
  redisabled r id w s (missing text) = record r {
    world = w;
    store = update_cpa_sync_state s id false text;
    local_ban_remains = true;
    redisable_ok = false;
    store_changed = true;
  }
  redisabled r id w s (failed text) = record r {
    world = w;
    store = update_cpa_sync_state s id false text;
    local_ban_remains = true;
    redisable_ok = false;
    store_changed = true;
  }

module _ {W : Type 0} (disable_auth_in_cpa : W → Store → String → W × Store × DisableOutcome) where
  -- redisableKeptBan: a row without an account is left alone.
  redisable_kept_ban : Cleared W → String → Cleared W
  unfolding redisabled trim_space is_empty
  redisable_kept_ban r auth_id =
      let id = trim_space auth_id in
      let (w, s, outcome) = disable_auth_in_cpa r.world r.store id in
      if is_empty id
      then record r { local_ban_remains = true; store_changed = true }
      else redisabled r id w s outcome

  after_delete : Cleared W → String → CasResult → Cleared W
  unfolding redisable_kept_ban
  after_delete r id cas =
      if cas.deleted
      then record r { store = cas.store; removed = r.removed + 1; store_changed = true }
      else elim cas.current [ none ↦ r | some current ↦ redisable_kept_ban r id ]

  clear_row : Cleared W → String → Option ℕ → Cleared W
  unfolding redisable_kept_ban after_delete delete_if_or_current
  clear_row r id none = redisable_kept_ban r id
  clear_row r id (some expected) = after_delete r id (delete_if_or_current r.store id expected)

  clear_cas_each : Cleared W → List String → List (String × ℕ) → List BanEntry → Cleared W
  unfolding clear_row ban_id_matches_aliases lookup
  clear_cas_each r aliases pre [] = r
  clear_cas_each r aliases pre (e ∷ es) =
      clear_cas_each
        (if ban_id_matches_aliases e.auth_id aliases
          then clear_row r e.auth_id (lookup e.auth_id pre)
          else r)
        aliases pre es

  -- `pre` holds the revisions of the bans before the account was enabled in CPA.
  unfoldable pub clear_bans_matching_target_cas :
      W → Store → Option HostAuthFileEntry → String → List (String × ℕ) → Cleared W
  unfolding clear_cas_each snapshot_entries ban_aliases
  clear_bans_matching_target_cas world s target name pre =
      clear_cas_each
        (record {
          world = world;
          store = s;
          removed = 0;
          local_ban_remains = false;
          redisable_ok = true;
          store_changed = false;
        })
        (ban_aliases target name) pre (snapshot_entries s)
