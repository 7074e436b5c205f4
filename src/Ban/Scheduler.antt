-- ===== src/Ban/Scheduler.antt =====
-- ban_scheduler.go: a failed request becomes a ban (handleUsageRecord), and the loop that lifts the
-- bans whose window has passed (restoreExpiredBans). CPA is the host's: its two calls are parameters
-- that also return the pool as they leave it, since other goroutines use it meanwhile.
-- The logs, and withAuthOp, which lets one operation on an account run at a time, are not modelled.
pub mod Handled
pub mod Permanent
use grok_inspection.Base.{
  ℕ, ◌+◌, ltb, String, Bool, true, false, not, ◌||◌, List, [], ◌∷◌, Option, none, some,
  if◌then◌else◌,
}
use grok_inspection.Text.{str_eq, contains, lower}
use grok_inspection.Time.{Formats, after}
use grok_inspection.Ban.Evidence.{
  exhausted_error_code, permission_denied_error_code, spending_limit_error_code,
  unauthorized_error_code, manual_inspection_ban_error_code,
}
use grok_inspection.Ban.Detector.{BanEntry, UsageRecord, PluginConfig, detect_ban}
use grok_inspection.Ban.Store.{
  Store, CasResult, set, get, delete_if, delete_if_or_current, update_cpa_sync_state, unsynced_cpa,
  expired,
}
use grok_inspection.Ban.Queue.{Queue, enqueue_ban_dispose}

-- The plugin's pool and queue, and whether a save of the pool is asked for.
pub record Plugin : Type 0 where
  pub store : Store
  pub queue : Queue
  pub dirty : Bool

-- What the other goroutines do to the pool and the queue between the calls of handleUsageRecord: after
-- Set, after Get, and after enqueueBanDispose, whose workers may be at work already.
pub record Meanwhile : Type 0 where
  pub after_set : Plugin → Plugin
  pub after_get : Plugin → Plugin
  pub after_enqueue : Plugin → Plugin

-- A refused request leaves the reason in the row.
disposed : Plugin → String → Bool → Plugin
unfolding update_cpa_sync_state
disposed p id accepted = record p {
  store =
      if not accepted then update_cpa_sync_state p.store id false "dispose queue full" else p.store;
  dirty = true;
}

-- Get hands back an empty entry where there is no row.
abbrev pub found_id : Option BanEntry → String
found_id none = ""
found_id (some row) = row.auth_id

abbrev pub found_revision : Option BanEntry → ℕ
found_revision none = 0
found_revision (some row) = row.revision

banned : Meanwhile → Plugin → Option BanEntry → Plugin
unfolding disposed enqueue_ban_dispose
banned around p found =
    let (q, accepted) = enqueue_ban_dispose p.queue (found_id found) (found_revision found) in
    disposed (around.after_enqueue (record p { queue = q })) (found_id found) accepted

dispose : Meanwhile → Plugin → BanEntry → Plugin
unfolding banned set
dispose around p entry =
    let e = record entry { cpa_synced = false; cpa_sync_error = "" } in
    let p' = around.after_set (record p { store = set p.store e }) in
    banned around (around.after_get p') (get p'.store e.auth_id)

dispose_detected : Meanwhile → Plugin → Option BanEntry → Plugin
unfolding dispose
dispose_detected around p none = p
dispose_detected around p (some entry) = dispose around p entry

unfoldable pub handle_usage_record :
    Formats → Meanwhile → Plugin → UsageRecord → PluginConfig → ℕ → Plugin
unfolding dispose_detected detect_ban
handle_usage_record formats around p r cfg now =
    if not cfg.enabled then p else dispose_detected around p (detect_ban formats r cfg now)

-- A call of disableAuthInCPA: `missing` where isAuthFileNotFoundError holds of its error; the text is
-- what sanitizeCPASyncError makes of the error.
pub data DisableOutcome : Type 0 where
  disabled : DisableOutcome
  missing : String → DisableOutcome
  failed : String → DisableOutcome

-- A call of enableAuthInCPAAllowMissing.
pub data EnableOutcome : Type 0 where
  enabled absent enable_failed : EnableOutcome

-- The state of one run, with the state of the world that CPA answers from.
pub record Run (W : Type 0) : Type 0 where
  pub world : W
  pub store : Store
  pub restored : ℕ
  pub failures : ℕ
  pub dirty : Bool

module _ {W : Type 0} where
  retried : Run W → BanEntry → W → Store → DisableOutcome → Run W
  unfolding update_cpa_sync_state delete_if
  retried r entry w s disabled = record r {
    world = w;
    store = update_cpa_sync_state s entry.auth_id true "";
    dirty = true;
  }
  retried r entry w s (missing text) =
      let (s', deleted) = delete_if s entry.auth_id entry.revision in
      record r { world = w; store = s'; dirty = deleted || r.dirty }
  retried r entry w s (failed text) = record r {
    world = w;
    store = update_cpa_sync_state s entry.auth_id false text;
    dirty = true;
  }

  redisabled : Run W → String → W → Store → DisableOutcome → Run W
  unfolding update_cpa_sync_state
  redisabled r id w s disabled = record r {
    world = w;
    store = update_cpa_sync_state s id true "";
    dirty = true;
  }
  redisabled r id w s (missing text) = record r {
    world = w;
    store = update_cpa_sync_state s id false text;
    dirty = true;
  }
  redisabled r id w s (failed text) = record r {
    world = w;
    store = update_cpa_sync_state s id false text;
    dirty = true;
  }

module _ {W : Type 0} (disable_auth_in_cpa : W → Store → String → W × Store × DisableOutcome)
    (enable_auth_in_cpa : W → Store → String → W × Store × EnableOutcome) where
  retry_one : ℕ → Run W → BanEntry → Run W
  unfolding retried
  retry_one now r entry =
      let (w, s, outcome) = disable_auth_in_cpa r.world r.store entry.auth_id in
      if not (after entry.reset_at now) then r else retried r entry w s outcome

  retry : ℕ → Run W → List BanEntry → Run W
  unfolding retry_one
  retry now r [] = r
  retry now r (entry ∷ entries) = retry now (retry_one now r entry) entries

  -- A newer ban that landed during the enabling call is disabled again.
  kept_newer : Run W → String → Option BanEntry → Run W
  unfolding redisabled
  kept_newer r id none = r
  kept_newer r id (some current) =
      let (w, s, outcome) = disable_auth_in_cpa r.world r.store id in redisabled r id w s outcome

  -- After an enabling call that has not failed.
  lifted : Run W → String → CasResult → Run W
  unfolding kept_newer
  lifted r id cas =
      if cas.deleted
      then record r { store = cas.store; restored = r.restored + 1 }
      else kept_newer (record r { store = cas.store }) id cas.current

  enabled_with : Run W → String → BanEntry → W → Store → EnableOutcome → Run W
  unfolding lifted delete_if_or_current
  enabled_with r id entry w s enabled =
      lifted (record r { world = w; store = s }) id (delete_if_or_current s id entry.revision)
  enabled_with r id entry w s absent =
      lifted (record r { world = w; store = s }) id (delete_if_or_current s id entry.revision)
  enabled_with r id entry w s enable_failed = record r {
    world = w;
    store = s;
    failures = r.failures + 1;
  }

  restore_row : Run W → String → Option BanEntry → Run W
  unfolding enabled_with str_eq
  restore_row r id none = r
  restore_row r id (some entry) =
      let (w, s, outcome) = enable_auth_in_cpa r.world r.store id in
      if str_eq entry.reset_source "manual_unban" then r else enabled_with r id entry w s outcome

  restore_each : Run W → List String → Run W
  unfolding restore_row
  restore_each r [] = r
  restore_each r (id ∷ ids) = restore_each (restore_row r id (get r.store id)) ids

  unfoldable pub restore_expired_bans : W → Store → ℕ → Run W
  unfolding retry restore_each unsynced_cpa expired
  restore_expired_bans world store now =
      let begun : Run W = record {
        world = world;
        store = store;
        restored = 0;
        failures = 0;
        dirty = false;
      } in
      let tried = retry now begun (unsynced_cpa store) in
      let r = restore_each tried (expired tried.store now) in
      record r { dirty = ltb 0 r.restored || r.dirty }

-- Whether the text has one of the parts.
contains_some : String → List String → Bool
unfolding contains
contains_some c [] = false
contains_some c (part ∷ parts) = contains c part || contains_some c parts

unfoldable pub ban_category_of : String → String
unfolding lower str_eq contains_some contains
ban_category_of error_code =
    let c = lower error_code in
    if str_eq c exhausted_error_code || contains c "free-usage-exhausted"
    then "quota"
    else if str_eq c permission_denied_error_code || contains c "permission-denied"
    then "permission"
    else if str_eq c spending_limit_error_code || contains c "spending-limit"
    then "spending_limit"
    else if str_eq c unauthorized_error_code
        || str_eq c "401"
        || contains_some c (
            "unauthorized" ∷ "authentication_error" ∷ "invalid_token" ∷ "token_expired"
            ∷ "token is expired" ∷ "invalid_grant" ∷ [])
        || str_eq c "unauthenticated"
    then "unauthorized"
    else if str_eq c manual_inspection_ban_error_code || contains c "manual-disabled"
    then "manual"
    else "other"
