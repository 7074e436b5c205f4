-- ===== src/Ban/Disposal.antt =====
-- ban_dispose_queue.go, applyBanDisposeWithStore: what a worker does with an account that it took from
-- the queue. The call of CPA is a parameter as in Ban/Scheduler, and so is the pool that other
-- goroutines make meanwhile. A revision of 0 stands for any.
pub mod Synced
use grok_inspection.Base.{
  ℕ, String, Bool, true, false, not, ◌&&◌, ◌||◌, Option, none, some, ◌==◌, if◌then◌else◌,
}
use grok_inspection.Text.{is_empty, trim_space}
use grok_inspection.Ban.Detector.{BanEntry}
use grok_inspection.Ban.Store.{Store, get, update_cpa_sync_state}
use grok_inspection.Ban.Scheduler.{DisableOutcome, disabled, missing, failed}

-- The pool and the world after it, and whether a save is asked for.
pub record Applied (W : Type 0) : Type 0 where
  pub world : W
  pub store : Store
  pub dirty : Bool

-- The row was written under another revision since, and that ban is applied already.
unfoldable pub is_stale : BanEntry → ℕ → Bool
is_stale entry expected =
    not (expected == 0) && not (entry.revision == expected) && entry.cpa_synced

applied : Store → String → ℕ → BanEntry → DisableOutcome → Store
unfolding update_cpa_sync_state
applied s id expected current disabled =
    if expected == 0 || current.revision == expected || not current.cpa_synced
    then update_cpa_sync_state s id true ""
    else s
applied s id expected current (missing text) = update_cpa_sync_state s id false text
applied s id expected current (failed text) = update_cpa_sync_state s id false text

module _ {W : Type 0} where
  after_call : W → Store → String → ℕ → DisableOutcome → Option BanEntry → Applied W
  unfolding applied is_stale
  after_call w s id expected outcome none = record { world = w; store = s; dirty = false }
  after_call w s id expected outcome (some current) =
      if is_stale current expected
      then record { world = w; store = s; dirty = false }
      else record { world = w; store = applied s id expected current outcome; dirty = true }

module _ {W : Type 0} (disable_auth_in_cpa : W → Store → String → W × Store × DisableOutcome) where
  dispose_row : W → Store → String → ℕ → Option BanEntry → Applied W
  unfolding after_call is_stale
  dispose_row w s id expected none = record { world = w; store = s; dirty = false }
  dispose_row w s id expected (some entry) =
      let (w', s', outcome) = disable_auth_in_cpa w s id in
      if is_stale entry expected
      then record { world = w; store = s; dirty = false }
      else after_call w' s' id expected outcome (get s' id)

  unfoldable pub apply_ban_dispose_with_store : W → Store → String → ℕ → Applied W
  unfolding dispose_row trim_space is_empty
  apply_ban_dispose_with_store w s auth_id expected =
      let id = trim_space auth_id in
      if is_empty id
      then record { world = w; store = s; dirty = false }
      else dispose_row w s id expected (get s id)
