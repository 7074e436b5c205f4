-- ===== src/Engine/Unban.antt =====
-- ban_unban_job.go: the job that gives accounts back. The management calls are the plugin's own HTTP
-- client, whose answers the job is told: the enable of an account, and the disable that follows where
-- a newer ban has landed during it. `meanwhile` and `during` are what the other threads do to the pool
-- while the one and the other run. The dirty mark of the pool is not part of the state here.
pub mod Commit
pub mod Count
pub mod One
use grok_inspection.Base.{
  ℕ, ◌+◌, ltb, ℤ, String, Bool, true, false, not, ◌&&◌, ◌||◌, List, [], ◌∷◌, ◌++◌, map, length,
  Option, none, some, if◌then◌else◌,
}
use grok_inspection.Text.{str_eq, lower, is_empty, trim_space, concat}
use grok_inspection.Accounts.{has, string_set}
use grok_inspection.Ban.Detector.{BanEntry}
use grok_inspection.Ban.Store.{
  Store, delete_if_or_current, update_cpa_sync_state, CasResult, snapshot_entries,
}
use grok_inspection.Ban.Scheduler.{ban_category_of}
use grok_inspection.Engine.State.{UnbanJobState}
use grok_inspection.Engine.Slot.{stop_unban_job, release_unban_slot, is_active, owns_run}

pub data CommitError : Type 0 where
  superseded : CommitError
  redisable_failed : String → CommitError

pub record CommitAnswer : Type 0 where
  pub store : Store
  pub removed : Bool
  pub kept_newer : Bool
  pub error : Option CommitError

-- errUnbanSupersededByNewerBan's text.
abbrev pub conflict : String
conflict = "ban_conflict: concurrent ban retained"

-- `redisable` is the error of the disable, none for its success; `sanitize` is sanitizeCPASyncError.
after_cas : (String → String) → String → (Store → Store) → Option String → CasResult → CommitAnswer
unfolding update_cpa_sync_state
after_cas sanitize auth_id during redisable r =
    let gone : CommitAnswer = record {
      store = r.store;
      removed = r.deleted;
      kept_newer = false;
      error = none;
    } in
    elim r.current [
      | none ↦ gone
      | some entry ↦ elim redisable [
        | none ↦ record {
          store = update_cpa_sync_state (during r.store) auth_id true "";
          removed = false;
          kept_newer = true;
          error = some superseded;
        }
        | some m ↦ record {
          store = update_cpa_sync_state (during r.store) auth_id false (sanitize m);
          removed = false;
          kept_newer = true;
          error = some (redisable_failed m);
        }
      ]
    ]

unfoldable pub commit_unban_after_enable :
    (String → String) → Store → String → ℕ → Bool → (Store → Store) → Option String → CommitAnswer
unfolding after_cas delete_if_or_current
commit_unban_after_enable sanitize s auth_id expected_rev had_entry during redisable =
    if had_entry
    then after_cas sanitize auth_id during redisable (delete_if_or_current s auth_id expected_rev)
    else record { store = s; removed = false; kept_newer = false; error = none }

pub record UnbanTarget : Type 0 where
  pub auth_id : String
  pub rev : ℕ

unban_target : BanEntry → List String → String → Option UnbanTarget
unfolding trim_space is_empty has ban_category_of str_eq
unban_target entry wanted category =
    let id = trim_space entry.auth_id in
    let target : Option UnbanTarget = some (record { auth_id = id; rev = entry.revision }) in
    let by_category =
      if not (is_empty category)
        && not (str_eq category "all")
        && not (str_eq (ban_category_of entry.error_code) category)
      then none
      else target in
    if is_empty id
    then none
    else elim wanted [ [] ↦ by_category | x ∷ xs ↦ if has id (x ∷ xs) then target else none ]

unban_targets_of : List BanEntry → List String → String → List UnbanTarget
unfolding unban_target
unban_targets_of [] wanted category = []
unban_targets_of (e ∷ es) wanted category =
    let rest = unban_targets_of es wanted category in
    elim (unban_target e wanted category) [ none ↦ rest | some t ↦ t ∷ rest ]

-- The accounts that are named, or else those of the category, or all.
unfoldable pub unban_targets : Store → List String → String → List UnbanTarget
unfolding unban_targets_of snapshot_entries lower string_set
unban_targets s auth_ids category =
    unban_targets_of (snapshot_entries s) (string_set auth_ids) (lower category)

-- Whether the account existed and is enabled now, or the error.
pub data EnableAnswer : Type 0 where
  enables : Bool → EnableAnswer
  enable_fails : String → EnableAnswer

-- What happens around one account of the job.
pub record Surroundings : Type 0 where
  pub stops_before : Bool
  pub enable : EnableAnswer
  pub meanwhile : Store → Store
  pub during : Store → Store
  pub redisable : Option String
  pub stops_during : Bool

pub record JobWorld : Type 0 where
  pub store : Store
  pub job : UnbanJobState

abbrev pub stopped_if : Bool → UnbanJobState → UnbanJobState
stopped_if b job = if b then stop_unban_job job else job

abbrev pub with_failure : List String → String → List String
with_failure failures m = if ltb (length failures) 20 then failures ++ m ∷ [] else failures

unfoldable pub tally_failed : UnbanJobState → String → UnbanJobState
tally_failed job m = record job {
  failed = job.failed + 1;
  failures = with_failure job.failures m;
  done = job.done + 1;
}

unfoldable pub tally_done : UnbanJobState → Bool → UnbanJobState
tally_done job enabled =
    let found : UnbanJobState = record job { enabled = job.enabled + 1; done = job.done + 1 } in
    let lost : UnbanJobState = record job { missing = job.missing + 1; done = job.done + 1 } in
    if enabled then found else lost

unfoldable pub message_of : (String → String) → String → CommitError → String
unfolding concat
message_of sanitize auth_id superseded = concat (auth_id ∷ ": " ∷ conflict ∷ [])
message_of sanitize auth_id (redisable_failed m) =
    concat (auth_id ∷ ": re-disable after concurrent ban: " ∷ sanitize m ∷ [])

unfoldable pub tally_commit :
    (String → String) → UnbanJobState → String → Bool → Option CommitError → UnbanJobState
unfolding message_of tally_failed tally_done
tally_commit sanitize job auth_id enabled none = tally_done job enabled
tally_commit sanitize job auth_id enabled (some e) =
    tally_failed job (message_of sanitize auth_id e)

abbrev owned : UnbanJobState → ℕ → UnbanJobState → UnbanJobState
owned job run_id counted = if owns_run job run_id then counted else job

-- The account's turn, once the job is known to be active.
unfoldable pub unban_account :
    (String → String) → ℕ → UnbanTarget → Surroundings → EnableAnswer → JobWorld → JobWorld
unfolding commit_unban_after_enable tally_commit tally_failed concat stop_unban_job owns_run
unban_account sanitize run_id t around (enable_fails m) w =
    let current : UnbanJobState = record w.job { current = t.auth_id } in
    let job = stopped_if around.stops_during current in
    record {
      store = around.meanwhile w.store;
      job = owned job run_id (tally_failed job (concat (t.auth_id ∷ ": " ∷ m ∷ [])));
    }
unban_account sanitize run_id t around (enables enabled) w =
    let current : UnbanJobState = record w.job { current = t.auth_id } in
    let job = stopped_if around.stops_during current in
    let c =
      commit_unban_after_enable sanitize (around.meanwhile w.store) t.auth_id t.rev true
        around.during around.redisable in
    record {
      store = c.store;
      job = owned job run_id (tally_commit sanitize job t.auth_id enabled c.error);
    }

-- The loop over the accounts, which stops where the job is no longer active.
unfoldable pub unban_each :
    (String → String) → ℕ → List (UnbanTarget × Surroundings) → JobWorld → JobWorld
unfolding unban_account is_active owns_run stop_unban_job
unban_each sanitize run_id [] w = w
unban_each sanitize run_id (x ∷ xs) w =
    let told : JobWorld = record w { job = stopped_if x.1.stops_before w.job } in
    let r = unban_account sanitize run_id x.0 x.1 x.1.enable told in
    let rest = unban_each sanitize run_id xs r in
    if not (is_active told.job run_id) then told else if owns_run r.job run_id then rest else r

-- The save of the bans at the end, with its error, and the release of the slot.
unfoldable pub end_unban_job : JobWorld → Option String → ℕ → JobWorld
unfolding concat release_unban_slot
end_unban_job w save_error now =
    let saved : UnbanJobState = elim save_error [
      | none ↦ w.job
      | some m ↦ record w.job {
        persist_error = m;
        failed = w.job.failed + 1;
        failures = with_failure w.job.failures (concat ("persist ban state: " ∷ m ∷ []));
      }
    ] in
    record w { job = release_unban_slot saved now }
