-- ===== src/Engine/Unban/One.antt =====
-- ban_unban_job.go, unbanOneAccountWithOrigin: one account given back at once, in the slot of the jobs.
use grok_inspection.Base.{
  ℕ, ◌+◌, pos, String, Bool, true, false, ◌&&◌, [], ◌∷◌, Option, none, some, if◌then◌else◌,
}
use grok_inspection.Text.{is_empty, trim_space, concat}
use grok_inspection.Ban.Detector.{BanEntry}
use grok_inspection.Ban.Store.{Store, get}
use grok_inspection.Engine.State.{InspectionEngine, UnbanJobState, Refusal}
use grok_inspection.Engine.Slot.{
  ClaimAnswer, claimed, claim_refused, claim_unban_slot_with_mode, release_unban_slot,
  stop_unban_job,
}
use grok_inspection.Engine.Unban.{
  CommitError, CommitAnswer, commit_unban_after_enable, EnableAnswer, enables, enable_fails,
  Surroundings, JobWorld, stopped_if, tally_failed, message_of,
}

-- `unsaved` carries the error of a save that has failed beside it.
pub data OneError : Type 0 where
  missing_auth_id : OneError
  busy : Refusal → OneError
  enable_failed : String → OneError
  kept_newer : CommitError → Option String → OneError
  unsaved : String → OneError

pub record OneAnswer : Type 0 where
  pub world : JobWorld
  pub enabled : Bool
  pub removed : Bool
  pub error : Option OneError

-- The count of a commit without an error: an account that was enabled without a ban of it being taken
-- away is a failure, of which no message is listed.
unfoldable pub tally_one : UnbanJobState → Bool → Bool → UnbanJobState
tally_one job enabled removed =
    let one : UnbanJobState = record job { done = job.done + 1 } in
    let found : UnbanJobState = record one { enabled = job.enabled + 1 } in
    let lost : UnbanJobState = record one { missing = job.missing + 1 } in
    let odd : UnbanJobState = record one { failed = job.failed + 1 } in
    if enabled && removed then found else if enabled then odd else lost

revision_of : Option BanEntry → ℕ
revision_of none = 0
revision_of (some entry) = entry.revision

is_some : Option BanEntry → Bool
is_some none = false
is_some (some entry) = true

unsaved_if : Option String → Option OneError
unsaved_if none = none
unsaved_if (some m) = some (unsaved m)

module _ (sanitize : String → String) (around : Surroundings) (save_error : Option String)
    (end : ℕ) where
  after_commit : UnbanJobState → String → Bool → CommitAnswer → Option CommitError → OneAnswer
  unfolding tally_one tally_failed message_of release_unban_slot unsaved_if
  after_commit job id enabled c none = record {
    world = record {
      store = c.store;
      job = release_unban_slot (tally_one job enabled c.removed) end;
    };
    enabled = enabled && c.removed;
    removed = c.removed;
    error = unsaved_if save_error;
  }
  after_commit job id enabled c (some e) = record {
    world = record {
      store = c.store;
      job = release_unban_slot (tally_failed job (message_of sanitize id e)) end;
    };
    enabled = false;
    removed = false;
    error = some (kept_newer e save_error);
  }

  -- `job` holds the slot.
  with_slot : UnbanJobState → Store → String → EnableAnswer → OneAnswer
  unfolding after_commit commit_unban_after_enable tally_failed release_unban_slot stop_unban_job
      revision_of is_some concat
  with_slot job s id (enable_fails m) =
      let told = stopped_if around.stops_during job in
      record {
        world = record {
          store = around.meanwhile s;
          job = release_unban_slot (tally_failed told (concat (id ∷ ": " ∷ m ∷ []))) end;
        };
        enabled = false;
        removed = false;
        error = some (enable_failed m);
      }
  with_slot job s id (enables enabled) =
      let told = stopped_if around.stops_during job in
      let entry = get s id in
      let c =
        commit_unban_after_enable sanitize (around.meanwhile s) id (revision_of entry)
          (is_some entry) around.during around.redisable in
      after_commit told id enabled c c.error

  slot_or_error : JobWorld → String → ClaimAnswer → OneAnswer
  unfolding with_slot
  slot_or_error w id (claimed job run_id) = with_slot job w.store id around.enable
  slot_or_error w id (claim_refused r) = record {
    world = w;
    enabled = false;
    removed = false;
    error = some (busy r);
  }

  unfoldable pub unban_one_account : InspectionEngine → JobWorld → String → ℕ → OneAnswer
  unfolding slot_or_error claim_unban_slot_with_mode trim_space is_empty
  unban_one_account e w auth_id now =
      let id = trim_space auth_id in
      let refused : OneAnswer = record {
        world = w;
        enabled = false;
        removed = false;
        error = some missing_auth_id;
      } in
      let answer = slot_or_error w id (claim_unban_slot_with_mode e w.job (pos 1) id "unban" now) in
      if is_empty id then refused else answer
