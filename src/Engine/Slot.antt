-- ===== src/Engine/Slot.antt =====
-- ban_unban_job.go, engine.go: the slot that the unban and the delete job share, and the two halves of
-- the shutdown.
use grok_inspection.Base.{
  ℕ, ◌==◌, ltb, ℤ, String, Bool, true, false, not, ◌&&◌, ◌||◌, [], Option, none, some,
  if◌then◌else◌,
}
use grok_inspection.Text.{str_eq, lower, is_empty}
use grok_inspection.Engine.State.{InspectionEngine, UnbanJobState, Refusal, bump}
use grok_inspection.Engine.Start.{refusal}

pub data ClaimAnswer : Type 0 where
  claimed : UnbanJobState → ℕ → ClaimAnswer
  claim_refused : Refusal → ClaimAnswer

unfoldable pub claim_busy : InspectionEngine → UnbanJobState → Option Refusal
claim_busy e job =
    if e.shutting_down
    then some (refusal 0 "busy: shutting down")
    else if e.running || e.applying || e.apply_draining || ltb 0 e.action_in_flight
    then some (refusal 0 "busy")
    else if job.running
    then some (refusal 0 "busy: unban already running")
    else none

unfoldable pub claim_unless : Option Refusal → ClaimAnswer → ClaimAnswer
claim_unless none a = a
claim_unless (some r) a = claim_refused r

unfoldable pub claimed_job : UnbanJobState → ℤ → String → String → ℕ → UnbanJobState
unfolding lower is_empty
claimed_job job total current mode now =
    let m = lower mode in
    record {
      run_id = bump job.run_id;
      running = true;
      stopped = false;
      mode = if is_empty m then "unban" else m;
      done = 0;
      total = total;
      enabled = 0;
      missing = 0;
      deleted = 0;
      failed = 0;
      current = current;
      failures = [];
      persist_error = "";
      started_at = some now;
      finished = none;
    }

unfoldable pub claim_unban_slot_with_mode :
    InspectionEngine → UnbanJobState → ℤ → String → String → ℕ → ClaimAnswer
unfolding claim_unless claim_busy claimed_job
claim_unban_slot_with_mode e job total current mode now =
    claim_unless (claim_busy e job)
      (claimed (claimed_job job total current mode now) (bump job.run_id))

unfoldable pub stop_unban_job : UnbanJobState → UnbanJobState
stop_unban_job job =
    let told : UnbanJobState = record job { stopped = true; current = "stopping" } in
    if job.running then told else job

unfoldable pub release_unban_slot : UnbanJobState → ℕ → UnbanJobState
unfolding str_eq
release_unban_slot job now = record job {
  running = false;
  finished = some now;
  current = if str_eq job.current "stopping" || job.stopped then "stopped" else job.current;
}

unfoldable pub owns_run : UnbanJobState → ℕ → Bool
owns_run job run_id = job.running && job.run_id == run_id

unfoldable pub is_active : UnbanJobState → ℕ → Bool
is_active job run_id = job.running && job.run_id == run_id && not job.stopped

-- The gate of the shutdown, but for the unban job.
unfoldable pub shutdown_gate : InspectionEngine → InspectionEngine
shutdown_gate e = record e {
  shutting_down = true;
  stopped = true;
  run_id = bump e.run_id;
  apply_run_id = bump e.apply_run_id;
  applying = false;
  apply_draining = true;
}

-- What the shutdown sets when all workers have ended.
unfoldable pub shutdown_end : InspectionEngine → InspectionEngine
shutdown_end e = record e { apply_draining = false }
