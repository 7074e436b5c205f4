-- ===== src/Engine/Owner.antt =====
-- The engine with the workers that it has started, and the calls in any order: a request, the end of
-- a worker, a stop, a shutdown.
pub mod Effects
pub mod Requests
pub mod Refined
use grok_inspection.Base.{
  ℕ, suc, ◌+◌, ◌-◌, ◌==◌, ltb, ℤ, String, Bool, true, false, not, ◌&&◌, List, [], ◌∷◌, Option, none,
  some, if◌then◌else◌,
}
use grok_inspection.Lang.{Lang}
use grok_inspection.Accounts.{HostAuthFileEntry, AccountResult}
use grok_inspection.Accounts.Select.{ApplyRequest}
use grok_inspection.Schedule.Settings.{StartRequest}
use grok_inspection.Engine.State.{InspectionEngine, UnbanJobState, new_engine, new_unban_job}
use grok_inspection.Engine.Run.{
  PlanAnswer, stop_with_lang, append_result, upsert_result, replace_result, set_retry_phase, finish,
  note_run_list_outcome, commit_run_plan,
}
use grok_inspection.Engine.Start.{StartAnswer, started, refused, start_with_run_id}
use grok_inspection.Engine.Jobs.{
  ApplyAnswer, applies, apply_refused, start_apply, note_applied, end_apply, ActionRequest,
  ActionTask, ActionAnswer, acts, action_refused, start_action, end_action,
}
use grok_inspection.Engine.Slot.{
  ClaimAnswer, claimed, claim_refused, claim_unban_slot_with_mode, stop_unban_job,
  release_unban_slot, shutdown_gate, shutdown_end,
}

-- The last three count the workers that have begun and not ended: of bulk applies, of row actions,
-- and of unban or delete jobs. No call of the code reads them.
pub record World : Type 0 where
  pub engine : InspectionEngine
  pub job : UnbanJobState
  pub live_applies : ℕ
  pub live_actions : ℕ
  pub live_claims : ℕ

abbrev pub new_world : World
new_world = record {
  engine = new_engine;
  job = new_unban_job;
  live_applies = 0;
  live_actions = 0;
  live_claims = 0;
}

-- What the workers of an inspection write under its id.
pub data Write : Type 0 where
  appends upserts replaces : AccountResult → Write
  retries : ℕ → ℕ → Write
  lists : Bool → String → Write

unfoldable pub write : InspectionEngine → ℕ → Write → InspectionEngine
unfolding append_result upsert_result replace_result set_retry_phase note_run_list_outcome
write e run_id (appends result) = append_result e run_id result
write e run_id (upserts result) = upsert_result e run_id result
write e run_id (replaces result) = replace_result e run_id result
write e run_id (retries total workers) = (set_retry_phase e run_id total workers).0
write e run_id (lists ok message) = note_run_list_outcome e run_id ok message

pub data Event : Type 0 where
  asks_inspection : StartRequest → ℕ → Event
  asks_apply : String → ApplyRequest → Event
  asks_action : ActionRequest → Event
  asks_job : ℤ → String → String → ℕ → Event
  asks_stop : String → ℕ → Event
  writes : ℕ → Write → Event
  commits : ℕ → List HostAuthFileEntry → List AccountResult → String → Bool → ℕ → Event
  finishes : ℕ → ℕ → Event
  progresses : ℕ → ℕ → List String → Bool → Event
  apply_ends : ℕ → Lang → Option String → Event
  action_ends : ActionTask → Option String → Event
  job_ends : ℕ → Event
  shuts_down : Event
  shutdown_ends : Event

abbrev pub with_engine : World → InspectionEngine → World
with_engine w e = record w { engine = e }

abbrev pub after_start : World → StartAnswer → World
after_start w (started e run_id) = record w { engine = e }
after_start w (refused r) = w

abbrev pub after_apply : World → ApplyAnswer → World
after_apply w (applies e apply_id rows) = record w { engine = e; live_applies = w.live_applies + 1 }
after_apply w (apply_refused r) = w

abbrev pub after_action : World → ActionAnswer → World
after_action w (acts e task) = record w { engine = e; live_actions = w.live_actions + 1 }
after_action w (action_refused r) = w

abbrev pub after_claim : World → ClaimAnswer → World
after_claim w (claimed job run_id) = record w { job = job; live_claims = w.live_claims + 1 }
after_claim w (claim_refused r) = w

-- A worker ends only if one is at work; the shutdown ends when the applies and actions have ended.
unfoldable pub after : Event → World → World
unfolding start_with_run_id start_apply start_action claim_unban_slot_with_mode stop_unban_job
    stop_with_lang write commit_run_plan finish note_applied end_apply end_action release_unban_slot
    shutdown_gate shutdown_end
after (asks_inspection req now) w = after_start w (start_with_run_id w.engine w.job req now)
after (asks_apply lang req) w = after_apply w (start_apply w.engine w.job lang req)
after (asks_action req) w = after_action w (start_action w.engine w.job req)
after (asks_job total current mode now) w =
    after_claim w (claim_unban_slot_with_mode w.engine w.job total current mode now)
after (asks_stop lang now) w = record w {
  engine = stop_with_lang w.engine lang now;
  job = stop_unban_job w.job;
}
after (writes run_id x) w = with_engine w (write w.engine run_id x)
after (commits run_id targets missing model scoped now) w =
    with_engine w ((commit_run_plan w.engine run_id targets missing model scoped now).engine)
after (finishes run_id now) w = with_engine w (finish w.engine run_id now)
after (progresses apply_id done failures is_last) w =
    with_engine w (note_applied w.engine apply_id done failures is_last)
after (apply_ends apply_id lang failure) w =
    let ended : World = record w {
      engine = end_apply w.engine apply_id lang failure;
      live_applies = w.live_applies - 1;
    } in
    if ltb 0 w.live_applies then ended else w
after (action_ends task error) w =
    let ended : World = record w {
      engine = end_action w.engine task error;
      live_actions = w.live_actions - 1;
    } in
    if ltb 0 w.live_actions then ended else w
after (job_ends now) w =
    let ended : World = record w {
      job = release_unban_slot w.job now;
      live_claims = w.live_claims - 1;
    } in
    if ltb 0 w.live_claims then ended else w
after shuts_down w = record w { engine = shutdown_gate w.engine; job = stop_unban_job w.job }
after shutdown_ends w =
    if w.engine.shutting_down && w.live_applies == 0 && w.live_actions == 0
    then with_engine w (shutdown_end w.engine)
    else w

-- The calls in their order.
unfoldable pub history : List Event → World → World
unfolding after
history [] w = w
history (ev ∷ evs) w = history evs (after ev w)

-- The abstract view: one turn, that nobody has or that one kind of work has. `acting n` stands for
-- n + 1 row actions side by side.
pub data Owner : Type 0 where
  idle inspecting applying unbanning : Owner
  acting : ℕ → Owner

-- What an event may do to the turn.
pub data Call : Type 0 where
  asks_run asks_bulk asks_row asks_unban ends_run ends_bulk ends_row ends_unban leaves : Call

abbrev pub call_of : Event → Call
call_of (asks_inspection req now) = asks_run
call_of (asks_apply lang req) = asks_bulk
call_of (asks_action req) = asks_row
call_of (asks_job total current mode now) = asks_unban
call_of (asks_stop lang now) = ends_run
call_of (writes run_id x) = leaves
call_of (commits run_id targets missing model scoped now) = ends_run
call_of (finishes run_id now) = ends_run
call_of (progresses apply_id done failures is_last) = leaves
call_of (apply_ends apply_id lang failure) = ends_bulk
call_of (action_ends task error) = ends_row
call_of (job_ends now) = ends_unban
call_of shuts_down = leaves
call_of shutdown_ends = leaves

-- A call leaves the turn, or moves it in the one way that its kind allows.
pub data Turn : Call → Owner → Owner → Type 0 where
  keep : {k : Call} {o : Owner} → Turn k o o
  begin_inspecting : Turn asks_run idle inspecting
  end_inspecting : Turn ends_run inspecting idle
  begin_applying : Turn asks_bulk idle applying
  end_applying : Turn ends_bulk applying idle
  begin_unbanning : Turn asks_unban idle unbanning
  end_unbanning : Turn ends_unban unbanning idle
  begin_acting : Turn asks_row idle (acting 0)
  one_more : {n : ℕ} → Turn asks_row (acting n) (acting (suc n))
  one_less : {n : ℕ} → Turn ends_row (acting (suc n)) (acting n)
  end_acting : Turn ends_row (acting 0) idle

abbrev pub is_inspecting : Owner → Bool
is_inspecting inspecting = true
is_inspecting _ = false

abbrev pub is_applying : Owner → ℕ
is_applying applying = 1
is_applying _ = 0

abbrev pub is_unbanning : Owner → ℕ
is_unbanning unbanning = 1
is_unbanning _ = 0

abbrev pub actions_of : Owner → ℕ
actions_of (acting n) = suc n
actions_of _ = 0
