-- ===== src/Engine/Outcome.antt =====
-- The ids of the runs: what is asked about a run that a newer one, or a stop, has replaced.
pub mod Numbers
use grok_inspection.Engine.Outcome.Numbers.{Ids, after-Ids}
use grok_inspection.Base.{
  ℕ, suc, ◌+◌, ◌-◌, ◌%◌, ◌^◌, ◌==◌, ◌<◌, ltb, String, Bool, true, false, not, ◌&&◌, ◌||◌, ◌≡◌, ◌≢◌,
  refl, sym, ap, ◌∙◌, ◌⊎◌, inl, inr, List, [], ◌∷◌, length, Option, none, some, if_cases, arith,
  if◌then◌else◌,
}
use grok_inspection.Text.{is_empty, trim_space, first_non_empty}
use grok_inspection.Lang.{Lang, normalize_lang}
use grok_inspection.Accounts.{HostAuthFileEntry, AccountResult}
use grok_inspection.Accounts.Select.{ApplyRequest, Candidates, collect_candidates}
use grok_inspection.Accounts.Select.Candidates.{ok, err}
use grok_inspection.Engine.State.{InspectionEngine, UnbanJobState, Refusal, bump}
use grok_inspection.Engine.Run.{
  PlanAnswer, append_result, upsert_result, replace_result, set_retry_phase, finish,
  note_run_list_outcome, commit_run_plan, abort_run, stop_with_lang, stop_noted, resolve_stop_lang,
  flushed, is_stopped, planned, WaitState, run_superseded, RunOutcome, inspection_run_wait_state,
  finished_run_outcome, finished_run_probed_keys,
}
use grok_inspection.Engine.Start.{
  StartAnswer, started, refused, Asked, accepted, rejected, start_with_run_id, read_request,
  start_locked, start_unless, start_refusal, begin_run, RunOptions,
}
use grok_inspection.Engine.Jobs.{
  ApplyAnswer, applies, apply_refused, apply_unless, apply_chosen, apply_candidates, begin_apply,
  start_apply, apply_busy, ActionAnswer, ActionRequest, acts, action_unless, start_action,
  begin_action, action_busy, action_task, note_applied, end_apply, end_action, ActionTask,
}
use grok_inspection.Engine.Slot.{
  ClaimAnswer, claimed, claim_refused, claim_unban_slot_with_mode, claim_unless, shutdown_gate,
  shutdown_end,
}
use grok_inspection.Engine.Owner.{
  World, with_engine, after_start, after_apply, after_action, after_claim, after, history, Write,
  appends, upserts, replaces, retries, lists, write, Event, asks_inspection, asks_apply,
  asks_action, asks_job, asks_stop, writes, commits, finishes, progresses, apply_ends, action_ends,
  job_ends, shuts_down, shutdown_ends,
}

-- The run is neither the present one nor the one that was published last, and its id is a past one.
abbrev pub IsPast : ℕ → InspectionEngine → Type 0
IsPast run_id e = (run_id < e.run_id) × (e.last_finished_run_id ≢ run_id)

ne_of_gt : (a b c : ℕ) → a < b → c ≡ b → c ≢ a
ne_of_gt a b c h e k = omega (arith, h, e, k)

IsPast-step :
    (run_id n : ℕ) (e e' : InspectionEngine)
    → IsPast run_id e
    → e.run_id + suc n < 2 ^ 64
    → Ids e e'
    → IsPast run_id e' × (e'.run_id + n < 2 ^ 64)
IsPast-step run_id n e e' (h, k) b (r, l) = ((p r, q l), s r)
  where
    p : (e'.run_id ≡ e.run_id) ⊎ (e'.run_id ≡ bump e.run_id) → run_id < e'.run_id
    p (inl x) = omega arith
    p (inr x) = omega arith

    q :
        (e'.last_finished_run_id ≡ e.last_finished_run_id) ⊎ (e'.last_finished_run_id ≡ e.run_id)
        → e'.last_finished_run_id ≢ run_id
    q (inl x) = λ y. k (sym x ∙ y)
    q (inr x) = ne_of_gt run_id e.run_id e'.last_finished_run_id h x

    s : (e'.run_id ≡ e.run_id) ⊎ (e'.run_id ≡ bump e.run_id) → e'.run_id + n < 2 ^ 64
    s (inl x) = omega arith
    s (inr x) = omega arith

history-IsPast :
    (evs : List Event) (w : World) (run_id : ℕ)
    → IsPast run_id w.engine
    → w.engine.run_id + length evs < 2 ^ 64
    → IsPast run_id ((history evs w).engine)
unfolding history
history-IsPast [] w run_id h b = h
history-IsPast (ev ∷ evs) w run_id h b =
    let (p, q) =
      IsPast-step run_id (length evs) w.engine ((after ev w).engine) h b (after-Ids w ev) in
    history-IsPast evs (after ev w) run_id p q

-- What a client and the workers of the run see of the engine.
abbrev pub IsSuperseded : ℕ → InspectionEngine → Type 0
IsSuperseded run_id e =
    (inspection_run_wait_state e run_id ≡ run_superseded)
    × (finished_run_outcome e run_id ≡ none)
    × (finished_run_probed_keys e run_id ≡ none)
    × ((x : Write) → write e run_id x ≡ e)

stale_write :
    (run_id : ℕ) (e : InspectionEngine)
    → (e.run_id == run_id) ≡ false
    → (x : Write) → write e run_id x ≡ e
unfolding write append_result upsert_result replace_result set_retry_phase note_run_list_outcome
    is_stopped
stale_write run_id e h (appends r) = ground arith
stale_write run_id e h (upserts r) = ground arith
stale_write run_id e h (replaces r) = ground arith
stale_write run_id e h (retries total workers) = ground arith
stale_write run_id e h (lists listed message) = ground arith

past-IsSuperseded : (run_id : ℕ) (e : InspectionEngine) → IsPast run_id e → IsSuperseded run_id e
unfolding inspection_run_wait_state finished_run_outcome finished_run_probed_keys
past-IsSuperseded run_id e (h, k) =
    let r : (e.run_id == run_id) ≡ false = ground arith in
    let l : (e.last_finished_run_id == run_id) ≡ false = ground arith in
    (ground arith, ground arith, ground arith, stale_write run_id e r)

-- A run whose id is a past one, and that was not the last to be published, stays superseded through
-- every sequence of calls that cannot bring its id back, which takes 2 ^ 64 of them: it is reported
-- neither as running nor as finished, no outcome and no accounts are published for it, and what its
-- workers still write changes nothing.
pub history-IsSuperseded :
    (evs : List Event) (w : World) (run_id : ℕ)
    → run_id < w.engine.run_id
    → w.engine.last_finished_run_id ≢ run_id
    → w.engine.run_id + length evs < 2 ^ 64
    → IsSuperseded run_id ((history evs w).engine)
history-IsSuperseded evs w run_id h k b =
    past-IsSuperseded run_id ((history evs w).engine) (history-IsPast evs w run_id (h, k) b)
