-- ===== src/Engine/Outcome/Numbers.antt =====
-- What each call does to the ids of the runs.
use grok_inspection.Base.{
  ℕ, ◌+◌, ◌%◌, ◌==◌, ltb, String, Bool, false, not, ◌&&◌, ◌||◌, ◌≡◌, refl, ap, ◌⊎◌, inl, inr, List,
  [], ◌∷◌, Option, none, some, if_cases, arith,
}
use grok_inspection.Text.{is_empty, trim_space, first_non_empty}
use grok_inspection.Lang.{Lang, normalize_lang}
use grok_inspection.Accounts.{HostAuthFileEntry, AccountResult}
use grok_inspection.Accounts.Select.{ApplyRequest, Candidates, collect_candidates}
use grok_inspection.Accounts.Select.Candidates.{ok, err}
use grok_inspection.Engine.State.{InspectionEngine, Refusal, bump}
use grok_inspection.Engine.Run.{
  PlanAnswer, append_result, upsert_result, replace_result, set_retry_phase, finish,
  note_run_list_outcome, commit_run_plan, abort_run, stop_with_lang, stop_noted, resolve_stop_lang,
  flushed, is_stopped, planned,
}
use grok_inspection.Engine.Start.{
  started, Asked, accepted, rejected, start_with_run_id, read_request, start_locked, start_unless,
  start_refusal, begin_run,
}
use grok_inspection.Engine.Jobs.{
  ApplyAnswer, apply_unless, apply_chosen, apply_candidates, begin_apply, start_apply, apply_busy,
  ActionAnswer, ActionRequest, acts, action_unless, start_action, begin_action, action_busy,
  action_task, note_applied, end_apply, end_action, ActionTask,
}
use grok_inspection.Engine.Slot.{
  ClaimAnswer, claimed, claim_refused, claim_unban_slot_with_mode, shutdown_gate, shutdown_end,
}
use grok_inspection.Engine.Owner.{
  World, after_start, after_apply, after_action, after_claim, after, Write, appends, upserts,
  replaces, retries, lists, write, Event, asks_inspection, asks_apply, asks_action, asks_job,
  asks_stop, writes, commits, finishes, progresses, apply_ends, action_ends, job_ends, shuts_down,
  shutdown_ends,
}

-- The run's id stays or is the next, and the run that was published last stays or is the present one.
abbrev pub Ids : InspectionEngine → InspectionEngine → Type 0
Ids e e' =
    ((e'.run_id ≡ e.run_id) ⊎ (e'.run_id ≡ bump e.run_id))
    × ((e'.last_finished_run_id ≡ e.last_finished_run_id) ⊎ (e'.last_finished_run_id ≡ e.run_id))

-- Neither changes.
abbrev Same : InspectionEngine → InspectionEngine → Type 0
Same e e' = (e'.run_id ≡ e.run_id) × (e'.last_finished_run_id ≡ e.last_finished_run_id)

flushed-Same : (e e' : InspectionEngine) (n : ℕ) → Same e e' → Same e (flushed e' n)
unfolding flushed
flushed-Same e e' n h = if_cases (Same e) (n % 25 == 0) _ e' (λ _. h) λ _. h

write-Same : (e : InspectionEngine) (run_id : ℕ) (x : Write) → Same e (write e run_id x)
unfolding write append_result upsert_result replace_result set_retry_phase note_run_list_outcome
write-Same e run_id (appends r) =
    if_cases (Same e) (is_stopped e run_id) e _ (λ _. (refl, refl))
      λ _. flushed-Same e _ _ (refl, refl)
write-Same e run_id (upserts r) =
    if_cases (Same e) (is_stopped e run_id) e _ (λ _. (refl, refl))
      λ _. flushed-Same e _ _ (refl, refl)
write-Same e run_id (replaces r) =
    if_cases (Same e) (is_stopped e run_id) e _ (λ _. (refl, refl))
      λ _. flushed-Same e _ _ (refl, refl)
write-Same e run_id (retries total workers) =
    if_cases (λ (p : InspectionEngine × Bool). Same e p.0) (is_stopped e run_id) (e, false) _
      (λ _. (refl, refl)) λ _. (refl, refl)
write-Same e run_id (lists listed message) =
    if_cases (Same e) (e.run_id == run_id) _ e (λ _. (refl, refl)) λ _. (refl, refl)

of_Same : (e e' : InspectionEngine) → Same e e' → Ids e e'
of_Same e e' (r, l) = (inl r, inl l)

abort-Ids : (e f : InspectionEngine) (now : ℕ) → Same e f → Ids e (abort_run f now)
unfolding abort_run
abort-Ids e f now (r, l) =
    if_cases (Ids e) f.running _ f (λ _. (inr (ap bump r), inl l)) λ _. (inl r, inl l)

noted-Same : (e : InspectionEngine) (l : Lang) → Same e (stop_noted e l)
unfolding stop_noted
noted-Same e l = if_cases (Same e) e.applying _ _ (λ _. (refl, refl)) λ _. (refl, refl)

stop-Ids : (e : InspectionEngine) (lang : String) (now : ℕ) → Ids e (stop_with_lang e lang now)
unfolding stop_with_lang
stop-Ids e lang now =
    abort-Ids e (stop_noted e (resolve_stop_lang e lang)) now
      (noted-Same e (resolve_stop_lang e lang))

planned-Same :
    (e : InspectionEngine) (targets : List HostAuthFileEntry) (missing : List AccountResult)
    (model : String) (scoped : Bool)
    → Same e (planned e targets missing model scoped)
unfolding planned
planned-Same e targets missing model scoped =
    if_cases (Same e) e.full_clear_pending _ e (λ _. (refl, refl)) λ _. (refl, refl)

commit-Ids :
    (e : InspectionEngine) (run_id : ℕ) (targets : List HostAuthFileEntry)
    (missing : List AccountResult) (model : String) (scoped : Bool) (now : ℕ)
    → Ids e ((commit_run_plan e run_id targets missing model scoped now).engine)
unfolding commit_run_plan
commit-Ids e run_id targets missing model scoped now =
    let p = planned e targets missing model scoped in
    let h : Same e p = planned-Same e targets missing model scoped in
    if_cases (λ (c : PlanAnswer). Ids e c.engine) (not (e.run_id == run_id)) _ _
      (λ _. (inl refl, inl refl))
      λ _.
        if_cases (λ (c : PlanAnswer). Ids e c.engine) e.stopped _ _ (λ _. abort-Ids e p now h)
          λ _. of_Same e p h

finish-Ids : (e : InspectionEngine) (run_id now : ℕ) → Ids e (finish e run_id now)
unfolding finish
finish-Ids e run_id now =
    if_cases (Ids e) (e.run_id == run_id) _ e (λ h. (inl refl, inr (ground arith)))
      λ _. (inl refl, inl refl)

start-Ids :
    (w : World) (now : ℕ) (a : Asked)
    → Ids w.engine ((after_start w (start_locked w.engine w.job now a)).engine)
unfolding start_locked start_unless begin_run
start-Ids w now (rejected r) = (inl refl, inl refl)
start-Ids w now (accepted opts) = unless (start_refusal w.engine w.job opts)
  where
    unless :
        (q : Option Refusal)
        → Ids w.engine (
            (after_start w (
              start_unless q
                (started (begin_run w.engine opts now) (bump w.engine.run_id)))).engine)
    unless none = (inr refl, inl refl)
    unless (some r) = (inl refl, inl refl)

chosen-Same :
    (w : World) (a : ApplyAnswer) (q : Option Refusal)
    → Same w.engine ((after_apply w a).engine)
    → Same w.engine ((after_apply w (apply_unless q a)).engine)
unfolding apply_unless
chosen-Same w a none h = h
chosen-Same w a (some r) h = (refl, refl)

rows-Same :
    (w : World) (lang : Lang) (force : String) (cs : Candidates)
    → Same w.engine ((after_apply w (apply_chosen w.engine lang force cs)).engine)
unfolding apply_chosen apply_candidates begin_apply
rows-Same w lang force (err x) = (refl, refl)
rows-Same w lang force (ok []) =
    if_cases (λ (a : ApplyAnswer). Same w.engine ((after_apply w a).engine))
      (is_empty (trim_space force)) _ _ (λ _. (refl, refl)) λ _. (refl, refl)
rows-Same w lang force (ok (c ∷ cs)) = (refl, refl)

apply-Same :
    (w : World) (lang : String) (req : ApplyRequest)
    → Same w.engine ((after_apply w (start_apply w.engine w.job lang req)).engine)
unfolding start_apply
apply-Same w lang req =
    chosen-Same w _ (apply_busy w.engine w.job)
      (rows-Same w (normalize_lang lang) req.force_action (collect_candidates w.engine.results req))

unless-Same :
    (w : World) (task : ActionTask) (q : Option Refusal)
    → Same w.engine ((after_action w (action_unless q (acts (begin_action w.engine) task))).engine)
unfolding action_unless begin_action
unless-Same w task none = (refl, refl)
unless-Same w task (some r) = (refl, refl)

action-Same :
    (w : World) (req : ActionRequest)
    → Same w.engine ((after_action w (start_action w.engine w.job req)).engine)
unfolding start_action
action-Same w req =
    if_cases (λ (a : ActionAnswer). Same w.engine ((after_action w a).engine))
      (is_empty (first_non_empty (req.name ∷ req.auth_index ∷ []))) _ _ (λ _. (refl, refl))
      λ _.
        unless-Same w (action_task w.engine req (first_non_empty (req.name ∷ req.auth_index ∷ [])))
          (action_busy w.engine w.job)

claim-Same : (w : World) (a : ClaimAnswer) → Same w.engine ((after_claim w a).engine)
claim-Same w (claimed job run_id) = (refl, refl)
claim-Same w (claim_refused r) = (refl, refl)

end_action-Same :
    (e : InspectionEngine) (task : ActionTask) (error : Option String)
    → Same e (end_action e task error)
unfolding end_action
end_action-Same e task none = (refl, refl)
end_action-Same e task (some m) = (refl, refl)

note-Same :
    (e : InspectionEngine) (apply_id done : ℕ) (failures : List String) (is_last : Bool)
    → Same e (note_applied e apply_id done failures is_last)
unfolding note_applied
note-Same e apply_id done failures is_last =
    if_cases (Same e) (e.apply_run_id == apply_id) _ e
      (λ _.
        if_cases (Same e) ((e.apply_done + done) % 25 == 0 || is_last) _ _ (λ _. (refl, refl))
          λ _. (refl, refl))
      λ _. (refl, refl)

pub after-Ids : (w : World) (ev : Event) → Ids w.engine ((after ev w).engine)
unfolding after start_with_run_id end_apply shutdown_gate shutdown_end
after-Ids w (asks_inspection req now) = start-Ids w now (read_request req)
after-Ids w (asks_apply lang req) = let h = apply-Same w lang req in (inl h.0, inl h.1)
after-Ids w (asks_action req) = let h = action-Same w req in (inl h.0, inl h.1)
after-Ids w (asks_job total current mode now) =
    let h = claim-Same w (claim_unban_slot_with_mode w.engine w.job total current mode now) in
    (inl h.0, inl h.1)
after-Ids w (asks_stop lang now) = stop-Ids w.engine lang now
after-Ids w (writes run_id x) = let h = write-Same w.engine run_id x in (inl h.0, inl h.1)
after-Ids w (commits run_id targets missing model scoped now) =
    commit-Ids w.engine run_id targets missing model scoped now
after-Ids w (finishes run_id now) = finish-Ids w.engine run_id now
after-Ids w (progresses apply_id n failures is_last) =
    let h = note-Same w.engine apply_id n failures is_last in (inl h.0, inl h.1)
after-Ids w (apply_ends apply_id lang failure) =
    if_cases (λ (x : World). Ids w.engine x.engine) (ltb 0 w.live_applies) _ w
      (λ _. (inl refl, inl refl)) λ _. (inl refl, inl refl)
after-Ids w (action_ends task error) =
    if_cases (λ (x : World). Ids w.engine x.engine) (ltb 0 w.live_actions) _ w
      (λ _. let h = end_action-Same w.engine task error in (inl h.0, inl h.1))
      λ _. (inl refl, inl refl)
after-Ids w (job_ends now) =
    if_cases (λ (x : World). Ids w.engine x.engine) (ltb 0 w.live_claims) _ w
      (λ _. (inl refl, inl refl)) λ _. (inl refl, inl refl)
after-Ids w shuts_down = (inr refl, inl refl)
after-Ids w shutdown_ends =
    if_cases (λ (x : World). Ids w.engine x.engine)
      (w.engine.shutting_down && w.live_applies == 0 && w.live_actions == 0) _ w
      (λ _. (inl refl, inl refl)) λ _. (inl refl, inl refl)
