-- ===== src/Engine/Owner/Effects.antt =====
-- What each call does to the fields that the other calls test.
use grok_inspection.Base.{
  ℕ, ◌+◌, ◌-◌, ◌==◌, ◌%◌, String, Bool, false, not, ◌||◌, ◌≡◌, refl, ◌∙◌, ◌⊎◌, inl, inr, List,
  Option, none, some, if_cases, arith,
}
use grok_inspection.Lang.{Lang}
use grok_inspection.Accounts.{HostAuthFileEntry, AccountResult}
use grok_inspection.Engine.State.{InspectionEngine}
use grok_inspection.Engine.Run.{
  PlanAnswer, append_result, upsert_result, replace_result, set_retry_phase, finish,
  note_run_list_outcome, commit_run_plan, abort_run, stop_with_lang, stop_noted, resolve_stop_lang,
  flushed, is_stopped, planned,
}
use grok_inspection.Engine.Jobs.{note_applied, end_action, ActionTask}
use grok_inspection.Engine.Owner.{Write, appends, upserts, replaces, retries, lists, write}

-- The fields are as they were, but that the run may have ended.
abbrev pub Ends : InspectionEngine → InspectionEngine → Type 0
Ends e e' =
    ((e'.running ≡ e.running) ⊎ (e'.running ≡ false))
    × (e'.applying ≡ e.applying)
    × (e'.apply_draining ≡ e.apply_draining)
    × (e'.action_in_flight ≡ e.action_in_flight)

-- The fields are as they were.
abbrev pub Keeps : InspectionEngine → InspectionEngine → Type 0
Keeps e e' =
    (e'.running ≡ e.running)
    × (e'.applying ≡ e.applying)
    × (e'.apply_draining ≡ e.apply_draining)
    × (e'.action_in_flight ≡ e.action_in_flight)

flushed-Keeps : (e e' : InspectionEngine) (n : ℕ) → Keeps e e' → Keeps e (flushed e' n)
unfolding flushed
flushed-Keeps e e' n h = if_cases (Keeps e) (n % 25 == 0) _ e' (λ _. h) λ _. h

pub write-Keeps : (e : InspectionEngine) (run_id : ℕ) (x : Write) → Keeps e (write e run_id x)
unfolding write append_result upsert_result replace_result set_retry_phase note_run_list_outcome
write-Keeps e run_id (appends r) =
    if_cases (Keeps e) (is_stopped e run_id) e _ (λ _. (refl, refl, refl, refl))
      λ _. flushed-Keeps e _ _ (refl, refl, refl, refl)
write-Keeps e run_id (upserts r) =
    if_cases (Keeps e) (is_stopped e run_id) e _ (λ _. (refl, refl, refl, refl))
      λ _. flushed-Keeps e _ _ (refl, refl, refl, refl)
write-Keeps e run_id (replaces r) =
    if_cases (Keeps e) (is_stopped e run_id) e _ (λ _. (refl, refl, refl, refl))
      λ _. flushed-Keeps e _ _ (refl, refl, refl, refl)
write-Keeps e run_id (retries total workers) =
    if_cases (λ (p : InspectionEngine × Bool). Keeps e p.0) (is_stopped e run_id) (e, false) _
      (λ _. (refl, refl, refl, refl)) λ _. (refl, refl, refl, refl)
write-Keeps e run_id (lists ok message) =
    if_cases (Keeps e) (e.run_id == run_id) _ e (λ _. (refl, refl, refl, refl))
      λ _. (refl, refl, refl, refl)

abort-Ends : (e : InspectionEngine) (now : ℕ) → Ends e (abort_run e now)
unfolding abort_run
abort-Ends e now =
    if_cases (Ends e) e.running _ e (λ _. (inr refl, refl, refl, refl))
      λ _. (inl refl, refl, refl, refl)

pub abort-running : (e : InspectionEngine) (now : ℕ) → (abort_run e now).running ≡ false
unfolding abort_run
abort-running e now =
    if_cases (λ (x : InspectionEngine). x.running ≡ false) e.running _ e (λ _. refl) λ h. h

pub finish-Ends : (e : InspectionEngine) (run_id now : ℕ) → Ends e (finish e run_id now)
unfolding finish
finish-Ends e run_id now =
    if_cases (Ends e) (e.run_id == run_id) _ e (λ _. (inr refl, refl, refl, refl))
      λ _. (inl refl, refl, refl, refl)

ended_before : (e f g : InspectionEngine) → Ends e f → (g.running ≡ false) → Ends f g → Ends e g
ended_before e f g (r, a, d, n) h (r', a', d', n') = (inr h, a' ∙ a, d' ∙ d, n' ∙ n)

planned-Ends :
    (e : InspectionEngine) (targets : List HostAuthFileEntry) (missing : List AccountResult)
    (model : String) (scoped : Bool)
    → Ends e (planned e targets missing model scoped)
unfolding planned
planned-Ends e targets missing model scoped =
    if_cases (Ends e) e.full_clear_pending _ e (λ _. (inl refl, refl, refl, refl))
      λ _. (inl refl, refl, refl, refl)

pub commit-Ends :
    (e : InspectionEngine) (run_id : ℕ) (targets : List HostAuthFileEntry)
    (missing : List AccountResult) (model : String) (scoped : Bool) (now : ℕ)
    → Ends e ((commit_run_plan e run_id targets missing model scoped now).engine)
unfolding commit_run_plan
commit-Ends e run_id targets missing model scoped now =
    let p = planned e targets missing model scoped in
    let h : Ends e p = planned-Ends e targets missing model scoped in
    let stopped = abort_run p now in
    if_cases (λ (c : PlanAnswer). Ends e c.engine) (not (e.run_id == run_id)) _ _
      (λ _. (inl refl, refl, refl, refl))
      λ _.
        if_cases (λ (c : PlanAnswer). Ends e c.engine) e.stopped _ _
          (λ _. ended_before e p stopped h (abort-running p now) (abort-Ends p now)) λ _. h

-- A stop ends the run and cancels the apply, which goes on draining.
abbrev pub Stops : InspectionEngine → InspectionEngine → Type 0
Stops e e' =
    (e'.running ≡ false)
    × (e'.applying ≡ false)
    × (e'.apply_draining ≡ (e.applying || e.apply_draining))
    × (e'.action_in_flight ≡ e.action_in_flight)

noted-Stops :
    (e : InspectionEngine) (l : Lang)
    → ((stop_noted e l).applying ≡ false)
      × ((stop_noted e l).apply_draining ≡ (e.applying || e.apply_draining))
      × ((stop_noted e l).action_in_flight ≡ e.action_in_flight)
unfolding stop_noted
noted-Stops e l =
    if_cases
      (λ (x : InspectionEngine).
        (x.applying ≡ false)
        × (x.apply_draining ≡ (e.applying || e.apply_draining))
        × (x.action_in_flight ≡ e.action_in_flight))
      e.applying _ _ (λ h. (refl, ground arith, refl)) λ h. (h, ground arith, refl)

pub stop-Stops :
    (e : InspectionEngine) (lang : String) (now : ℕ) → Stops e (stop_with_lang e lang now)
unfolding stop_with_lang
stop-Stops e lang now =
    let noted = stop_noted e (resolve_stop_lang e lang) in
    let (a, d, n) = noted-Stops e (resolve_stop_lang e lang) in
    let (r, a', d', n') = abort-Ends noted now in (abort-running noted now, a' ∙ a, d' ∙ d, n' ∙ n)

pub note-Keeps :
    (e : InspectionEngine) (apply_id done : ℕ) (failures : List String) (is_last : Bool)
    → Keeps e (note_applied e apply_id done failures is_last)
unfolding note_applied
note-Keeps e apply_id done failures is_last =
    if_cases (Keeps e) (e.apply_run_id == apply_id) _ e
      (λ _.
        if_cases (Keeps e) ((e.apply_done + done) % 25 == 0 || is_last) _ _
          (λ _. (refl, refl, refl, refl)) λ _. (refl, refl, refl, refl))
      λ _. (refl, refl, refl, refl)

pub end_action-Ends :
    (e : InspectionEngine) (task : ActionTask) (error : Option String)
    → ((end_action e task error).running ≡ e.running)
      × ((end_action e task error).applying ≡ e.applying)
      × ((end_action e task error).action_in_flight ≡ e.action_in_flight - 1)
unfolding end_action
end_action-Ends e task none = (refl, refl, refl)
end_action-Ends e task (some m) = (refl, refl, refl)
