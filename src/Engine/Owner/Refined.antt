-- ===== src/Engine/Owner/Refined.antt =====
-- The calls take turns.
use grok_inspection.Engine.Owner.Requests.{
  ApplyFits, Fits, Moves, run_ended, Ends-Moves, Keeps-Moves, stopped_apply, asked-Moves,
  apply-Moves, claim-Moves, action-Moves,
}
use grok_inspection.Base.{
  ℕ, zero, suc, ◌-◌, ◌==◌, ltb, String, true, ◌&&◌, ◌≡◌, refl, ◌∙◌, List, [], ◌∷◌, Option, if_cases,
  arith,
}
use grok_inspection.Lang.{Lang}
use grok_inspection.Engine.State.{InspectionEngine, UnbanJobState}
use grok_inspection.Engine.Run.{stop_with_lang}
use grok_inspection.Engine.Start.{start_with_run_id, read_request}
use grok_inspection.Engine.Jobs.{ActionTask, end_action, end_apply}
use grok_inspection.Engine.Slot.{stop_unban_job, release_unban_slot, shutdown_gate, shutdown_end}
use grok_inspection.Engine.Owner.{
  World, Event, asks_inspection, asks_apply, asks_action, asks_job, asks_stop, writes, commits,
  finishes, progresses, apply_ends, action_ends, job_ends, shuts_down, shutdown_ends, after,
  call_of, ends_run, ends_bulk, ends_row, ends_unban, leaves, Turn, with_engine, Owner, idle,
  inspecting, applying, unbanning, acting,
}
use grok_inspection.Engine.Owner.{keep, end_applying, end_unbanning, one_less, end_acting}
use grok_inspection.Engine.Owner.Effects.{
  Stops, write-Keeps, finish-Ends, commit-Ends, stop-Stops, note-Keeps, end_action-Ends,
}

stop-Moves :
    (o : Owner) (w : World) (e : InspectionEngine) (job : UnbanJobState)
    → Fits o w
    → Stops w.engine e
    → job.running ≡ w.job.running
    → Moves ends_run o (record w { engine = e; job = job })
stop-Moves o w e job f (r, a, d, n) j =
    let (p, t, g) = run_ended o w e f r (stopped_apply o w.engine e f.1 a d) (n ∙ f.2) in
    (p, t, (g.0, g.1, g.2, g.3, g.4, g.5, j ∙ g.6))

stop_job-running : (job : UnbanJobState) → (stop_unban_job job).running ≡ job.running
unfolding stop_unban_job
stop_job-running job =
    if_cases (λ (x : UnbanJobState). x.running ≡ job.running) job.running _ job (λ _. refl)
      λ _. refl

apply_ended :
    (o : Owner) (w : World) (apply_id : ℕ) (lang : Lang) (failure : Option String)
    → Fits o w
    → ltb 0 w.live_applies ≡ true
    → Moves ends_bulk o (record w {
      engine = end_apply w.engine apply_id lang failure;
      live_applies = w.live_applies - 1;
    })
unfolding end_apply
apply_ended applying w apply_id lang failure f h =
    (idle, end_applying, (f.0, refl, f.2, omega (arith, f.3), f.4, f.5, f.6))
apply_ended idle w apply_id lang failure f h = ground (arith, f.3)
apply_ended inspecting w apply_id lang failure f h = ground (arith, f.3)
apply_ended unbanning w apply_id lang failure f h = ground (arith, f.3)
apply_ended (acting n) w apply_id lang failure f h = ground (arith, f.3)

action_ended :
    (o : Owner) (w : World) (task : ActionTask) (error : Option String)
    → Fits o w
    → ltb 0 w.live_actions ≡ true
    → Moves ends_row o
        (record w { engine = end_action w.engine task error; live_actions = w.live_actions - 1 })
action_ended (acting zero) w task error f h =
    let (r, a, n) = end_action-Ends w.engine task error in
    (idle, end_acting, (r ∙ f.0, a ∙ f.1, omega (arith, n, f.2), f.3, omega (arith, f.4), f.5, f.6))
action_ended (acting (suc k)) w task error f h =
    let (r, a, n) = end_action-Ends w.engine task error in
    (
      acting k,
      one_less,
      (r ∙ f.0, a ∙ f.1, omega (arith, n, f.2), f.3, omega (arith, f.4), f.5, f.6),
    )
action_ended idle w task error f h = ground (arith, f.4)
action_ended inspecting w task error f h = ground (arith, f.4)
action_ended applying w task error f h = ground (arith, f.4)
action_ended unbanning w task error f h = ground (arith, f.4)

job_ended :
    (o : Owner) (w : World) (now : ℕ)
    → Fits o w
    → ltb 0 w.live_claims ≡ true
    → Moves ends_unban o
        (record w { job = release_unban_slot w.job now; live_claims = w.live_claims - 1 })
unfolding release_unban_slot
job_ended unbanning w now f h =
    (idle, end_unbanning, (f.0, f.1, f.2, f.3, f.4, omega (arith, f.5), refl))
job_ended idle w now f h = ground (arith, f.5)
job_ended inspecting w now f h = ground (arith, f.5)
job_ended applying w now f h = ground (arith, f.5)
job_ended (acting n) w now f h = ground (arith, f.5)

gate-Moves :
    (o : Owner) (w : World)
    → Fits o w
    → Moves leaves o (record w { engine = shutdown_gate w.engine; job = stop_unban_job w.job })
unfolding shutdown_gate
gate-Moves o w f =
    let j = stop_job-running w.job ∙ f.6 in
    (o, keep, (f.0, gate_fits o w.engine, f.2, f.3, f.4, f.5, j))
  where
    gate_fits : (o : Owner) (e : InspectionEngine) → ApplyFits o (shutdown_gate e)
    gate_fits idle e = refl
    gate_fits inspecting e = refl
    gate_fits applying e = refl
    gate_fits unbanning e = refl
    gate_fits (acting n) e = refl

shutdown_ended :
    (o : Owner) (w : World)
    → Fits o w
    → (w.engine.shutting_down && w.live_applies == 0 && w.live_actions == 0) ≡ true
    → Moves leaves o (with_engine w (shutdown_end w.engine))
unfolding shutdown_end
shutdown_ended idle w f h = (idle, keep, f)
shutdown_ended inspecting w f h = (inspecting, keep, f)
shutdown_ended applying w f h = ground (arith, f.3)
shutdown_ended unbanning w f h = (unbanning, keep, f)
shutdown_ended (acting n) w f h = (acting n, keep, f)

after-Moves : (o : Owner) (w : World) (ev : Event) → Fits o w → Moves (call_of ev) o (after ev w)
unfolding after start_with_run_id
after-Moves o w (asks_inspection req now) f = asked-Moves o w now (read_request req) f
after-Moves o w (asks_apply lang req) f = apply-Moves o w lang req f
after-Moves o w (asks_action req) f = action-Moves o w req f
after-Moves o w (asks_job total current mode now) f = claim-Moves o w total current mode now f
after-Moves o w (asks_stop lang now) f =
    stop-Moves o w (stop_with_lang w.engine lang now) (stop_unban_job w.job) f
      (stop-Stops w.engine lang now) (stop_job-running w.job)
after-Moves o w (writes run_id x) f = Keeps-Moves o w _ f (write-Keeps w.engine run_id x)
after-Moves o w (commits run_id targets missing model scoped now) f =
    Ends-Moves o w _ f (commit-Ends w.engine run_id targets missing model scoped now)
after-Moves o w (finishes run_id now) f = Ends-Moves o w _ f (finish-Ends w.engine run_id now)
after-Moves o w (progresses apply_id n failures is_last) f =
    Keeps-Moves o w _ f (note-Keeps w.engine apply_id n failures is_last)
after-Moves o w (apply_ends apply_id lang failure) f =
    if_cases (Moves ends_bulk o) (ltb 0 w.live_applies) _ w
      (apply_ended o w apply_id lang failure f) λ _. (o, keep, f)
after-Moves o w (action_ends task error) f =
    if_cases (Moves ends_row o) (ltb 0 w.live_actions) _ w (action_ended o w task error f)
      λ _. (o, keep, f)
after-Moves o w (job_ends now) f =
    if_cases (Moves ends_unban o) (ltb 0 w.live_claims) _ w (job_ended o w now f) λ _. (o, keep, f)
after-Moves o w shuts_down f = gate-Moves o w f
after-Moves o w shutdown_ends f =
    if_cases (Moves leaves o) (w.engine.shutting_down && w.live_applies == 0 && w.live_actions == 0)
      _ w (shutdown_ended o w f) λ _. (o, keep, f)

-- The history and the turn go together: at each event the turn stays, or moves in the way of that
-- event, and before and after it the flags and the workers at work fit the owner of the turn.
abbrev pub Follows : List Event → Owner → World → Type 0
Follows [] o w = Fits o w
Follows (ev ∷ evs) o w =
    Fits o w × ((p : Owner) × Turn (call_of ev) o p × Follows evs p (after ev w))

-- From any state in which the flags and the workers fit one owner of the turn, every sequence of
-- requests, writes, ends of workers, stops and shutdowns keeps to one turn, event by event: only a
-- request of its own kind gives the turn to an inspection, a bulk apply, row actions, or an unban or
-- delete job, only when nobody has it, and row actions may share it. The end of that work's worker
-- takes the turn back, and an inspection's turn also ends with a stop. At every moment the engine's
-- flags, the job's flag, and the workers of applies, actions and jobs at work fit the owner, so that a
-- bulk apply that was stopped keeps the turn until its worker ends. The probes of an inspection that
-- was stopped are not counted as workers: they may still drain while other work begins.
pub history-Follows : (evs : List Event) (w : World) (o : Owner) → Fits o w → Follows evs o w
history-Follows [] w o f = f
history-Follows (ev ∷ evs) w o f =
    let (p, t, g) = after-Moves o w ev f in (f, (p, t, history-Follows evs (after ev w) p g))
