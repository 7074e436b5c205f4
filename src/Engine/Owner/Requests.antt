-- ===== src/Engine/Owner/Requests.antt =====
-- The requests, and the end of a run, take turns.
use grok_inspection.Base.{
  ℕ, suc, ltb, ℤ, String, true, false, ◌||◌, ◌≡◌, refl, sym, subst, ◌∙◌, inl, inr, List, [], ◌∷◌,
  Option, none, some, if_cases, arith,
}
use grok_inspection.Text.{is_empty, first_non_empty, trim_space}
use grok_inspection.Lang.{Lang, normalize_lang}
use grok_inspection.Accounts.{AccountResult}
use grok_inspection.Accounts.Select.{ApplyRequest, Candidates, collect_candidates}
use grok_inspection.Accounts.Select.Candidates.{ok, err}
use grok_inspection.Engine.State.{InspectionEngine, UnbanJobState, Refusal, bump}
use grok_inspection.Engine.Start.{
  RunOptions, Asked, accepted, rejected, start_refusal, start_unless, start_locked, begin_run,
  started,
}
use grok_inspection.Engine.Jobs.{
  ApplyAnswer, apply_busy, apply_unless, apply_chosen, apply_candidates, begin_apply, start_apply,
  action_busy, action_unless, start_action, begin_action, ActionRequest, ActionAnswer, ActionTask,
  action_task, acts,
}
use grok_inspection.Engine.Slot.{
  claim_busy, claim_unless, claimed_job, claimed, claim_unban_slot_with_mode,
}
use grok_inspection.Engine.Owner.{
  World, with_engine, after_start, after_apply, after_action, after_claim, Owner, idle, inspecting,
  applying, unbanning, acting, Call, asks_run, asks_bulk, asks_row, asks_unban, ends_run, Turn,
  is_inspecting, is_applying, is_unbanning, actions_of,
}
use grok_inspection.Engine.Owner.{
  keep, begin_inspecting, end_inspecting, begin_applying, begin_unbanning, begin_acting, one_more,
}
use grok_inspection.Engine.Owner.Effects.{Ends, Keeps}

abbrev pub ApplyFits : Owner → InspectionEngine → Type 0
ApplyFits applying e = (e.applying || e.apply_draining) ≡ true
ApplyFits _ e = e.applying ≡ false

-- The flags of the engine and of the job, and the workers that are at work, are those of the one
-- kind of work that has the turn.
abbrev pub Fits : Owner → World → Type 0
Fits o w =
    (w.engine.running ≡ is_inspecting o)
    × ApplyFits o w.engine
    × (w.engine.action_in_flight ≡ actions_of o)
    × (w.live_applies ≡ is_applying o)
    × (w.live_actions ≡ actions_of o)
    × (w.live_claims ≡ is_unbanning o)
    × (w.job.running ≡ ltb 0 (is_unbanning o))

-- A call of the kind moves the turn in its way, and the world after it fits the new owner.
abbrev pub Moves : Call → Owner → World → Type 0
Moves k o w = (p : Owner) × Turn k o p × Fits p w

apply_kept :
    (o : Owner) (e e' : InspectionEngine)
    → ApplyFits o e
    → e'.applying ≡ e.applying
    → e'.apply_draining ≡ e.apply_draining
    → ApplyFits o e'
apply_kept idle e e' f a d = a ∙ f
apply_kept inspecting e e' f a d = a ∙ f
apply_kept applying e e' f a d = ground arith
apply_kept unbanning e e' f a d = a ∙ f
apply_kept (acting n) e e' f a d = a ∙ f

-- The end of a run gives the turn back where an inspection had it.
pub run_ended :
    (o : Owner) (w : World) (e : InspectionEngine)
    → Fits o w
    → e.running ≡ false
    → ApplyFits o e
    → e.action_in_flight ≡ actions_of o
    → Moves ends_run o (with_engine w e)
run_ended inspecting w e f r a n = (idle, end_inspecting, (r, a, n, f.3, f.4, f.5, f.6))
run_ended idle w e f r a n = (idle, keep, (r, a, n, f.3, f.4, f.5, f.6))
run_ended applying w e f r a n = (applying, keep, (r, a, n, f.3, f.4, f.5, f.6))
run_ended unbanning w e f r a n = (unbanning, keep, (r, a, n, f.3, f.4, f.5, f.6))
run_ended (acting k) w e f r a n = (acting k, keep, (r, a, n, f.3, f.4, f.5, f.6))

pub Ends-Moves :
    (o : Owner) (w : World) (e : InspectionEngine)
    → Fits o w
    → Ends w.engine e
    → Moves ends_run o (with_engine w e)
Ends-Moves o w e f (inl r, a, d, n) =
    (o, keep, (r ∙ f.0, apply_kept o w.engine e f.1 a d, n ∙ f.2, f.3, f.4, f.5, f.6))
Ends-Moves o w e f (inr r, a, d, n) =
    run_ended o w e f r (apply_kept o w.engine e f.1 a d) (n ∙ f.2)

pub Keeps-Moves :
    {k : Call} (o : Owner) (w : World) (e : InspectionEngine)
    → Fits o w
    → Keeps w.engine e
    → Moves k o (with_engine w e)
Keeps-Moves o w e f (r, a, d, n) =
    (o, keep, (r ∙ f.0, apply_kept o w.engine e f.1 a d, n ∙ f.2, f.3, f.4, f.5, f.6))

-- A stop leaves the apply's worker its turn.
pub stopped_apply :
    (o : Owner) (e e' : InspectionEngine)
    → ApplyFits o e
    → e'.applying ≡ false
    → e'.apply_draining ≡ (e.applying || e.apply_draining)
    → ApplyFits o e'
stopped_apply idle e e' f a d = a
stopped_apply inspecting e e' f a d = a
stopped_apply applying e e' f a d = ground arith
stopped_apply unbanning e e' f a d = a
stopped_apply (acting n) e e' f a d = a

-- Nobody has the turn where all the tests of a request pass.
free :
    (o : Owner) (w : World)
    → Fits o w
    → (w.engine.running || w.engine.applying || w.engine.apply_draining) ≡ false
    → w.engine.action_in_flight ≡ 0
    → w.job.running ≡ false
    → o ≡ idle
free idle w f h n j = refl
free inspecting w f h n j = ground arith
free applying w f h n j = ground arith
free unbanning w f h n j = ground arith
free (acting k) w f h n j = ground arith

-- A request moves the turn if it does where nothing refuses it.
refusable :
    {k : Call} (o : Owner) (w : World) (go : Option Refusal → World) (q : Option Refusal)
    → Fits o w
    → ((r : Refusal) → go (some r) ≡ w)
    → (q ≡ none → Moves k o (go none))
    → Moves k o (go q)
refusable {k = k} o w go none f h m = m refl
refusable {k = k} o w go (some r) f h m = subst (Moves k o) (sym (h r)) (o, keep, f)

-- What a request does where nobody has the turn, it does where its tests pass.
from_idle :
    {k : Call} (o : Owner) (w w' : World)
    → Fits o w
    → o ≡ idle
    → (Fits idle w → Moves k idle w')
    → Moves k o w'
from_idle {k = k} o w w' f e m = subst (λ p. Moves k p w') (sym e) (m (subst (λ p. Fits p w) e f))

start_tests :
    (e : InspectionEngine) (job : UnbanJobState) (opts : RunOptions)
    → start_refusal e job opts ≡ none
    → ((e.running || e.applying || e.apply_draining) ≡ false)
      × (e.action_in_flight ≡ 0)
      × (job.running ≡ false)
unfolding start_refusal
start_tests e job opts h = (ground arith, ground arith, ground arith)

apply_tests :
    (e : InspectionEngine) (job : UnbanJobState)
    → apply_busy e job ≡ none
    → ((e.running || e.applying || e.apply_draining) ≡ false)
      × (e.action_in_flight ≡ 0)
      × (job.running ≡ false)
unfolding apply_busy
apply_tests e job h = (ground arith, ground arith, ground arith)

claim_tests :
    (e : InspectionEngine) (job : UnbanJobState)
    → claim_busy e job ≡ none
    → ((e.running || e.applying || e.apply_draining) ≡ false)
      × (e.action_in_flight ≡ 0)
      × (job.running ≡ false)
unfolding claim_busy
claim_tests e job h = (ground arith, ground arith, ground arith)

action_tests :
    (e : InspectionEngine) (job : UnbanJobState)
    → action_busy e job ≡ none
    → ((e.running || e.applying || e.apply_draining) ≡ false) × (job.running ≡ false)
unfolding action_busy
action_tests e job h = (ground arith, ground arith)

pub asked-Moves :
    (o : Owner) (w : World) (now : ℕ) (a : Asked)
    → Fits o w
    → Moves asks_run o (after_start w (start_locked w.engine w.job now a))
unfolding start_locked begin_run start_unless
asked-Moves o w now (rejected r) f = (o, keep, f)
asked-Moves o w now (accepted opts) f =
    let e = begin_run w.engine opts now in
    refusable o w (λ q. after_start w (start_unless q (started e (bump w.engine.run_id))))
      (start_refusal w.engine w.job opts) f (λ r. refl)
      λ h.
        let t = start_tests w.engine w.job opts h in
        from_idle o w (with_engine w e) f (free o w f t.0 t.1 t.2)
          λ g. (inspecting, begin_inspecting, (refl, refl, g.2, g.3, g.4, g.5, g.6))

rows-Moves :
    (w : World) (lang : Lang) (force : String) (rows : List AccountResult)
    → Fits idle w
    → Moves asks_bulk idle (after_apply w (apply_candidates w.engine lang force rows))
unfolding apply_candidates begin_apply
rows-Moves w lang force [] f =
    if_cases (λ (a : ApplyAnswer). Moves asks_bulk idle (after_apply w a))
      (is_empty (trim_space force)) _ _ (λ _. (idle, keep, f)) λ _. (idle, keep, f)
rows-Moves w lang force (c ∷ cs) f =
    (applying, begin_applying, (f.0, refl, f.2, omega arith, f.4, f.5, f.6))

chosen-Moves :
    (w : World) (lang : Lang) (force : String) (cs : Candidates)
    → Fits idle w
    → Moves asks_bulk idle (after_apply w (apply_chosen w.engine lang force cs))
unfolding apply_chosen
chosen-Moves w lang force (err x) f = (idle, keep, f)
chosen-Moves w lang force (ok cs) f = rows-Moves w lang force cs f

pub apply-Moves :
    (o : Owner) (w : World) (lang : String) (req : ApplyRequest)
    → Fits o w
    → Moves asks_bulk o (after_apply w (start_apply w.engine w.job lang req))
unfolding start_apply apply_unless
apply-Moves o w lang req f =
    let a =
      apply_chosen w.engine (normalize_lang lang) req.force_action
        (collect_candidates w.engine.results req) in
    refusable o w (λ q. after_apply w (apply_unless q a)) (apply_busy w.engine w.job) f (λ r. refl)
      λ h.
        let t = apply_tests w.engine w.job h in
        from_idle o w (after_apply w a) f (free o w f t.0 t.1 t.2) λ g.
          chosen-Moves w (normalize_lang lang) req.force_action
            (collect_candidates w.engine.results req) g

pub claim-Moves :
    (o : Owner) (w : World) (total : ℤ) (current mode : String) (now : ℕ)
    → Fits o w
    → Moves asks_unban o
        (after_claim w (claim_unban_slot_with_mode w.engine w.job total current mode now))
unfolding claim_unban_slot_with_mode claim_unless claimed_job
claim-Moves o w total current mode now f =
    let a = claimed (claimed_job w.job total current mode now) (bump w.job.run_id) in
    refusable o w (λ q. after_claim w (claim_unless q a)) (claim_busy w.engine w.job) f (λ r. refl)
      λ h.
        let t = claim_tests w.engine w.job h in
        from_idle o w (after_claim w a) f (free o w f t.0 t.1 t.2)
          λ g. (unbanning, begin_unbanning, (g.0, g.1, g.2, g.3, g.4, omega arith, refl))

begun-Moves :
    (o : Owner) (w : World) (req : ActionTask)
    → Fits o w
    → (w.engine.running || w.engine.applying || w.engine.apply_draining) ≡ false
    → w.job.running ≡ false
    → Moves asks_row o (after_action w (acts (begin_action w.engine) req))
unfolding begin_action
begun-Moves idle w req f h j =
    (acting 0, begin_acting, (f.0, f.1, omega (arith, f.2), f.3, omega (arith, f.4), f.5, f.6))
begun-Moves inspecting w req f h j = ground arith
begun-Moves applying w req f h j = ground arith
begun-Moves unbanning w req f h j = ground arith
begun-Moves (acting n) w req f h j =
    (acting (suc n), one_more, (f.0, f.1, omega (arith, f.2), f.3, omega (arith, f.4), f.5, f.6))

pub action-Moves :
    (o : Owner) (w : World) (req : ActionRequest)
    → Fits o w
    → Moves asks_row o (after_action w (start_action w.engine w.job req))
unfolding start_action action_unless
action-Moves o w req f =
    if_cases (λ (a : ActionAnswer). Moves asks_row o (after_action w a))
      (is_empty (first_non_empty (req.name ∷ req.auth_index ∷ []))) _ _ (λ _. (o, keep, f))
      λ _.
        let task = action_task w.engine req (first_non_empty (req.name ∷ req.auth_index ∷ [])) in
        let a = acts (begin_action w.engine) task in
        refusable o w (λ q. after_action w (action_unless q a)) (action_busy w.engine w.job) f
          (λ r. refl) λ h. let t = action_tests w.engine w.job h in begun-Moves o w task f t.0 t.1
