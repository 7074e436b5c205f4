-- ===== src/Engine/Start/Scheduled.antt =====
-- inspection_schedule.go with engine_lifecycle.go: the request that a schedule makes.
use grok_inspection.Base.{
  ℕ, ℤ, pos, leb_ℤ, Bool, true, false, not, ◌&&◌, ◌||◌, ◌≡◌, refl, ap, ◌∙◌, [], none, some, arith,
  if◌then◌else◌,
}
use grok_inspection.Text.{str_eq}
use grok_inspection.Lang.{normalize_lang, zh}
use grok_inspection.Inspect.Sample.{asks, normalize_sample_request}
use grok_inspection.Schedule.Settings.{
  Schedule, StartRequest, max_workers, default_workers, or_default, normalize_workers,
  normalize_scope, is_asked, scheduled_request,
}
use grok_inspection.Engine.Rows.{normalize_classifications, normalize_classifications_nil}
use grok_inspection.Engine.Start.{
  RunOptions, accepted, read_request, start_refusal, start_locked, start_unless, start_with_run_id,
  begin_run, started,
}
use grok_inspection.Engine.State.{InspectionEngine, UnbanJobState, bump}

-- What the engine runs with for a request that it accepts.
abbrev options : StartRequest → ℤ → ℤ → ℤ → RunOptions
options req workers count percent = record {
  lang = normalize_lang req.lang;
  workers = workers;
  include_disabled = req.include_disabled;
  only_disabled = req.only_disabled;
  incremental = req.incremental;
  sample_mode = req.sample;
  sample_count = count;
  sample_percent = percent;
  classifications = normalize_classifications req.classifications;
}

read_accepted :
    (req : StartRequest) (workers count percent : ℤ)
    → normalize_workers req.workers ≡ some workers
    → req.incremental ≡ false
    → normalize_sample_request req.sample req.sample_count req.sample_percent ≡ asks count percent
    → read_request req ≡ accepted (options req workers count percent)
unfolding read_request
read_accepted req workers count percent w i s = ground arith

workers_again :
    (w : ℤ)
    → normalize_workers (or_default default_workers (normalize_workers w))
      ≡ some (or_default default_workers (normalize_workers w))
unfolding normalize_workers
workers_again w = ground arith

asked_again :
    (b : Bool) (count percent : ℤ)
    → (b ≡ true → is_asked (normalize_sample_request true count percent) ≡ true)
    → normalize_sample_request b (if b then count else pos 0) (if b then percent else pos 0)
      ≡ asks (if b then count else pos 0) (if b then percent else pos 0)
unfolding normalize_sample_request is_asked
asked_again b count percent h = ground arith

sampled_asked :
    (cfg : Schedule)
    → (scheduled_request cfg).sample ≡ true
    → is_asked (normalize_sample_request true cfg.sample_count cfg.sample_percent) ≡ true
unfolding scheduled_request
sampled_asked cfg h = ground arith

abbrev pub workers_of : Schedule → ℤ
workers_of cfg = or_default default_workers (normalize_workers cfg.workers)

-- Whether the settings ask for a sample, and of what size.
abbrev pub is_sampled : Schedule → Bool
is_sampled cfg = elim (normalize_scope cfg.scope) [
  | none ↦ false
  | some s ↦
      str_eq s "sample"
      && is_asked (normalize_sample_request true cfg.sample_count cfg.sample_percent)
]

-- The run that the schedule asks for: a sample of its sizes, or all accounts; the disabled accounts as
-- the settings say, only_disabled first; every account probed again, with messages in Chinese.
abbrev pub scheduled_options : Schedule → RunOptions
scheduled_options cfg = record {
  lang = zh;
  workers = workers_of cfg;
  include_disabled = not cfg.only_disabled && cfg.include_disabled;
  only_disabled = cfg.only_disabled;
  incremental = false;
  sample_mode = is_sampled cfg;
  sample_count = if is_sampled cfg then cfg.sample_count else pos 0;
  sample_percent = if is_sampled cfg then cfg.sample_percent else pos 0;
  classifications = [];
}

request_asked :
    (cfg : Schedule)
    → normalize_sample_request
        (scheduled_request cfg).sample
        (scheduled_request cfg).sample_count
        ((scheduled_request cfg).sample_percent)
      ≡ asks (scheduled_request cfg).sample_count ((scheduled_request cfg).sample_percent)
unfolding scheduled_request
request_asked cfg = asked_again _ cfg.sample_count cfg.sample_percent (sampled_asked cfg)

request_workers :
    (cfg : Schedule) → normalize_workers (scheduled_request cfg).workers ≡ some (workers_of cfg)
unfolding scheduled_request
request_workers cfg = workers_again cfg.workers

request_plain :
    (cfg : Schedule)
    → ((scheduled_request cfg).incremental ≡ false)
      × (normalize_classifications (scheduled_request cfg).classifications ≡ [])
unfolding scheduled_request
request_plain cfg = (refl, normalize_classifications_nil)

chinese : normalize_lang "zh" ≡ zh
unfolding normalize_lang
chinese = refl

same_options :
    (cfg : Schedule)
    → options
        (scheduled_request cfg)
        (workers_of cfg)
        (scheduled_request cfg).sample_count
        ((scheduled_request cfg).sample_percent)
      ≡ scheduled_options cfg
unfolding scheduled_request
same_options cfg = ground (arith, chinese, normalize_classifications_nil)

scheduled_accepted :
    (cfg : Schedule) → read_request (scheduled_request cfg) ≡ accepted (scheduled_options cfg)
scheduled_accepted cfg =
    read_accepted (scheduled_request cfg) (workers_of cfg) (scheduled_request cfg).sample_count
      ((scheduled_request cfg).sample_percent) (request_workers cfg) (request_plain cfg).0
      (request_asked cfg)
    ∙ ap (λ (o : RunOptions). accepted o) (same_options cfg)

workers_range :
    (i : ℤ)
    → (leb_ℤ (pos 1) (or_default default_workers (normalize_workers i)) ≡ true)
      × (leb_ℤ (or_default default_workers (normalize_workers i)) max_workers ≡ true)
unfolding normalize_workers
workers_range i = (ground arith, ground arith)

started_where :
    (e : InspectionEngine) (job : UnbanJobState) (now : ℕ) (opts : RunOptions)
    → start_refusal e job opts ≡ none
    → start_locked e job now (accepted opts) ≡ started (begin_run e opts now) (bump e.run_id)
unfolding start_locked start_unless
started_where e job now opts h =
    ap (λ q. start_unless q (started (begin_run e opts now) (bump e.run_id))) h

idle_accepts :
    (e : InspectionEngine) (job : UnbanJobState) (opts : RunOptions)
    → (e.shutting_down || e.running || e.applying || e.apply_draining || job.running) ≡ false
    → e.action_in_flight ≡ 0
    → opts.incremental ≡ false
    → opts.classifications ≡ []
    → start_refusal e job opts ≡ none
unfolding start_refusal
idle_accepts e job opts h n i c = ground arith

-- Whatever the settings of the schedule are, also ones that no update would accept, the request made
-- from them starts a run when the engine does no other work and is not shutting down: a sample of the
-- settings' sizes, or all accounts, disabled ones as the settings say, by 1 to max_workers workers.
pub scheduled_request-starts :
    (cfg : Schedule) (e : InspectionEngine) (job : UnbanJobState) (now : ℕ)
    → (e.shutting_down || e.running || e.applying || e.apply_draining || job.running) ≡ false
    → e.action_in_flight ≡ 0
    → (start_with_run_id e job (scheduled_request cfg) now
        ≡ started (begin_run e (scheduled_options cfg) now) (bump e.run_id))
      × (leb_ℤ (pos 1) (workers_of cfg) ≡ true)
      × (leb_ℤ (workers_of cfg) max_workers ≡ true)
unfolding start_with_run_id start_unless
scheduled_request-starts cfg e job now h n =
    let r = idle_accepts e job (scheduled_options cfg) h n refl refl in
    (
      ap (start_locked e job now) (scheduled_accepted cfg)
          ∙ started_where e job now (scheduled_options cfg) r,
      (workers_range cfg.workers).0,
      (workers_range cfg.workers).1,
    )
