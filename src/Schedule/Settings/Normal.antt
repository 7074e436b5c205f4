-- ===== src/Schedule/Settings/Normal.antt =====
-- A normal form of the settings is in order, and settings in order are their own normal form.
use grok_inspection.Base.{
  ℤ, pos, negsuc, leb_ℤ, String, Bool, true, false, not, ◌≡◌, refl, ◌⊎◌, inl, inr, arith,
  if◌then◌else◌,
}
use grok_inspection.Text.{lower}
use grok_inspection.Text.Laws.{str_eq_iff}
use grok_inspection.Inspect.Sample.{normalize_sample_request}
use grok_inspection.Schedule.Settings.{
  Schedule, default_workers, max_workers, default_interval, max_interval, normalize_workers,
  normalize_interval, normalize_scope, normalize_action, or_default, is_asked, kept_scope,
  kept_sample, normalize_schedule,
}

pub record IsValid (cfg : Schedule) : Type 0 where
  pub interval :
      (leb_ℤ (pos 1) cfg.interval_minutes ≡ true) × (leb_ℤ cfg.interval_minutes max_interval ≡ true)
  pub workers : (leb_ℤ (pos 1) cfg.workers ≡ true) × (leb_ℤ cfg.workers max_workers ≡ true)
  pub denied :
      (cfg.permission_denied_action ≡ "disable") ⊎ (cfg.permission_denied_action ≡ "delete")
  pub limited : (cfg.spending_limit_action ≡ "disable") ⊎ (cfg.spending_limit_action ≡ "delete")
  pub sample :
      ((cfg.scope ≡ "full") × (cfg.sample_count ≡ pos 0) × (cfg.sample_percent ≡ pos 0))
      ⊎ ((cfg.scope ≡ "sample")
          × (is_asked (normalize_sample_request true cfg.sample_count cfg.sample_percent) ≡ true))
  pub exclusive : (cfg.only_disabled ≡ false) ⊎ (cfg.include_disabled ≡ false)
  pub next : (cfg.enabled ≡ true) ⊎ (cfg.next_run_at ≡ "")

interval_range :
    (i : ℤ)
    → (leb_ℤ (pos 1) (or_default default_interval (normalize_interval i)) ≡ true)
      × (leb_ℤ (or_default default_interval (normalize_interval i)) max_interval ≡ true)
unfolding normalize_interval
interval_range i = (ground arith, ground arith)

workers_range :
    (i : ℤ)
    → (leb_ℤ (pos 1) (or_default default_workers (normalize_workers i)) ≡ true)
      × (leb_ℤ (or_default default_workers (normalize_workers i)) max_workers ≡ true)
unfolding normalize_workers
workers_range i = (ground arith, ground arith)

action_form :
    (a : String)
    → (or_default "disable" (normalize_action a) ≡ "disable")
      ⊎ (or_default "disable" (normalize_action a) ≡ "delete")
unfolding normalize_action
action_form a = ground (arith, str_eq_iff (lower a) "disable", str_eq_iff (lower a) "delete")

scope_form :
    (scope : String) (count percent : ℤ)
    → (kept_scope scope count percent ≡ "full")
      ⊎ ((kept_scope scope count percent ≡ "sample")
          × (is_asked (normalize_sample_request true count percent) ≡ true))
unfolding kept_scope normalize_scope
scope_form scope count percent =
    ground (arith, str_eq_iff (lower scope) "full", str_eq_iff (lower scope) "sample")

abbrev Sampled : String → ℤ → ℤ → Type 0
Sampled scope count percent =
    ((scope ≡ "full") × (count ≡ pos 0) × (percent ≡ pos 0))
    ⊎ ((scope ≡ "sample") × (is_asked (normalize_sample_request true count percent) ≡ true))

kept_full : (n : ℤ) → kept_sample "full" n ≡ pos 0
unfolding kept_sample
kept_full n = refl

kept_same : (n : ℤ) → kept_sample "sample" n ≡ n
unfolding kept_sample
kept_same n = refl

kept-Sampled :
    (scope : String) (count percent : ℤ)
    → (scope ≡ "full")
      ⊎ ((scope ≡ "sample") × (is_asked (normalize_sample_request true count percent) ≡ true))
    → Sampled scope (kept_sample scope count) (kept_sample scope percent)
unfolding kept_sample
kept-Sampled scope count percent h = elim h [
  | inl e ↦ rw e (inl (refl, kept_full count, kept_full percent))
  | inr (e, a) ↦ rw (e, kept_same) (inr (refl, a))
]

pub normalize_schedule-IsValid : (cfg : Schedule) → IsValid (normalize_schedule cfg)
unfolding normalize_schedule
normalize_schedule-IsValid cfg =
    let form = scope_form cfg.scope cfg.sample_count cfg.sample_percent in
    record {
      interval = interval_range cfg.interval_minutes;
      workers = workers_range cfg.workers;
      denied = action_form cfg.permission_denied_action;
      limited = action_form cfg.spending_limit_action;
      sample =
          kept-Sampled (kept_scope cfg.scope cfg.sample_count cfg.sample_percent) cfg.sample_count
            cfg.sample_percent form;
      exclusive = ground arith;
      next = ground arith;
    }

interval_same :
    (i : ℤ)
    → leb_ℤ (pos 1) i ≡ true
    → leb_ℤ i max_interval ≡ true
    → or_default default_interval (normalize_interval i) ≡ i
unfolding normalize_interval
interval_same (pos n) h k = ground arith
interval_same (negsuc n) h k = ground arith

workers_same :
    (i : ℤ)
    → leb_ℤ (pos 1) i ≡ true
    → leb_ℤ i max_workers ≡ true
    → or_default default_workers (normalize_workers i) ≡ i
unfolding normalize_workers
workers_same (pos n) h k = ground arith
workers_same (negsuc n) h k = ground arith

action_disable : or_default "disable" (normalize_action "disable") ≡ "disable"
unfolding normalize_action
action_disable = refl

action_delete : or_default "disable" (normalize_action "delete") ≡ "delete"
unfolding normalize_action
action_delete = refl

action_same :
    (a : String) → (a ≡ "disable") ⊎ (a ≡ "delete") → or_default "disable" (normalize_action a) ≡ a
action_same a h = elim h [ inl e ↦ rw e action_disable | inr e ↦ rw e action_delete ]

full_same : (count percent : ℤ) → kept_scope "full" count percent ≡ "full"
unfolding kept_scope normalize_scope
full_same count percent = refl

sample_same :
    (count percent : ℤ)
    → is_asked (normalize_sample_request true count percent) ≡ true
    → kept_scope "sample" count percent ≡ "sample"
unfolding kept_scope normalize_scope
sample_same count percent h = ground arith

scope_same :
    (scope : String) (count percent : ℤ)
    → Sampled scope count percent
    → kept_scope scope count percent ≡ scope
scope_same scope count percent h = elim h [
  | inl (e, _, _) ↦ rw (e, full_same)
  | inr (e, a) ↦ rw e (sample_same count percent a)
]

count_same :
    (scope : String) (count percent : ℤ)
    → Sampled scope count percent
    → kept_sample scope count ≡ count
count_same scope count percent h = elim h [
  | inl (e, z, _) ↦ rw (e, z) (kept_full (pos 0))
  | inr (e, a) ↦ rw e (kept_same count)
]

percent_same :
    (scope : String) (count percent : ℤ)
    → Sampled scope count percent
    → kept_sample scope percent ≡ percent
percent_same scope count percent h = elim h [
  | inl (e, _, z) ↦ rw (e, z) (kept_full (pos 0))
  | inr (e, a) ↦ rw e (kept_same percent)
]

only_same :
    (only included : Bool)
    → (only ≡ false) ⊎ (included ≡ false)
    → (if only then false else included) ≡ included
only_same only included h = ground arith

next_same :
    (enabled : Bool) (next : String)
    → (enabled ≡ true) ⊎ (next ≡ "")
    → (if not enabled then "" else next) ≡ next
next_same enabled next h = ground arith

-- Settings in order are their own normal form.
pub normalize_schedule_id : (cfg : Schedule) → IsValid cfg → normalize_schedule cfg ≡ cfg
unfolding normalize_schedule
normalize_schedule_id cfg v = rw (
  scope_same cfg.scope cfg.sample_count cfg.sample_percent v.sample,
  count_same cfg.scope cfg.sample_count cfg.sample_percent v.sample,
  percent_same cfg.scope cfg.sample_count cfg.sample_percent v.sample,
  interval_same cfg.interval_minutes v.interval.0 v.interval.1,
  workers_same cfg.workers v.workers.0 v.workers.1,
  action_same cfg.permission_denied_action v.denied,
  action_same cfg.spending_limit_action v.limited,
  only_same cfg.only_disabled cfg.include_disabled v.exclusive,
  next_same cfg.enabled cfg.next_run_at v.next,
)
