-- ===== src/Schedule/Store/Committed.antt =====
-- An update of the settings is taken whole, in memory and on the disk, or not at all.
use grok_inspection.Base.{
  ℕ, ℤ, pos, leb_ℤ, String, Bool, true, false, ◌≡◌, refl, ap, ◌⊎◌, inl, inr, Option, none, some,
  arith, if_cases,
}
use grok_inspection.Text.{str_eq}
use grok_inspection.Text.Laws.{str_eq_iff}
use grok_inspection.Inspect.Sample.{normalize_sample_request}
use grok_inspection.Schedule.Settings.{
  Schedule, max_interval, max_workers, normalize_interval, normalize_workers, normalize_scope,
  normalize_action, is_asked, normalize_schedule,
}
use grok_inspection.Schedule.Settings.Normal.{
  IsValid, normalize_schedule-IsValid, normalize_schedule_id,
}
use grok_inspection.Schedule.Store.Followed.{Goes, Follows, build-Follows, stamp-Follows}
use grok_inspection.Schedule.Store.{
  Saved, InspectionScheduleUpdate, UpdateError, persist_failed, interval_invalid, workers_invalid,
  scope_invalid, sample_invalid, action_invalid, Step, next, stop, ◌>>=◌, given, put_checked,
  checked, set_interval, set_workers, set_disabled, set_scope, set_sample, set_denied, set_limited,
  build, UpdateResult, ok, err, stamp, commit, update_schedule,
}

-- Settings whose scope and dates are still open.
record Settled (cfg : Schedule) : Type 0 where
  interval :
      (leb_ℤ (pos 1) cfg.interval_minutes ≡ true) × (leb_ℤ cfg.interval_minutes max_interval ≡ true)
  workers : (leb_ℤ (pos 1) cfg.workers ≡ true) × (leb_ℤ cfg.workers max_workers ≡ true)
  denied : (cfg.permission_denied_action ≡ "disable") ⊎ (cfg.permission_denied_action ≡ "delete")
  limited : (cfg.spending_limit_action ≡ "disable") ⊎ (cfg.spending_limit_action ≡ "delete")
  exclusive : (cfg.only_disabled ≡ false) ⊎ (cfg.include_disabled ≡ false)
  scoped : (cfg.scope ≡ "full") ⊎ (cfg.scope ≡ "sample")

abbrev Sampled : Schedule → Type 0
Sampled cfg =
    ((cfg.scope ≡ "full") × (cfg.sample_count ≡ pos 0) × (cfg.sample_percent ≡ pos 0))
    ⊎ ((cfg.scope ≡ "sample")
        × (is_asked (normalize_sample_request true cfg.sample_count cfg.sample_percent) ≡ true))

bind-Goes {ℓ} :
    (P Q : Schedule → Type ℓ) (s : Step) (f : Schedule → Step)
    → Goes P s
    → ((cfg : Schedule) → P cfg → Goes Q (f cfg))
    → Goes Q (s >>= f)
unfolding ◌>>=◌
bind-Goes P Q (next cfg) f p h = h cfg p
bind-Goes P Q (stop cfg e) f p h = tt

put_checked-Goes {ℓ κ} :
    {A : Type ℓ} (P : Schedule → Type κ) (e : UpdateError) (put : A → Schedule) (cfg : Schedule)
    (o : Option A)
    → ((b : A) → o ≡ some b → P (put b))
    → Goes P (put_checked e put cfg o)
unfolding put_checked
put_checked-Goes P e put cfg none h = tt
put_checked-Goes P e put cfg (some b) h = h b refl

checked-Goes {ℓ κ} :
    {A : Type ℓ} (P : Schedule → Type κ) (o : Option A) (check : A → Option A) (e : UpdateError)
    (put : A → Schedule) (cfg : Schedule)
    → P cfg
    → ((a b : A) → check a ≡ some b → P (put b))
    → Goes P (checked o check e put cfg)
unfolding checked
checked-Goes P none check e put cfg p h = p
checked-Goes P (some a) check e put cfg p h = put_checked-Goes P e put cfg (check a) λ b c. h a b c

interval_checked :
    (a b : ℤ)
    → normalize_interval a ≡ some b
    → (leb_ℤ (pos 1) b ≡ true) × (leb_ℤ b max_interval ≡ true)
unfolding normalize_interval
interval_checked a b h = (ground arith, ground arith)

workers_checked :
    (a b : ℤ)
    → normalize_workers a ≡ some b
    → (leb_ℤ (pos 1) b ≡ true) × (leb_ℤ b max_workers ≡ true)
unfolding normalize_workers
workers_checked a b h = (ground arith, ground arith)

scope_checked : (a b : String) → normalize_scope a ≡ some b → (b ≡ "full") ⊎ (b ≡ "sample")
unfolding normalize_scope
scope_checked a b h = grind (arith, str_eq_iff)

action_checked : (a b : String) → normalize_action a ≡ some b → (b ≡ "disable") ⊎ (b ≡ "delete")
unfolding normalize_action
action_checked a b h = grind (arith, str_eq_iff)

set_interval-Settled :
    (req : InspectionScheduleUpdate) (cfg : Schedule)
    → Settled cfg
    → Goes Settled (set_interval req cfg)
unfolding set_interval
set_interval-Settled req cfg v =
    checked-Goes Settled req.interval_minutes normalize_interval interval_invalid
      (λ x. record cfg { interval_minutes = x }) cfg v
      λ a b h. record {
        interval = interval_checked a b h;
        workers = v.workers;
        denied = v.denied;
        limited = v.limited;
        exclusive = v.exclusive;
        scoped = v.scoped;
      }

set_workers-Settled :
    (req : InspectionScheduleUpdate) (cfg : Schedule)
    → Settled cfg
    → Goes Settled (set_workers req cfg)
unfolding set_workers
set_workers-Settled req cfg v =
    checked-Goes Settled req.workers normalize_workers workers_invalid
      (λ x. record cfg { workers = x }) cfg v
      λ a b h. record {
        interval = v.interval;
        workers = workers_checked a b h;
        denied = v.denied;
        limited = v.limited;
        exclusive = v.exclusive;
        scoped = v.scoped;
      }

set_scope-Settled :
    (req : InspectionScheduleUpdate) (cfg : Schedule)
    → Settled cfg
    → Goes Settled (set_scope req cfg)
unfolding set_scope
set_scope-Settled req cfg v =
    checked-Goes Settled req.scope normalize_scope scope_invalid (λ x. record cfg { scope = x }) cfg
      v
      λ a b h. record {
        interval = v.interval;
        workers = v.workers;
        denied = v.denied;
        limited = v.limited;
        exclusive = v.exclusive;
        scoped = scope_checked a b h;
      }

set_disabled-Settled :
    (req : InspectionScheduleUpdate) (cfg : Schedule) → Settled cfg → Settled (set_disabled req cfg)
unfolding set_disabled
set_disabled-Settled req cfg v = record {
  interval = v.interval;
  workers = v.workers;
  denied = v.denied;
  limited = v.limited;
  exclusive = ground arith;
  scoped = v.scoped;
}

abbrev Complete : Schedule → Type 0
Complete cfg = Settled cfg × Sampled cfg

settled_with :
    (cfg : Schedule) (count percent : ℤ)
    → Settled cfg
    → Settled (record cfg { sample_count = count; sample_percent = percent })
settled_with cfg count percent v = record {
  interval = v.interval;
  workers = v.workers;
  denied = v.denied;
  limited = v.limited;
  exclusive = v.exclusive;
  scoped = v.scoped;
}

set_sample-Complete :
    (req : InspectionScheduleUpdate) (cfg : Schedule)
    → Settled cfg
    → Goes Complete (set_sample req cfg)
unfolding set_sample
set_sample-Complete req cfg v =
    let count = given req.sample_count cfg.sample_count in
    let percent = given req.sample_percent cfg.sample_percent in
    let asked = normalize_sample_request true count percent in
    let kept = record cfg { sample_count = count; sample_percent = percent } in
    if_cases (Goes Complete) (str_eq cfg.scope "sample") _ _
      (λ e.
        if_cases (Goes Complete) (is_asked asked) (next kept) (stop kept sample_invalid)
          (λ a. (
            settled_with cfg count percent v,
            inr (ground (arith, str_eq_iff cfg.scope "sample"), a),
          ))
          (λ _. tt))
      (λ e. (
        settled_with cfg (pos 0) (pos 0) v,
        inl (ground (arith, str_eq_iff cfg.scope "sample"), refl, refl),
      ))

set_denied-Complete :
    (req : InspectionScheduleUpdate) (cfg : Schedule)
    → Complete cfg
    → Goes Complete (set_denied req cfg)
unfolding set_denied
set_denied-Complete req cfg (v, m) =
    checked-Goes Complete req.permission_denied_action normalize_action action_invalid
      (λ x. record cfg { permission_denied_action = x }) cfg (v, m)
      λ a b h. (
        record {
          interval = v.interval;
          workers = v.workers;
          denied = action_checked a b h;
          limited = v.limited;
          exclusive = v.exclusive;
          scoped = v.scoped;
        },
        m,
      )

set_limited-Complete :
    (req : InspectionScheduleUpdate) (cfg : Schedule)
    → Complete cfg
    → Goes Complete (set_limited req cfg)
unfolding set_limited
set_limited-Complete req cfg (v, m) =
    checked-Goes Complete req.spending_limit_action normalize_action action_invalid
      (λ x. record cfg { spending_limit_action = x }) cfg (v, m)
      λ a b h. (
        record {
          interval = v.interval;
          workers = v.workers;
          denied = v.denied;
          limited = action_checked a b h;
          exclusive = v.exclusive;
          scoped = v.scoped;
        },
        m,
      )

IsValid-Settled : (cfg : Schedule) → IsValid cfg → Settled cfg
IsValid-Settled cfg v = record {
  interval = v.interval;
  workers = v.workers;
  denied = v.denied;
  limited = v.limited;
  exclusive = v.exclusive;
  scoped = elim v.sample [ inl (e, _, _) ↦ inl e | inr (e, _) ↦ inr e ];
}

enabled_with : (cfg : Schedule) (b : Bool) → Settled cfg → Settled (record cfg { enabled = b })
enabled_with cfg b v = record {
  interval = v.interval;
  workers = v.workers;
  denied = v.denied;
  limited = v.limited;
  exclusive = v.exclusive;
  scoped = v.scoped;
}

recover_with :
    (cfg : Schedule) (b : Bool) → Complete cfg → Complete (record cfg { auto_recover_healthy = b })
recover_with cfg b (v, m) = (
  record {
    interval = v.interval;
    workers = v.workers;
    denied = v.denied;
    limited = v.limited;
    exclusive = v.exclusive;
    scoped = v.scoped;
  },
  m,
)

build-Complete :
    (req : InspectionScheduleUpdate) (prev : Schedule)
    → Settled prev
    → Goes Complete (build req prev)
unfolding build
build-Complete req prev v =
    bind-Goes Settled Complete _ _ (set_interval-Settled req _ (enabled_with prev _ v)) λ a x.
      bind-Goes Settled Complete _ _ (set_workers-Settled req a x) λ b y.
        bind-Goes Settled Complete _ _ (set_scope-Settled req _ (set_disabled-Settled req b y))
          λ c z. bind-Goes Complete Complete _ _ (set_sample-Complete req c z) λ d w.
            bind-Goes Complete Complete _ _ (set_denied-Complete req d w) λ e u.
              bind-Goes Complete Complete _ _ (set_limited-Complete req e u)
                λ f t. recover_with f _ t

module _ (print : ℕ → String) where
  stamp-IsValid : (now : ℕ) (cfg : Schedule) → Complete cfg → IsValid (stamp print now cfg)
  unfolding stamp
  stamp-IsValid now cfg (v, m) =
      if_cases IsValid cfg.enabled _ _
        (λ e. record {
          interval = v.interval;
          workers = v.workers;
          denied = v.denied;
          limited = v.limited;
          sample = m;
          exclusive = v.exclusive;
          next = inl e;
        })
        (λ e. record {
          interval = v.interval;
          workers = v.workers;
          denied = v.denied;
          limited = v.limited;
          sample = m;
          exclusive = v.exclusive;
          next = inr refl;
        })

  -- What an update leaves: the settings that it returns, which follow the request and are in order, in
  -- memory and in the file; or an error, and both as they were.
  pub data Outcome (s : Saved) (req : InspectionScheduleUpdate) (r : Saved × UpdateResult)
      : Type 0 where
    accepted :
        (cfg : Schedule)
        → r.1 ≡ ok cfg
        → Follows req (normalize_schedule s.memory) cfg
        → IsValid cfg
        → r.0.memory ≡ cfg
        → r.0.file ≡ some cfg
        → Outcome s req r
    refused : (cfg : Schedule) (e : UpdateError) → r.1 ≡ err cfg e → r.0 ≡ s → Outcome s req r

  commit-Outcome :
      (s : Saved) (req : InspectionScheduleUpdate) (prev : Schedule) (write_ok : Bool) (step : Step)
      (now : ℕ)
      → Goes (Follows req (normalize_schedule s.memory)) step
      → Goes Complete step
      → Outcome s req (commit print s prev write_ok step now)
  unfolding commit
  commit-Outcome s req prev write_ok (stop cfg e) now f g = refused cfg e refl refl
  commit-Outcome s req prev true (next cfg) now f g =
      let v = stamp-IsValid now cfg g in
      accepted (stamp print now cfg) refl
        (stamp-Follows print req (normalize_schedule s.memory) now cfg f) v refl
        (ap (λ (c : Schedule). some c) (normalize_schedule_id (stamp print now cfg) v))
  commit-Outcome s req prev false (next cfg) now f g = refused prev persist_failed refl refl

  pub update_schedule-Outcome :
      (s : Saved) (req : InspectionScheduleUpdate) (write_ok : Bool) (now : ℕ)
      → Outcome s req (update_schedule print s req write_ok now)
  unfolding update_schedule
  update_schedule-Outcome s req write_ok now =
      let prev = normalize_schedule s.memory in
      commit-Outcome s req prev write_ok (build req prev) now (build-Follows req prev)
        (build-Complete req prev (IsValid-Settled prev (normalize_schedule-IsValid s.memory)))
