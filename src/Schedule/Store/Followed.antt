-- ===== src/Schedule/Store/Followed.antt =====
-- The settings that an update builds, field by field, by the request and the settings before.
use grok_inspection.Base.{
  ℕ, ℤ, pos, String, true, false, ◌≡◌, refl, Option, none, some, if_cases, if◌then◌else◌,
}
use grok_inspection.Text.{str_eq}
use grok_inspection.Inspect.Sample.{normalize_sample_request}
use grok_inspection.Schedule.Settings.{
  Schedule, normalize_interval, normalize_workers, normalize_scope, normalize_action, is_asked,
}
use grok_inspection.Schedule.Store.{
  InspectionScheduleUpdate, UpdateError, sample_invalid, interval_invalid, workers_invalid,
  scope_invalid, action_invalid, Step, next, stop, ◌>>=◌, given, put_checked, checked, set_interval,
  set_workers, set_disabled, set_scope, set_sample, set_denied, set_limited, build, stamp,
}

abbrev pub Goes {ℓ} : (Schedule → Type ℓ) → Step → Type ℓ
Goes P (next cfg) = P cfg
Goes P (stop cfg e) = Unit

-- A field that the request leaves out stays; one that it names is the checked value.
abbrev pub Taken {ℓ} : {A : Type ℓ} → (A → Option A) → Option A → A → A → Type ℓ
Taken check none old new = new ≡ old
Taken check (some a) old new = check a ≡ some new

-- include_disabled and only_disabled take each other back, only_disabled last; sizes of a sample are
-- kept for a sample alone.
pub record Follows (req : InspectionScheduleUpdate) (prev cfg : Schedule) : Type 0 where
  pub enabled : cfg.enabled ≡ given req.enabled prev.enabled
  pub interval :
      Taken normalize_interval req.interval_minutes prev.interval_minutes cfg.interval_minutes
  pub workers : Taken normalize_workers req.workers prev.workers cfg.workers
  pub include : cfg.include_disabled ≡ (
      if given req.only_disabled false
      then false
      else given req.include_disabled prev.include_disabled)
  pub only :
      cfg.only_disabled
      ≡ given req.only_disabled
          (if given req.include_disabled false then false else prev.only_disabled)
  pub scope : Taken normalize_scope req.scope prev.scope cfg.scope
  pub count :
      cfg.sample_count
      ≡ (if str_eq cfg.scope "sample" then given req.sample_count prev.sample_count else pos 0)
  pub percent :
      cfg.sample_percent
      ≡ (if str_eq cfg.scope "sample" then given req.sample_percent prev.sample_percent else pos 0)
  pub denied :
      Taken normalize_action req.permission_denied_action prev.permission_denied_action
        cfg.permission_denied_action
  pub limited :
      Taken normalize_action req.spending_limit_action prev.spending_limit_action
        cfg.spending_limit_action
  pub recover : cfg.auto_recover_healthy ≡ given req.auto_recover_healthy prev.auto_recover_healthy

module _ {ℓ} (Q : Schedule → Type ℓ) (f : Schedule → Step) where
  put_checked-then {κ} :
      {A : Type κ} (check : A → Option A) (e : UpdateError) (put : A → Schedule) (cfg : Schedule)
      (o : Option A)
      → ((b : A) → o ≡ some b → Goes Q (f (put b)))
      → Goes Q (put_checked e put cfg o >>= f)
  unfolding put_checked ◌>>=◌
  put_checked-then check e put cfg none h = tt
  put_checked-then check e put cfg (some b) h = h b refl

  -- Before the check, the settings are those with the old value.
  checked-then {κ} :
      {A : Type κ} (o : Option A) (check : A → Option A) (e : UpdateError) (put : A → Schedule)
      (old : A)
      → ((b : A) → Taken check o old b → Goes Q (f (put b)))
      → Goes Q (checked o check e put (put old) >>= f)
  unfolding checked ◌>>=◌
  checked-then none check e put old h = h old refl
  checked-then (some a) check e put old h =
      put_checked-then check e put (put old) (check a) λ b c. h b c

  set_sample-then :
      (req : InspectionScheduleUpdate) (cfg : Schedule)
      → ((count percent : ℤ)
          → count
            ≡ (if str_eq cfg.scope "sample" then given req.sample_count cfg.sample_count else pos 0)
          → percent ≡ (
              if str_eq cfg.scope "sample"
              then given req.sample_percent cfg.sample_percent
              else pos 0)
          → Goes Q (f (record cfg { sample_count = count; sample_percent = percent })))
      → Goes Q (set_sample req cfg >>= f)
  unfolding set_sample ◌>>=◌
  set_sample-then req cfg h =
      let count = given req.sample_count cfg.sample_count in
      let percent = given req.sample_percent cfg.sample_percent in
      let kept = record cfg { sample_count = count; sample_percent = percent } in
      if_cases (λ s. Goes Q (s >>= f)) (str_eq cfg.scope "sample") _ _
        (λ e.
          if_cases (λ s. Goes Q (s >>= f)) (is_asked (normalize_sample_request true count percent))
            (next kept) (stop kept sample_invalid) (λ _. h count percent (cc) (cc)) (λ _. tt))
        (λ e. h (pos 0) (pos 0) (cc) (cc))

pub build-Follows :
    (req : InspectionScheduleUpdate) (prev : Schedule) → Goes (Follows req prev) (build req prev)
unfolding build set_interval set_workers set_disabled set_scope set_denied set_limited ◌>>=◌
build-Follows req prev =
    let Q = Follows req prev in
    let recovers : Schedule → Step = λ f.
      next (record f {
        auto_recover_healthy = given req.auto_recover_healthy f.auto_recover_healthy;
      }) in
    let limits : Schedule → Step = λ e. set_limited req e >>= recovers in
    let denies : Schedule → Step = λ d. set_denied req d >>= limits in
    let samples : Schedule → Step = λ c. set_sample req c >>= denies in
    let scopes : Schedule → Step = λ b. set_scope req (set_disabled req b) >>= samples in
    let works : Schedule → Step = λ a. set_workers req a >>= scopes in
    let c0 : Schedule = record prev { enabled = given req.enabled prev.enabled } in
    checked-then Q works req.interval_minutes normalize_interval interval_invalid
      (λ x. record c0 { interval_minutes = x }) prev.interval_minutes
      λ i hi.
        let c1 : Schedule = record c0 { interval_minutes = i } in
        checked-then Q scopes req.workers normalize_workers workers_invalid
          (λ x. record c1 { workers = x }) prev.workers
          λ w hw.
            let c2 : Schedule = set_disabled req (record c1 { workers = w }) in
            checked-then Q samples req.scope normalize_scope scope_invalid
              (λ x. record c2 { scope = x }) prev.scope
              λ s hs.
                let c3 : Schedule = record c2 { scope = s } in
                set_sample-then Q denies req c3 λ count percent hc hp.
                  let c4 : Schedule = record c3 {
                    sample_count = count;
                    sample_percent = percent;
                  } in
                  checked-then Q limits req.permission_denied_action normalize_action action_invalid
                    (λ x. record c4 { permission_denied_action = x }) prev.permission_denied_action
                    λ d hd.
                      let c5 : Schedule = record c4 { permission_denied_action = d } in
                      checked-then Q recovers req.spending_limit_action normalize_action
                        action_invalid (λ x. record c5 { spending_limit_action = x })
                        prev.spending_limit_action
                        λ l hl. record {
                          enabled = refl;
                          interval = hi;
                          workers = hw;
                          include = refl;
                          only = refl;
                          scope = hs;
                          count = hc;
                          percent = hp;
                          denied = hd;
                          limited = hl;
                          recover = refl;
                        }

restamped :
    {req : InspectionScheduleUpdate} {prev : Schedule} (cfg : Schedule) (date text : String)
    → Follows req prev cfg
    → Follows req prev (record cfg { next_run_at = date; last_status = text; last_error = "" })
restamped cfg date text v = record {
  enabled = v.enabled;
  interval = v.interval;
  workers = v.workers;
  include = v.include;
  only = v.only;
  scope = v.scope;
  count = v.count;
  percent = v.percent;
  denied = v.denied;
  limited = v.limited;
  recover = v.recover;
}

module _ (print : ℕ → String) where
  pub stamp-Follows :
      (req : InspectionScheduleUpdate) (prev : Schedule) (now : ℕ) (cfg : Schedule)
      → Follows req prev cfg
      → Follows req prev (stamp print now cfg)
  unfolding stamp
  stamp-Follows req prev now cfg v =
      if_cases (Follows req prev) cfg.enabled _ _ (λ e. restamped cfg _ _ v)
        (λ e. restamped cfg _ _ v)
