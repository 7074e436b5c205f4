-- ===== src/Schedule/Dispose/Tallied.antt =====
-- The report of a scheduled run accounts for every account that it was to change.
use grok_inspection.Base.{ℕ, String, ◌≡◌, ◌⊎◌, List, length, Option, if◌then◌else◌}
use grok_inspection.Ban.Evidence.{
  exhausted_error_code, permission_denied_error_code, spending_limit_error_code,
  unauthorized_error_code,
}
use grok_inspection.Schedule.Settings.{Schedule, normalize_action, or_default}
use grok_inspection.Schedule.Targets.{
  scheduled_permission_denied_targets, scheduled_spending_limit_targets,
  scheduled_quota_exhausted_targets, scheduled_unauthorized_targets,
  scheduled_healthy_recover_targets,
}
use grok_inspection.Schedule.Dispose.{
  Pool, ActEnd, ActionAsked, Tallies, asking, Report, failed_total,
}
use grok_inspection.Schedule.Dispose.Acted.{IsTallied, left}

-- The numbers of the accounts that the five actions are for.
pub record Wanted : Type 0 where
  pub quota : ℕ
  pub unauthorized : ℕ
  pub permission : ℕ
  pub spending : ℕ
  pub recover : ℕ

-- All five add up, and the first two delete nothing.
abbrev pub Adds : Wanted → Tallies → Type 0
Adds w ts =
    IsTallied w.quota ts.quota
    × IsTallied w.unauthorized ts.unauthorized
    × IsTallied w.permission ts.permission
    × IsTallied w.spending ts.spending
    × IsTallied w.recover ts.recover
    × (ts.quota.deleted ≡ 0)
    × (ts.unauthorized.deleted ≡ 0)

-- A run that was not stopped has reported all its actions: each adds up to the accounts that it was
-- for, the quota and the unauthorized accounts are only disabled, and the status is `completed` only
-- where nothing failed.
abbrev pub IsReported : Wanted → Report → Type 0
IsReported w r =
    (r.status ≡ "stopped")
    ⊎ (Adds w r.tallies
        × (((r.status ≡ "completed") × (failed_total r.tallies ≡ 0))
            ⊎ (r.status ≡ "completed_with_errors")))

module _ (act : ActionAsked → Pool → Pool × ActEnd) where
  -- The actions of a run with these settings, and the accounts that they are for: each action finds its
  -- accounts in the rows that the actions before it left.
  module _ (cfg : Schedule) (password : String) (scope : Option (List String)) (now : ℕ) where
    abbrev quota_asked : Pool → ActionAsked
    quota_asked p =
        asking "disable" exhausted_error_code
          (scheduled_quota_exhausted_targets p.results "disable" scope)

    abbrev unauthorized_asked : Pool → ActionAsked
    unauthorized_asked p =
        asking "disable" unauthorized_error_code
          (scheduled_unauthorized_targets p.results "disable" scope)

    abbrev permission_asked : Pool → ActionAsked
    permission_asked p =
        let action = or_default "disable" (normalize_action cfg.permission_denied_action) in
        asking action permission_denied_error_code
          (scheduled_permission_denied_targets p.results action scope)

    abbrev spending_asked : Pool → ActionAsked
    spending_asked p =
        let action = or_default "disable" (normalize_action cfg.spending_limit_action) in
        asking action spending_limit_error_code
          (scheduled_spending_limit_targets p.results action scope)

    abbrev recover_wanted : Pool → ℕ
    recover_wanted p =
        if cfg.auto_recover_healthy
        then length (scheduled_healthy_recover_targets p.bans p.results scope now)
        else 0

    -- From the third and fourth action on, given the numbers of those before.
    abbrev from_spending : ℕ → ℕ → ℕ → Pool → Wanted
    from_spending q u m p = record {
      quota = q;
      unauthorized = u;
      permission = m;
      spending = length (spending_asked p).targets;
      recover = recover_wanted (left act password (spending_asked p) p);
    }

    abbrev from_permission : ℕ → ℕ → Pool → Wanted
    from_permission q u p =
        from_spending q u (length (permission_asked p).targets)
          (left act password (permission_asked p) p)

    abbrev from_unauthorized : ℕ → Pool → Wanted
    from_unauthorized q p =
        from_permission q (length (unauthorized_asked p).targets)
          (left act password (unauthorized_asked p) p)

    abbrev pub wanted : Pool → Wanted
    wanted p =
        from_unauthorized (length (quota_asked p).targets) (left act password (quota_asked p) p)
