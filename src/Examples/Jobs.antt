-- ===== src/Examples/Jobs.antt =====
-- The theorems on the schedule, the engine and the jobs, at concrete inputs.
use grok_inspection.Base.{
  ℕ, ◌+◌, ◌≤◌, leb_ℤ, pos, String, true, false, ◌≡◌, ◌≢◌, refl, sym, ap, ◌∙◌, inl, inr, List, [],
  ◌∷◌, length, none, some, arith,
}
use grok_inspection.Text.{is_empty, trim_space}
use grok_inspection.Text.Laws.{ne_of_str_eq}
use grok_inspection.Ban.Detector.{BanEntry}
use grok_inspection.Ban.Store.{clear, Store, new_store}
use grok_inspection.Accounts.{AccountResult}
use grok_inspection.Accounts.Lookup.{resolve_account_result_by_target_id}
use grok_inspection.Schedule.Settings.{
  StartRequest, default_schedule, no_counters, max_workers, scheduled_request,
}
use grok_inspection.Schedule.Store.{Saved, InspectionScheduleUpdate, load}
use grok_inspection.Schedule.Store.Committed.{Outcome}
use grok_inspection.Schedule.Store.Restart.{Call, updates, reports, InStep, calls, load-calls}
use grok_inspection.Schedule.Targets.{scheduled_targets_match}
use grok_inspection.Schedule.Targets.Exact.{IsWanted, scheduled_targets-Exact}
use grok_inspection.Ban.Persist.{
  Config, changes, marks, wakes, publishes, retargets, ends, flushes, stops,
}
use grok_inspection.Ban.Persist.{
  Event as PersistEvent, events as persist_events, start as start_persist,
}
use grok_inspection.Schedule.Dispose.{Pool, ActEnd, ended, ActionAsked}
use grok_inspection.Engine.State.{new_engine, new_unban_job, bump}
use grok_inspection.Engine.Start.{started, start_with_run_id, begin_run}
use grok_inspection.Engine.Start.Scheduled.{scheduled_options, workers_of, scheduled_request-starts}
use grok_inspection.Engine.Owner.{
  World, new_world, Event, asks_inspection, asks_job, asks_stop, finishes, job_ends, shuts_down,
  idle, history,
}
use grok_inspection.Engine.Owner.Refined.{Follows, history-Follows}
use grok_inspection.Engine.Outcome.{IsSuperseded, history-IsSuperseded}
use grok_inspection.Engine.Unban.{
  UnbanTarget, Surroundings, enables, enable_fails, end_unban_job, commit_unban_after_enable,
}
use grok_inspection.Engine.Unban.Commit.{CommitOutcome, commit_unban-CommitOutcome}
use grok_inspection.Engine.Unban.Count.{looped, one_if, unban_job-counts}
use mathlib.Core.List.{Memᴰ}
use mathlib.Core.List.Memᴰ.{head, tail}

abbrev no_date : ℕ → String
no_date n = "2026-01-01T00:00:00Z"

abbrev in_memory : Saved
in_memory = record { memory = default_schedule; file = some default_schedule }

abbrev hourly : InspectionScheduleUpdate
hourly = record {
  enabled = some true;
  interval_minutes = some (pos 60);
  workers = none;
  include_disabled = none;
  only_disabled = some true;
  scope = some "sample";
  sample_count = some (pos 5);
  sample_percent = none;
  permission_denied_action = none;
  spending_limit_action = some "delete";
  auto_recover_healthy = none;
}

default-InStep : InStep in_memory
unfolding default_schedule
default-InStep = record {
  filed = refl;
  valid = record {
    interval = (refl, refl);
    workers = (refl, refl);
    denied = inl refl;
    limited = inl refl;
    sample = inl (refl, refl, refl);
    exclusive = inl refl;
    next = inr refl;
  };
}

abbrev two_calls : List Call
two_calls = updates hourly true 100 ∷ reports "running" "" 200 no_counters 200 ∷ []

load-calls_example :
    load (calls no_date in_memory two_calls).file ≡ (calls no_date in_memory two_calls).memory
load-calls_example = load-calls no_date in_memory two_calls default-InStep

abbrev row : String → AccountResult
row index = record {
  auth_index = index;
  name = "shared";
  file_name = "q";
  email = "";
  file_id = "";
  file_mod_unix = pos 0;
  file_size = pos 0;
  disabled = false;
  classification = "spending_limit";
  action = "disable";
  reason = "";
  http_status = pos 402;
  model = "";
  error_code = "personal-team-blocked:spending-limit";
  error_message = "";
  ban_error_code = "";
}

abbrev two_rows : List AccountResult
two_rows = row "a" ∷ row "q" ∷ []

not_equal : trim_space "a" ≢ trim_space "q"
unfolding trim_space grok_inspection.Text.str_eq
not_equal = ne_of_str_eq "a" "q" refl

q_full : is_empty (trim_space "q") ≡ false
unfolding trim_space is_empty
q_full = refl

a_full : is_empty (trim_space "a") ≡ false
unfolding trim_space is_empty
a_full = refl

rows-IsDistinct :
    (r s : AccountResult)
    → Memᴰ r two_rows
    → Memᴰ s two_rows
    → trim_space r.auth_index ≡ trim_space s.auth_index
    → r ≡ s
rows-IsDistinct r s (head h) (head k) e = h ∙ sym k
rows-IsDistinct r s (tail (head h)) (tail (head k)) e = h ∙ sym k
rows-IsDistinct r s (head h) (tail (head k)) e =
    elim (not_equal (
      sym (ap (λ (x : AccountResult). trim_space x.auth_index) h)
      ∙ e
      ∙ ap (λ (x : AccountResult). trim_space x.auth_index) k)) [ ]
rows-IsDistinct r s (tail (head h)) (head k) e =
    elim (not_equal (
      sym (ap (λ (x : AccountResult). trim_space x.auth_index) k)
      ∙ sym e
      ∙ ap (λ (x : AccountResult). trim_space x.auth_index) h)) [ ]
rows-IsDistinct r s (head h) (tail (tail m)) e = elim m [ ]
rows-IsDistinct r s (tail (head h)) (tail (tail m)) e = elim m [ ]
rows-IsDistinct r s (tail (tail m)) k e = elim m [ ]

a_wanted : Memᴰ "a" (
    scheduled_targets_match two_rows 402 "spending_limit" "personal-team-blocked:spending-limit"
      "disable" none)
unfolding scheduled_targets_match
a_wanted = head refl

scheduled_targets-Exact_example :
    (r : AccountResult) × (resolve_account_result_by_target_id two_rows "a" ≡ some r)
    × Memᴰ r two_rows
    × IsWanted 402 "spending_limit" "personal-team-blocked:spending-limit" "disable" none r
scheduled_targets-Exact_example =
    scheduled_targets-Exact two_rows 402 "spending_limit" "personal-team-blocked:spending-limit"
      "disable" none "a" (a_full, (q_full, tt)) rows-IsDistinct a_wanted

abbrev plain_request : StartRequest
plain_request = record {
  lang = "en";
  workers = pos 4;
  include_disabled = false;
  only_disabled = false;
  incremental = false;
  sample = false;
  sample_count = pos 0;
  sample_percent = pos 0;
  classifications = [];
}

abbrev day : List Event
day =
    asks_inspection plain_request 10
    ∷ asks_job (pos 3) "" "unban" 11
    ∷ finishes 1 20
    ∷ asks_job (pos 3) "" "unban" 21
    ∷ asks_inspection plain_request 22
    ∷ asks_stop "" 23
    ∷ job_ends 24
    ∷ shuts_down
    ∷ []

history-Follows_example : Follows day idle new_world
history-Follows_example =
    history-Follows day new_world idle (refl, refl, refl, refl, refl, refl, refl)

-- The first run has been replaced by the second.
abbrev later : World
later = record new_world { engine = record new_engine { run_id = 2; running = true } }

history-IsSuperseded_example : IsSuperseded 1 ((history day later).engine)
history-IsSuperseded_example =
    history-IsSuperseded day later 1 (omega arith) (λ e. omega arith) (omega arith)

scheduled_request-starts_example :
    (start_with_run_id new_engine new_unban_job (scheduled_request default_schedule) 5
      ≡ started (begin_run new_engine (scheduled_options default_schedule) 5) (bump 0))
    × (leb_ℤ (pos 1) (workers_of default_schedule) ≡ true)
    × (leb_ℤ (workers_of default_schedule) max_workers ≡ true)
scheduled_request-starts_example =
    scheduled_request-starts default_schedule new_engine new_unban_job 5 refl refl

abbrev newer : BanEntry
newer = record {
  auth_id = "a";
  provider = "xai";
  error_code = "unauthorized";
  error_code_diag = "";
  banned_at = 30;
  reset_at = 40;
  reset_source = "manual_unban";
  trace_id = "";
  cpa_synced = false;
  revision = 2;
  cpa_sync_error = "";
}

abbrev banned_again : Store
banned_again = record { bans = ("a", newer) ∷ []; rev = 2 }

commit_unban-CommitOutcome_example :
    CommitOutcome
      (λ m. m)
      banned_again
      (trim_space "a")
      1
      clear
      none
      (commit_unban_after_enable (λ m. m) banned_again "a" 1 true clear none)
commit_unban-CommitOutcome_example =
    commit_unban-CommitOutcome (λ m. m) banned_again "a" 1 clear none a_full

abbrev target : String → UnbanTarget
target id = record { auth_id = id; rev = 1 }

abbrev two_targets : List (UnbanTarget × Surroundings)
two_targets =
    (
      target "a",
      record {
        stops_before = false;
        enable = enables true;
        meanwhile = λ s. banned_again;
        during = λ s. s;
        redisable = some "timeout";
        stops_during = false;
      },
    )
    ∷ (
      target "b",
      record {
        stops_before = false;
        enable = enable_fails "503";
        meanwhile = λ s. s;
        during = λ s. s;
        redisable = none;
        stops_during = true;
      },
    )
    ∷ []

unban_job-counts_example :
    let w = looped (λ m. m) new_unban_job two_targets new_store (pos 2) 10 in
    let r = end_unban_job w (some "disk full") 20 in
    (r.job.done ≡ 2)
    × (r.job.enabled + r.job.missing + w.job.failed ≡ r.job.done)
    × (r.job.failed ≡ w.job.failed + one_if (some "disk full"))
    × (length r.job.failures ≤ 20)
    × (r.job.running ≡ false)
unban_job-counts_example =
    unban_job-counts (λ m. m) new_unban_job two_targets new_store (pos 2) 10 20 (some "disk full")

abbrev calm : ActionAsked → Pool → Pool × ActEnd
calm asked pool = (pool, ended ("a: timeout" ∷ []))

abbrev file : Config
file = record { persist_state = true; state_file = "bans.json" }

abbrev other_file : Config
other_file = record { persist_state = true; state_file = "new.json" }

-- A mark and a new configuration while a save runs, and the save fails.
abbrev failing_save : List PersistEvent
failing_save =
    changes
    ∷ marks file
    ∷ wakes
    ∷ publishes other_file true
    ∷ changes
    ∷ marks other_file
    ∷ ends false
    ∷ retargets
    ∷ wakes
    ∷ flushes true
    ∷ stops
    ∷ []
