-- ===== src/Examples/Turns.antt =====
-- The theorems on orders of steps, at concrete ones: the dispose queue, the saves of the pool, the gate
-- of the host calls, the handling of a failed request, and the restore loop.
use grok_inspection.Base.{
  ℕ, ◌+◌, ◌≤◌, ◌<◌, pos, List, String, true, false, ◌≡◌, refl, [], ◌∷◌, none, some, arith, subst,
  if◌then◌else◌,
}
use grok_inspection.Text.{is_empty, trim_space, str_eq}
use grok_inspection.Text.Laws.{str_eq_iff}
use grok_inspection.Dict.{lookup}
use grok_inspection.Json.{obj, str, end, field}
use grok_inspection.Time.{Formats}
use grok_inspection.Ban.Detector.{BanEntry, UsageRecord, PluginConfig, detect_ban}
use grok_inspection.Ban.Store.{Store, new_store, get, set}
use grok_inspection.Ban.Store.Invariant.{IsValid as IsPool, calls, sets}
use grok_inspection.Ban.Queue.{Queue, new_ban_dispose_queue, enqueue, take}
use grok_inspection.Ban.Queue.Bounded.{
  IsValid, new-IsValid, events, requests, takes, finishes, stops, queue_events-IsValid,
}
use grok_inspection.Ban.Queue.Requests.{raised, enqueue_accepted}
use grok_inspection.Ban.Save.{start, begins, wakes, ends, waits, writes, spins}
use grok_inspection.Ban.Save.{Event as SaveEvent, events as save_events}
use grok_inspection.Ban.Save.Stuck.{failed_empty_write}
use grok_inspection.Host.Gate.{gone, refused, advances, closes, waited, get_elem?, open_gate}
use grok_inspection.Host.Gate.{events as gate_events}
use grok_inspection.Host.Gate.Drained.{counted, held, sum, unloadable_drained, inside_bounded}
use grok_inspection.Ban.Scheduler.{
  Plugin, Meanwhile, handle_usage_record, DisableOutcome, disabled, EnableOutcome, enabled,
  restore_expired_bans,
}
use grok_inspection.Ban.Disposal.{is_stale, apply_ban_dispose_with_store}
use grok_inspection.Ban.Disposal.Synced.{Agrees, apply_ban_dispose_with_store-Agrees}
use grok_inspection.Ban.Scheduler.Handled.{IsHandled, handle_usage_record-IsHandled}
use grok_inspection.Ban.Scheduler.Permanent.{Holds, restore_expired_bans-Holds}

abbrev empty_queue : Queue
empty_queue = record {
  pending = [];
  order = [];
  capacity = 2;
  queued = 0;
  workers = 1;
  stopping = false;
  started = false;
  running = 0;
  in_flight = 0;
}

queue_events-IsValid_example : IsValid (
    events
      (new_ban_dispose_queue (pos 2) (pos 1))
      (requests "a" 1 ∷ requests "b" 2 ∷ requests "c" 3 ∷ takes ∷ finishes ∷ stops ∷ []))
queue_events-IsValid_example =
    queue_events-IsValid (new_ban_dispose_queue (pos 2) (pos 1))
      (requests "a" 1 ∷ requests "b" 2 ∷ requests "c" 3 ∷ takes ∷ finishes ∷ stops ∷ [])
      (new-IsValid (pos 2) (pos 1))

abbrev one_request : Queue
one_request = (enqueue empty_queue " a " 1).0

one_queued : one_request.order ≡ "a" ∷ []
unfolding enqueue is_empty trim_space lookup
one_queued = refl

taken_in : (enqueue one_request "a" 7).1 ≡ true
unfolding enqueue is_empty trim_space lookup str_eq
taken_in = refl

enqueue_accepted_example : lookup "a" (enqueue one_request "a" 7).0.pending ≡ (
    if str_eq (trim_space "a") "a"
    then some (raised (lookup (trim_space "a") one_request.pending) 7)
    else lookup "a" one_request.pending)
enqueue_accepted_example = enqueue_accepted one_request "a" 7 "a" taken_in

-- Two saves of an empty pool, of which the second waits, and the first has written its own.
abbrev two_saves : List SaveEvent
two_saves = begins 0 [] "bans.json" ∷ begins 1 [] "bans.json" ∷ ends 0 true ∷ []

two_saves_stand :
    ((save_events start two_saves).held ≡ false)
    × ((save_events start two_saves).phase 0 ≡ writes 1 [] 2 "bans.json")
    × ((save_events start two_saves).pending ≡ none)
    × ((save_events start two_saves).phase 1 ≡ waits 2)
    × ((save_events start two_saves).written < 2)
unfolding save_events grok_inspection.Ban.Save.event start is_empty
two_saves_stand = (refl, refl, refl, refl, omega arith)

failed_empty_write_example :
    ((save_events (save_events start two_saves) (ends 0 false ∷ wakes 1 ∷ ends 0 true ∷ [])).phase 1
      ≡ spins 2)
    × (save_events (save_events start two_saves) (ends 0 false ∷ wakes 1 ∷ ends 0 true ∷ [])
        ≡ save_events (save_events start two_saves) (ends 0 false ∷ wakes 1 ∷ []))
failed_empty_write_example =
    failed_empty_write (save_events start two_saves) 0 1 1 2 2 "bans.json" (ends 0 true ∷ [])
      two_saves_stand.0 two_saves_stand.1 two_saves_stand.2 refl two_saves_stand.3 two_saves_stand.4

drained :
    (gate_events
      (open_gate 2)
      (advances 0 ∷ advances 0 ∷ closes ∷ advances 0 ∷ advances 0 ∷ waited ∷ [])).unloadable
    ≡ true
unfolding gate_events grok_inspection.Host.Gate.event open_gate
drained = refl

late :
    get_elem?
      (gate_events
        (gate_events
          (open_gate 2)
          (advances 0 ∷ advances 0 ∷ closes ∷ advances 0 ∷ advances 0 ∷ waited ∷ []))
        (advances 1 ∷ [])).phases
      1
    ≡ some refused
unfolding gate_events grok_inspection.Host.Gate.event open_gate
late = refl

unloadable_drained_example : counted refused ≡ 0
unloadable_drained_example =
    unloadable_drained 2 (advances 0 ∷ advances 0 ∷ closes ∷ advances 0 ∷ advances 0 ∷ waited ∷ [])
      (advances 1 ∷ []) 1 refused drained late

inside_bounded_example :
    sum held (gate_events (open_gate 20) (advances 3 ∷ advances 3 ∷ [])).phases ≤ 16
inside_bounded_example = inside_bounded 20 (advances 3 ∷ advances 3 ∷ [])

abbrev formats : Formats
formats = record { rfc3339 = λ s. none; http_date = λ s. none }

abbrev config : PluginConfig
config = record {
  fallback_hours = pos 24;
  persist_state = true;
  state_file = "bans.json";
  log_matches = true;
  enabled = true;
}

abbrev usage : UsageRecord
usage = record {
  provider = "x-ai";
  auth_id = "grok-1";
  failed = true;
  status_code = pos 402;
  body = record {
    text = "{}";
    decoded = some (obj (field "code" (str "personal-team-blocked:spending-limit") end));
  };
  response_headers = [];
}

abbrev limit_ban : BanEntry
limit_ban = record {
  auth_id = "grok-1";
  provider = "xai";
  error_code = "personal-team-blocked:spending-limit";
  error_code_diag = "";
  banned_at = 0;
  reset_at = 3_155_673_600_000_000_000;
  reset_source = "manual_unban";
  trace_id = "";
  cpa_synced = false;
  revision = 0;
  cpa_sync_error = "";
}

abbrev plugin : Plugin
plugin = record { store = new_store; queue = empty_queue; dirty = false }

is_detected : detect_ban formats usage config 0 ≡ some limit_ban
unfolding detect_ban is_empty grok_inspection.Ban.Detector.ban_codes
    grok_inspection.Ban.Detector.parse_error_code
    grok_inspection.Ban.Detector.is_forbidden_without_evidence
    grok_inspection.Ban.Detector.resolve_ban_window grok_inspection.Time.add_years
    grok_inspection.Time.days_before grok_inspection.Time.date_of grok_inspection.Time.move_yday
is_detected = refl

-- A worker takes the account from the queue at once.
abbrev busy : Meanwhile
busy = record {
  after_set = λ p. p;
  after_get = λ p. p;
  after_enqueue = λ p. record p { queue = (take p.queue).0 };
}

handle_usage_record-IsHandled_example :
    IsHandled busy plugin limit_ban (handle_usage_record formats busy plugin usage config 0)
handle_usage_record-IsHandled_example =
    handle_usage_record-IsHandled formats busy plugin usage config 0 refl is_detected

-- A CPA that does what it is asked, while the pool rests.
abbrev quiet_disable : ℕ → Store → String → ℕ × Store × DisableOutcome
quiet_disable w s id = (w + 1, s, disabled)

abbrev quiet_enable : ℕ → Store → String → ℕ × Store × EnableOutcome
quiet_enable w s id = (w + 1, s, enabled)

new_store-IsPool : IsPool new_store
new_store-IsPool = record { rows = λ id e g. absurd (unfold lookup in cc); distinct = tt }

-- A pool with one row, whose window has passed.
abbrev passed : Store
passed =
    calls new_store
      (sets (record limit_ban { reset_at = 3; reset_source = "header_absolute" }) ∷ [])

limited_pool :
    get (set new_store limit_ban) (trim_space " grok-1") ≡ some (record limit_ban { revision = 1 })
unfolding lookup set is_empty str_eq trim_space grok_inspection.Ban.Store.merge
limited_pool = refl

limited_named : is_empty (trim_space " grok-1") ≡ false
unfolding is_empty trim_space
limited_named = refl

limited_fresh : is_stale (record limit_ban { revision = 1 }) 1 ≡ false
unfolding is_stale
limited_fresh = refl

apply_ban_dispose_with_store-Agrees_example :
    Agrees 1
      (quiet_disable 0 (set new_store limit_ban) (trim_space " grok-1")).2
      (get
        (quiet_disable 0 (set new_store limit_ban) (trim_space " grok-1")).1
        (trim_space " grok-1"))
      (get
        (apply_ban_dispose_with_store quiet_disable 0 (set new_store limit_ban) " grok-1" 1).store
        (trim_space " grok-1"))
apply_ban_dispose_with_store-Agrees_example =
    apply_ban_dispose_with_store-Agrees quiet_disable 0 (set new_store limit_ban) " grok-1" 1
      limited_named limited_pool limited_fresh

-- A pool with a ban for an operator to lift.
abbrev held_pool : Store
held_pool = record { bans = ("grok-1", limit_ban) ∷ []; rev = 1 }

grok_trimmed : trim_space "grok-1" ≡ "grok-1"
unfolding trim_space
grok_trimmed = refl

held_row : get held_pool "grok-1" ≡ some limit_ban
unfolding lookup str_eq
held_row = refl

held_trimmed : (k : String) (e : BanEntry) → get held_pool k ≡ some e → trim_space k ≡ k
unfolding lookup
held_trimmed k e h =
    let same : "grok-1" ≡ k = ground (arith, str_eq_iff "grok-1" k) in
    subst (λ x. trim_space x ≡ x) same grok_trimmed

held_pool-Holds : Holds "grok-1" held_pool
held_pool-Holds = record { manual = (limit_ban, held_row, refl); trimmed = held_trimmed }

restore_expired_bans-Holds_example :
    Holds "grok-1"
      (restore_expired_bans quiet_disable quiet_enable 0 held_pool 4_000_000_000_000_000_000).store
restore_expired_bans-Holds_example =
    restore_expired_bans-Holds quiet_disable quiet_enable (λ w s id. refl) (λ w s id. refl)
      (λ w s id. refl) "grok-1" 0 held_pool 4_000_000_000_000_000_000 held_pool-Holds
