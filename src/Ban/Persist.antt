-- ===== src/Ban/Persist.antt =====
-- ban_persist.go: the worker that saves the pool for the threads that mark it as changed, as the turns
-- of the goroutines under its mutex. A save is banStoreSaveFn, which fails or writes the pool as it was
-- when the save began or later. The pauses between the saves are the timer's.
pub mod Kept
pub mod Leaves
pub mod Settled
use grok_inspection.Base.{
  ℕ, ◌+◌, max, String, Bool, true, false, not, ◌&&◌, ◌||◌, List, [], ◌∷◌, Option, none, some,
  if◌then◌else◌,
}
use grok_inspection.Text.{str_eq, is_empty}

-- The two fields of pluginConfig that the code reads.
pub record Config : Type 0 where
  pub persist_state : Bool
  pub state_file : String

abbrev pub persists : Config → Bool
persists cfg = cfg.persist_state && not (is_empty cfg.state_file)

pub record BanPersistWorker : Type 0 where
  pub dirty : Bool
  pub path : String
  pub stop : Bool
  pub started : Bool

-- Where the worker's goroutine is. A save has its path, and the change that the pool was at when it
-- began.
pub data Phase : Type 0 where
  absent waiting exited : Phase
  saving : String → ℕ → Phase

-- `retarget` is the reconfiguration that has published its configuration and not yet told the worker.
-- `version` counts the changes of the pool, `marked` is the last that a mark has followed, and `saved`
-- the last that the configured file holds. No call of the code reads these three.
pub record World : Type 0 where
  pub config : Config
  pub worker : BanPersistWorker
  pub phase : Phase
  pub retarget : Option (Config × Bool)
  pub version : ℕ
  pub marked : ℕ
  pub saved : ℕ

unfoldable pub start_ban_persist_worker : World → World
start_ban_persist_worker w =
    let started : World = record w {
      worker = record w.worker { started = true };
      phase = waiting;
    } in
    if w.worker.started || w.worker.stop then w else started

-- `cfg` is the configuration that the call has read before it takes the worker's mutex.
unfoldable pub mark_ban_store_dirty : World → Config → World
unfolding start_ban_persist_worker is_empty
mark_ban_store_dirty w cfg =
    let dirtied : World = record w {
      worker = record w.worker { path = cfg.state_file; dirty = true };
      marked = w.version;
    } in
    if not (persists cfg) then w else start_ban_persist_worker dirtied

-- applyReconfigureLocked stores the new configuration, whose file holds nothing of the pool yet; the
-- mutex of the plugin's lifecycle lets one reconfiguration run at a time.
unfoldable pub publish : World → Option (Config × Bool) → Config → Bool → World
unfolding str_eq
publish w none cfg dirty = record w {
  config = cfg;
  saved = if str_eq w.config.state_file cfg.state_file then w.saved else 0;
  retarget = some (cfg, dirty);
}
publish w (some r) cfg dirty = w

unfoldable pub reconfigure_ban_persist_worker : World → Config → Bool → World
unfolding start_ban_persist_worker is_empty
reconfigure_ban_persist_worker w cfg dirty =
    let off : World = record w { worker = record w.worker { path = ""; dirty = false } } in
    let on : World = record w {
      worker = record w.worker { path = cfg.state_file; dirty = w.worker.dirty || dirty };
    } in
    if not (persists cfg) then off else if on.worker.dirty then start_ban_persist_worker on else on

-- The second step of a reconfiguration.
unfoldable pub tell_worker : World → Option (Config × Bool) → World
unfolding reconfigure_ban_persist_worker
tell_worker w none = w
tell_worker w (some (cfg, dirty)) =
    reconfigure_ban_persist_worker (record w { retarget = none }) cfg dirty

-- The path of a save: the worker's, or else the configured one.
unfoldable pub path_of : World → String
unfolding is_empty
path_of w =
    let configured = if w.config.persist_state then w.config.state_file else "" in
    if is_empty w.worker.path then configured else w.worker.path

taken : World → World
unfolding path_of is_empty
taken w =
    let clean : World = record w { worker = record w.worker { dirty = false } } in
    let begun : World = record clean { phase = saving (path_of w) w.version } in
    let gone : World = record w { phase = exited } in
    if w.worker.stop
    then gone
    else if not w.worker.dirty
    then w
    else if is_empty (path_of w)
    then clean
    else begun

-- The worker wakes: it leaves, goes on waiting, or begins a save.
unfoldable pub wake : World → Phase → World
unfolding taken
wake w waiting = taken w
wake w absent = w
wake w exited = w
wake w (saving path from) = w

-- What a save that has succeeded leaves in the configured file.
unfoldable pub filed : World → String → ℕ → ℕ
unfolding str_eq
filed w path from = if str_eq path w.config.state_file then max w.saved from else w.saved

unfoldable pub end_save : World → Phase → Bool → World
unfolding filed
end_save w (saving path from) true = record w { phase = waiting; saved = filed w path from }
end_save w (saving path from) false =
    let again : World = record w { worker = record w.worker { dirty = true } } in
    if w.worker.stop then record again { phase = exited } else record again { phase = waiting }
end_save w absent ok = w
end_save w waiting ok = w
end_save w exited ok = w

-- stopBanPersistWorker, before it waits for the worker.
unfoldable pub stop_ban_persist_worker : World → World
stop_ban_persist_worker w = record w { worker = record w.worker { stop = true } }

-- The synchronous save, at the end of a stop and of a flush.
unfoldable pub flush_ban_persist : World → Bool → World
unfolding path_of filed is_empty
flush_ban_persist w ok =
    let path = if is_empty w.worker.path then w.config.state_file else w.worker.path in
    let written : World = record w { saved = filed w path w.version } in
    if not (persists w.config) then w else if ok then written else w

pub data Event : Type 0 where
  changes wakes stops retargets : Event
  marks : Config → Event
  ends flushes : Bool → Event
  publishes : Config → Bool → Event

unfoldable pub event : World → Event → World
unfolding mark_ban_store_dirty wake end_save stop_ban_persist_worker flush_ban_persist publish
    tell_worker
event w changes = record w { version = w.version + 1 }
event w (marks cfg) = mark_ban_store_dirty w cfg
event w wakes = wake w w.phase
event w stops = stop_ban_persist_worker w
event w (ends ok) = end_save w w.phase ok
event w (flushes ok) = flush_ban_persist w ok
event w (publishes cfg dirty) = publish w w.retarget cfg dirty
event w retargets = tell_worker w w.retarget

unfoldable pub events : World → List Event → World
unfolding event
events w [] = w
events w (e ∷ es) = events (event w e) es

abbrev pub start : Config → World
start cfg = record {
  config = cfg;
  worker = record { dirty = false; path = ""; stop = false; started = false };
  phase = absent;
  retarget = none;
  version = 0;
  marked = 0;
  saved = 0;
}
