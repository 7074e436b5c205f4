-- ===== src/Ban/Persist/Kept.antt =====
-- A change of the pool that has been marked is not forgotten.
use grok_inspection.Base.{◌≤◌, Bool, true, ◌&&◌, ◌≡◌, ◌⊎◌, List, [], ◌∷◌, Option, none, some}
use grok_inspection.Ban.Persist.{
  Config, persists, World, Event, changes, marks, wakes, stops, ends, flushes, publishes, retargets,
  event,
}
use grok_inspection.Ban.Persist.Settled.{Settled, IsWriting}
use grok_inspection.Ban.Persist.Leaves.{Leaves}

-- While a reconfiguration is under way, it is the configured one, and brings the mark along.
abbrev Stands : Option (Config × Bool) → World → Type 0
Stands none w = Settled w
Stands (some (c, d)) w =
    (persists w.config ≡ true) × (w.marked ≤ w.version) × (c ≡ w.config) × (d ≡ true)

abbrev IsValid : World → Type 0
IsValid w = Stands w.retarget w

-- A mark carries the configuration that is published, and a new one keeps the pool saved and brings
-- the mark along.
abbrev pub IsFresh : Event → World → Type 0
IsFresh (marks cfg) w = cfg ≡ w.config
IsFresh (publishes cfg dirty) w = (persists cfg && dirty) ≡ true
IsFresh changes w = Unit
IsFresh wakes w = Unit
IsFresh stops w = Unit
IsFresh retargets w = Unit
IsFresh (ends ok) w = Unit
IsFresh (flushes ok) w = Unit

abbrev pub AllFresh : List Event → World → Type 0
AllFresh [] w = Unit
AllFresh (ev ∷ evs) w = IsFresh ev w × AllFresh evs (event w ev)

-- The last marked change is in the configured file; or the worker has the mark; or it is writing that
-- file from no earlier change; or the reconfiguration under way will set the mark.
abbrev pub IsKept : World → Type 0
IsKept w =
    (w.marked ≤ w.saved)
    ⊎ ((w.worker.dirty ≡ true)
        ⊎ (IsWriting w.config.state_file w.marked w.phase ⊎ (w.retarget ≡ some (w.config, true))))
