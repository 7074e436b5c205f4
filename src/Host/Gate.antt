-- ===== src/Host/Gate.antt =====
-- host_gate.go: the admission of calls into the host, and the shutdown that waits for them. A step is
-- what one goroutine does between two moments where it can be held up: at the admission's lock, at the
-- channel with one slot for each call inside, and at the WaitGroup.
pub mod Drained
use grok_inspection.Base.{
  ℕ, zero, suc, ◌+◌, ◌-◌, Bool, true, false, List, [], ◌∷◌, Option, none, some, ltb, ◌==◌,
  if◌then◌else◌,
}

abbrev pub max_workers : ℕ
max_workers = 16

-- Where a call of tryAcquireHostCall stands: before it, refused, at the channel, inside the host call,
-- between the channel and the WaitGroup, and after.
pub data Phase : Type 0 where
  outside refused admitted inside leaving gone : Phase

pub record Gate : Type 0 where
  pub shutting_down : Bool
  -- the counter of hostCallWG
  pub wait_group : ℕ
  -- len(hostCallGate) and cap(hostCallGate)
  pub slots : ℕ
  pub capacity : ℕ
  pub phases : List Phase
  -- waitHostCallsForShutdown has returned: the host may unload the plugin
  pub unloadable : Bool

abbrev pub get_elem? : List Phase → ℕ → Option Phase
get_elem? [] i = none
get_elem? (p ∷ ps) zero = some p
get_elem? (p ∷ ps) (suc i) = get_elem? ps i

abbrev pub set : List Phase → ℕ → Phase → List Phase
set [] i p = []
set (q ∷ ps) zero p = p ∷ ps
set (q ∷ ps) (suc i) p = q ∷ set ps i p

-- The admission under hostCallMu.
admit : Gate → ℕ → Gate
admit g i =
    if g.shutting_down
    then record g { phases = set g.phases i refused }
    else record g { wait_group = g.wait_group + 1; phases = set g.phases i admitted }

-- `hostCallGate <- struct{}{}` goes through where a slot is free.
enter : Gate → ℕ → Gate
enter g i =
    if ltb g.slots g.capacity
    then record g { slots = g.slots + 1; phases = set g.phases i inside }
    else g

-- The two halves of releaseHostCall.
leave : Gate → ℕ → Gate
leave g i = record g { slots = g.slots - 1; phases = set g.phases i leaving }

done : Gate → ℕ → Gate
done g i = record g { wait_group = g.wait_group - 1; phases = set g.phases i gone }

-- A call goes on by one step, if it can.
advance : Gate → ℕ → Option Phase → Gate
unfolding admit enter leave done
advance g i (some outside) = admit g i
advance g i (some admitted) = enter g i
advance g i (some inside) = leave g i
advance g i (some leaving) = done g i
advance g i _ = g

-- A step of a call, the close of the admission, or the end of the wait, which comes only after the
-- close and with the counter at 0.
pub data Event : Type 0 where
  advances : ℕ → Event
  closes : Event
  waited : Event

unfoldable pub event : Gate → Event → Gate
unfolding advance
event g (advances i) = advance g i (get_elem? g.phases i)
event g closes = record g { shutting_down = true }
event g waited = elim g.shutting_down [
  | true ↦ if g.wait_group == 0 then record g { unloadable = true } else g
  | false ↦ g
]

unfoldable pub events : Gate → List Event → Gate
events g [] = g
events g (e ∷ es) = events (event g e) es

outsiders : ℕ → List Phase
outsiders zero = []
outsiders (suc n) = outside ∷ outsiders n

-- The gate before any of `n` calls.
unfoldable pub open_gate : ℕ → Gate
unfolding outsiders
open_gate n = record {
  shutting_down = false;
  wait_group = 0;
  slots = 0;
  capacity = max_workers;
  phases = outsiders n;
  unloadable = false;
}
