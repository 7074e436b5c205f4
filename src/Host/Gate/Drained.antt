-- ===== src/Host/Gate/Drained.antt =====
-- The shutdown ends only after every host call, and no call begins after it.
use grok_inspection.Base.{
  ℕ, zero, suc, ◌+◌, ◌≤◌, true, ◌≡◌, refl, sym, ◌∙◌, List, [], ◌∷◌, Option, some, arith,
}
use grok_inspection.Host.Gate.{
  Phase, outside, refused, admitted, inside, leaving, gone, Gate, get_elem?, set, advance, Event,
  advances, closes, waited, event, events, open_gate, outsiders,
}

-- Whether the WaitGroup counts a call, and whether it holds a slot of the channel.
abbrev pub counted : Phase → ℕ
counted outside = 0
counted refused = 0
counted admitted = 1
counted inside = 1
counted leaving = 1
counted gone = 0

abbrev pub held : Phase → ℕ
held outside = 0
held refused = 0
held admitted = 0
held inside = 1
held leaving = 0
held gone = 0

abbrev pub sum : (Phase → ℕ) → List Phase → ℕ
sum w [] = 0
sum w (p ∷ ps) = w p + sum w ps

-- What the counter and the channel count are the calls, the slots keep within the channel, and an
-- unloadable plugin has no call left and admits none.
pub record IsValid (g : Gate) : Type 0 where
  pub waited_for : g.wait_group ≡ sum counted g.phases
  pub slotted : g.slots ≡ sum held g.phases
  pub bounded : g.slots ≤ g.capacity
  pub drained : g.unloadable ≡ true → (g.shutting_down ≡ true) × (g.wait_group ≡ 0)

sum-set :
    (w : Phase → ℕ) (ps : List Phase) (i : ℕ) (p q : Phase)
    → get_elem? ps i ≡ some q
    → sum w (set ps i p) + w q ≡ sum w ps + w p
sum-set w [] i p q h = cc
sum-set w (x ∷ ps) zero p q h = let same : w x ≡ w q = ground (arith, h) in omega (arith, same)
sum-set w (x ∷ ps) (suc i) p q h = omega (arith, sum-set w ps i p q h)

advance-IsValid :
    (g : Gate) (i : ℕ) (o : Option Phase)
    → get_elem? g.phases i ≡ o
    → IsValid g
    → IsValid (advance g i o)
unfolding advance
advance-IsValid g i (some outside) h v = ground (
  arith,
  sum-set counted g.phases i refused outside,
  sum-set held g.phases i refused outside,
  sum-set counted g.phases i admitted outside,
  sum-set held g.phases i admitted outside,
)
advance-IsValid g i (some admitted) h v =
    ground
      (arith, sum-set counted g.phases i inside admitted, sum-set held g.phases i inside admitted)
advance-IsValid g i (some inside) h v =
    ground
      (arith, sum-set counted g.phases i leaving inside, sum-set held g.phases i leaving inside)
advance-IsValid g i (some leaving) h v =
    ground (arith, sum-set counted g.phases i gone leaving, sum-set held g.phases i gone leaving)
advance-IsValid g i _ h v = v

event-IsValid : (g : Gate) (e : Event) → IsValid g → IsValid (event g e)
unfolding event
event-IsValid g (advances i) v = advance-IsValid g i (get_elem? g.phases i) refl v
event-IsValid g closes v = ground arith
event-IsValid g waited v = ground arith

-- The counters stay true to the calls under any interleaving.
pub gate_events-IsValid : (g : Gate) (es : List Event) → IsValid g → IsValid (events g es)
unfolding events
gate_events-IsValid g [] v = v
gate_events-IsValid g (e ∷ es) v = gate_events-IsValid (event g e) es (event-IsValid g e v)

sum-outsiders : (w : Phase → ℕ) (n : ℕ) → w outside ≡ 0 → sum w (outsiders n) ≡ 0
unfolding outsiders
sum-outsiders w zero h = refl
sum-outsiders w (suc n) h = omega (arith, sum-outsiders w n h)

pub open_gate-IsValid : (n : ℕ) → IsValid (open_gate n)
unfolding open_gate
open_gate-IsValid n = record {
  waited_for = sym (sum-outsiders counted n refl);
  slotted = sym (sum-outsiders held n refl);
  bounded = omega arith;
  drained = λ h. absurd (ground arith);
}

counted_le :
    (ps : List Phase) (i : ℕ) (p : Phase) → get_elem? ps i ≡ some p → counted p ≤ sum counted ps
counted_le [] i p h = absurd (ground arith)
counted_le (x ∷ ps) zero p h =
    let same : counted x ≡ counted p = ground (arith, h) in omega (arith, same)
counted_le (x ∷ ps) (suc i) p h = omega (arith, counted_le ps i p h)

event-unloadable : (g : Gate) (e : Event) → g.unloadable ≡ true → (event g e).unloadable ≡ true
unfolding event advance
event-unloadable g (advances i) h = ground arith
event-unloadable g closes h = h
event-unloadable g waited h = ground arith

events-unloadable :
    (g : Gate) (es : List Event) → g.unloadable ≡ true → (events g es).unloadable ≡ true
unfolding events
events-unloadable g [] h = h
events-unloadable g (e ∷ es) h = events-unloadable (event g e) es (event-unloadable g e h)

-- Once the shutdown has returned, no host call is admitted, inside or on its way out, and none will
-- be, whatever happens after: the host may unload the plugin.
pub unloadable_drained :
    (n : ℕ) (es later : List Event) (i : ℕ) (p : Phase)
    → (events (open_gate n) es).unloadable ≡ true
    → get_elem? (events (events (open_gate n) es) later).phases i ≡ some p
    → counted p ≡ 0
unloadable_drained n es later i p u h =
    let g = events (open_gate n) es in
    let v =
      gate_events-IsValid g later (gate_events-IsValid (open_gate n) es (open_gate-IsValid n)) in
    let d = v.drained (events-unloadable g later u) in
    omega (arith, counted_le (events g later).phases i p h, v.waited_for, d.1)

capacity-event : (g : Gate) (e : Event) → (event g e).capacity ≡ g.capacity
unfolding event advance
capacity-event g (advances i) = ground arith
capacity-event g closes = refl
capacity-event g waited = ground arith

capacity-events : (g : Gate) (es : List Event) → (events g es).capacity ≡ g.capacity
unfolding events
capacity-events g [] = refl
capacity-events g (e ∷ es) = capacity-events (event g e) es ∙ capacity-event g e

-- Under any interleaving at most sixteen calls are inside the host.
pub inside_bounded : (n : ℕ) (es : List Event) → sum held (events (open_gate n) es).phases ≤ 16
unfolding open_gate
inside_bounded n es =
    let v = gate_events-IsValid (open_gate n) es (open_gate-IsValid n) in
    omega (arith, v.slotted, v.bounded, capacity-events (open_gate n) es)
