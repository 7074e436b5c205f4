-- ===== src/Ban/Save/Generation.antt =====
-- A save's event counts the generations up by one at most.
use grok_inspection.Base.{
  ℕ, ◌+◌, ◌%◌, ◌^◌, ◌≤◌, String, Bool, true, false, ◌≡◌, refl, List, Option, none, some, arith,
}
use grok_inspection.Ban.Detector.{BanEntry}
use grok_inspection.Ban.Save.{
  Phase, waits, writes, Saver, take, claim, loop, begin, wake, wake_from, next_write,
  end_write_from, stop_writing, write_ok, restore, write_failed, end_write, Event, begins, wakes,
  ends, event,
}

mod_le : (n : ℕ) → n % 2 ^ 64 ≤ n
mod_le n = omega arith

take-gen : (s : Saver) (t g : ℕ) (c : List BanEntry) → (take s t g c).gen ≡ s.gen
unfolding take
take-gen s t g c = refl

claim-gen : (s : Saver) (t g : ℕ) (d : Option (List BanEntry)) → (claim s t g d).gen ≡ s.gen
unfolding claim
claim-gen s t g none = refl
claim-gen s t g (some c) = take-gen s t g c

loop-gen : (s : Saver) (t g : ℕ) → (loop s t g).gen ≡ s.gen
unfolding loop
loop-gen s t g = ground (arith, claim-gen s t g s.pending)

wake_from-gen : (s : Saver) (t : ℕ) (p : Phase) → (wake_from s t p).gen ≡ s.gen
unfolding wake_from
wake_from-gen s t (waits g) = loop-gen s t g
wake_from-gen s t _ = refl

next_write-gen :
    (s : Saver) (t g : ℕ) (d : Option (List BanEntry)) → (next_write s t g d).gen ≡ s.gen
unfolding next_write stop_writing
next_write-gen s t g none = loop-gen (record s { writing = false }) t g
next_write-gen s t g (some c) = take-gen s t g c

restore-gen :
    (d : Option (List BanEntry)) (s : Saver) (c : List BanEntry) (path : String)
    → (restore d s c path).gen ≡ s.gen
unfolding restore
restore-gen none s c path = refl
restore-gen (some n) s c path = refl

write_failed-gen :
    (s : Saver) (t g : ℕ) (c : List BanEntry) (path : String)
    → (write_failed s t g c path).gen ≡ s.gen
unfolding write_failed stop_writing
write_failed-gen s t g c path =
    let r = restore s.pending s c path in
    ground (arith, restore-gen s.pending s c path, loop-gen (record r { writing = false }) t g)

end_write_from-gen :
    (s : Saver) (t : ℕ) (ok : Bool) (p : Phase) → (end_write_from s t ok p).gen ≡ s.gen
unfolding end_write_from write_ok
end_write_from-gen s t true (writes g c n path) =
    next_write-gen
      (record s { written = n; disk = some (record { path = path; generation = n; entries = c }) })
      t g s.pending
end_write_from-gen s t false (writes g c n path) = write_failed-gen s t g c path
end_write_from-gen s t ok _ = refl

begin-gen :
    (s : Saver) (t : ℕ) (entries : List BanEntry) (path : String)
    → (begin s t entries path).gen ≤ s.gen + 1
unfolding begin
begin-gen s t entries path =
    let g = (s.gen + 1) % 2 ^ 64 in
    let begun = record s { gen = g; pending = some entries; path = path } in
    ground (arith, loop-gen begun t g, mod_le (s.gen + 1))

pub event-gen : (s : Saver) (e : Event) → (event s e).gen ≤ s.gen + 1
unfolding event wake end_write
event-gen s (begins t entries path) = ground (arith, begin-gen s t entries path)
event-gen s (wakes t) = ground (arith, wake_from-gen s t (s.phase t))
event-gen s (ends t ok) = ground (arith, end_write_from-gen s t ok (s.phase t))
