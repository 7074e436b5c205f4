-- ===== src/Ban/Save.antt =====
-- ban_store.go, Save: concurrent saves of the pool. The calls take turns: a step is what one call does
-- between two moments where it lets go of saveMu, which it does while it waits for another writer and
-- while it writes the file. A call is numbered; `disk` is the last file written, with the generation of
-- what it holds. The generations are uint64.
pub mod Generation
pub mod Stuck
pub mod Written
use grok_inspection.Base.{
  ℕ, ◌+◌, ◌%◌, ◌^◌, [], ◌∷◌, String, Bool, true, false, not, ◌&&◌, List, Option, none, some, leb,
  ◌==◌, if◌then◌else◌,
}
use grok_inspection.Text.{is_empty}
use grok_inspection.Ban.Detector.{BanEntry}

-- Where a call stands.
pub data Phase : Type 0 where
  idle : Phase
  -- in saveCond.Wait, for generation g
  waits : ℕ → Phase
  -- writes a snapshot of a generation to a path, on behalf of generation g
  writes : ℕ → List BanEntry → ℕ → String → Phase
  -- goes round the loop with nothing to write, and does not let go of saveMu
  spins : ℕ → Phase
  returned : ℕ → Phase
  failed : ℕ → Phase

pub record File : Type 0 where
  pub path : String
  pub generation : ℕ
  pub entries : List BanEntry

pub record Saver : Type 0 where
  pub gen : ℕ
  pub written : ℕ
  pub writing : Bool
  pub pending : Option (List BanEntry)
  pub path : String
  pub disk : Option File
  pub phase : ℕ → Phase
  pub held : Bool

unfoldable pub start : Saver
start = record {
  gen = 0;
  written = 0;
  writing = false;
  pending = none;
  path = "";
  disk = none;
  phase = λ t. idle;
  held = false;
}

abbrev pub update : (ℕ → Phase) → ℕ → Phase → ℕ → Phase
update phase t p u = if u == t then p else phase u

-- The pending snapshot is the latest; the writer takes it with its generation.
take : Saver → ℕ → ℕ → List BanEntry → Saver
take s t g current = record s {
  writing = true;
  pending = none;
  phase = update s.phase t (writes g current s.gen s.path);
}

-- The loop `for s.savePending != nil` is entered, or passed over.
claim : Saver → ℕ → ℕ → Option (List BanEntry) → Saver
unfolding take
claim s t g none = record s { phase = update s.phase t (spins g); held = true }
claim s t g (some current) = take s t g current

-- From the head of the loop `for s.saveWritten < myGen`.
loop : Saver → ℕ → ℕ → Saver
unfolding claim
loop s t g =
    if leb g s.written
    then record s { phase = update s.phase t (returned g) }
    else if s.writing
    then record s { phase = update s.phase t (waits g) }
    else claim s t g s.pending

-- The begin of a call, with the snapshot that it takes under saveMu.
unfoldable pub begin : Saver → ℕ → List BanEntry → String → Saver
unfolding loop
begin s t entries path =
    let g = (s.gen + 1) % 2 ^ 64 in
    if is_empty path
    then record s { phase = update s.phase t (returned 0) }
    else loop (record s { gen = g; pending = some entries; path = path }) t g

wake_from : Saver → ℕ → Phase → Saver
unfolding loop
wake_from s t (waits g) = loop s t g
wake_from s t _ = s

-- A call that waits is woken, by a broadcast or for no reason.
unfoldable pub wake : Saver → ℕ → Saver
unfolding wake_from
wake s t = wake_from s t (s.phase t)

stop_writing : Saver → ℕ → ℕ → Saver
unfolding loop
stop_writing s t g = loop (record s { writing = false }) t g

-- The writer goes on with the snapshot that came meanwhile, or ends its turn.
next_write : Saver → ℕ → ℕ → Option (List BanEntry) → Saver
unfolding take stop_writing
next_write s t g none = stop_writing s t g
next_write s t g (some current) = take s t g current

write_ok : Saver → ℕ → ℕ → List BanEntry → ℕ → String → Saver
unfolding next_write
write_ok s t g current generation path =
    next_write
      (record s {
        written = generation;
        disk = some (record { path = path; generation = generation; entries = current });
      })
      t g s.pending

-- A snapshot as append([]banEntry(nil), ...) copies it: nil where it is empty.
copied : List BanEntry → Option (List BanEntry)
copied [] = none
copied (e ∷ es) = some (e ∷ es)

-- A failed snapshot is pending again, unless a newer one is.
restore : Option (List BanEntry) → Saver → List BanEntry → String → Saver
unfolding copied
restore none s current path = record s { pending = copied current; path = path }
restore (some next) s current path = s

write_failed : Saver → ℕ → ℕ → List BanEntry → String → Saver
unfolding restore stop_writing
write_failed s t g current path =
    let s' = restore s.pending s current path in
    if leb g s'.written
    then stop_writing s' t g
    else record s' { writing = false; phase = update s'.phase t (failed g) }

end_write_from : Saver → ℕ → Bool → Phase → Saver
unfolding write_ok write_failed
end_write_from s t ok (writes g current generation path) =
    if ok then write_ok s t g current generation path else write_failed s t g current path
end_write_from s t ok _ = s

-- The write of the file ends, well or not.
unfoldable pub end_write : Saver → ℕ → Bool → Saver
unfolding end_write_from
end_write s t ok = end_write_from s t ok (s.phase t)

pub data Event : Type 0 where
  begins : ℕ → List BanEntry → String → Event
  wakes : ℕ → Event
  ends : ℕ → Bool → Event

-- A call begins once: its number is not in use.
is_idle : Phase → Bool
is_idle idle = true
is_idle _ = false

-- Where a call never lets go of saveMu, the others wait for it.
unfoldable pub event : Saver → Event → Saver
unfolding is_idle begin wake end_write
event s (begins t entries path) =
    if not s.held && is_idle (s.phase t) then begin s t entries path else s
event s (wakes t) = if s.held then s else wake s t
event s (ends t ok) = if s.held then s else end_write s t ok

unfoldable pub events : Saver → List Event → Saver
events s [] = s
events s (e ∷ es) = events (event s e) es
