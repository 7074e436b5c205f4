-- ===== src/Ban/Save/Written.antt =====
-- A save that returns without an error has its snapshot, or a newer one, in the file.
use grok_inspection.Base.{ℕ, ◌≤◌, String, Bool, true, false, ◌≡◌, List, Option, none, some, ◌==◌}
use grok_inspection.Ban.Detector.{BanEntry}
use grok_inspection.Ban.Save.{Phase, idle, waits, writes, spins, returned, failed, File, Saver}

-- What the phase of a call says of the counters, the flag and the pending snapshot.
abbrev pub Fits : ℕ → ℕ → Bool → Option (List BanEntry) → Phase → Type 0
Fits gen written writing pending idle = Unit
Fits gen written writing pending (waits g) = g ≤ gen
Fits gen written writing pending (writes g current n path) =
    (writing ≡ true) × (g ≤ n) × (n ≤ gen) × (written ≤ n)
Fits gen written writing pending (spins g) = Unit
Fits gen written writing pending (returned g) = g ≤ written
Fits gen written writing pending (failed g) = Unit

abbrev pub is_writer : Phase → Bool
is_writer (writes g current n path) = true
is_writer _ = false

abbrev pub generation_of : Option File → ℕ
generation_of none = 0
generation_of (some f) = f.generation

pub record IsValid (s : Saver) : Type 0 where
  pub ahead : s.written ≤ s.gen
  pub stored : generation_of s.disk ≡ s.written
  pub fits : (t : ℕ) → Fits s.gen s.written s.writing s.pending (s.phase t)
  pub sole : (t u : ℕ) → is_writer (s.phase t) ≡ true → is_writer (s.phase u) ≡ true → t ≡ u

-- One call runs, and the others are in order.
record InLoop (s : Saver) (t g : ℕ) : Type 0 where
  ahead : s.written ≤ s.gen
  stored : generation_of s.disk ≡ s.written
  fits : (u : ℕ) → (u == t) ≡ false → Fits s.gen s.written s.writing s.pending (s.phase u)
  sole :
      (u v : ℕ)
      → (u == t) ≡ false
      → (v == t) ≡ false
      → is_writer (s.phase u) ≡ true
      → is_writer (s.phase v) ≡ true
      → u ≡ v
  issued : g ≤ s.gen

-- No other call writes.
abbrev Alone : Saver → ℕ → Type 0
Alone s t = (u : ℕ) → (u == t) ≡ false → is_writer (s.phase u) ≡ false

module _ (s : Saver) (t g n : ℕ) (current : List BanEntry) (path : String) where
  abbrev stored_file : Option File
  stored_file = some (record { path = path; generation = n; entries = current })
