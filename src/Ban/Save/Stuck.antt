-- ===== src/Ban/Save/Stuck.antt =====
-- A save that goes round its loop without end.
use grok_inspection.Base.{
  ℕ, ◌<◌, ◌≤◌, String, true, false, ◌≡◌, refl, sym, ap, ◌∙◌, subst, List, [], ◌∷◌, none, leb, ◌==◌,
  if_cases, arith,
}
use grok_inspection.Ban.Save.{
  waits, writes, spins, Saver, restore, copied, claim, loop, stop_writing, write_failed,
  end_write_from, end_write, wake_from, wake, Event, begins, wakes, ends, event, events,
}

event-held : (s : Saver) (e : Event) → s.held ≡ true → event s e ≡ s
unfolding event
event-held s (begins t entries path) h = ground arith
event-held s (wakes t) h = ground arith
event-held s (ends t ok) h = ground arith

-- Where a call holds on to saveMu, nothing happens any more.
events-held : (s : Saver) (es : List Event) → s.held ≡ true → events s es ≡ s
unfolding events
events-held s [] h = refl
events-held s (e ∷ es) h =
    let same = event-held s e h in ap (λ x. events x es) same ∙ events-held s es h

-- What the end of a write leaves the others: nothing is written, nothing is pending, and nobody writes.
abbrev Left : Saver → ℕ → ℕ → ℕ → Type 0
Left s u k written =
    (s.held ≡ false)
    × (s.writing ≡ false)
    × (s.pending ≡ none)
    × (s.written ≡ written)
    × (s.phase u ≡ waits k)

claim-Left :
    (s : Saver) (t g u k : ℕ)
    → (s.held ≡ false)
    → g ≤ s.written
    → (u == t) ≡ false
    → s.writing ≡ false
    → s.pending ≡ none
    → s.phase u ≡ waits k
    → Left (loop s t g) u k s.written
unfolding loop
claim-Left s t g u k h l n w p e = rw (leb_true g s.written l) (h, w, p, refl, ground arith)
  where
    leb_true : (a b : ℕ) → a ≤ b → leb a b ≡ true
    leb_true a b h = ground arith

failed-Left :
    (s : Saver) (t g u k : ℕ) (path : String)
    → s.held ≡ false
    → s.pending ≡ none
    → (u == t) ≡ false
    → s.phase u ≡ waits k
    → Left (write_failed s t g [] path) u k s.written
unfolding write_failed restore copied stop_writing
failed-Left s t g u k path h p n e = rw p (
    if_cases (λ x. Left x u k s.written) (leb g s.written) _ _
      (λ l.
        claim-Left (record s { pending = none; path = path; writing = false }) t g u k h
          (ground arith) n refl refl e)
      λ _. (h, refl, refl, refl, ground arith))

spins_from :
    (s : Saver) (u k written : ℕ)
    → Left s u k written
    → written < k
    → ((event s (wakes u)).phase u ≡ spins k) × ((event s (wakes u)).held ≡ true)
unfolding event wake wake_from loop claim
spins_from s u k written (h, w, p, x, e) late =
    rw (h, e, leb_false k s.written (omega (arith, x, late)), w, p, same u) (refl, refl)
  where
    leb_false : (a b : ℕ) → b < a → leb a b ≡ false
    leb_false a b h = ground arith

    same : (n : ℕ) → (n == n) ≡ true
    same n = ground arith

ended_is :
    (s : Saver) (t g n : ℕ) (path : String)
    → s.held ≡ false
    → s.phase t ≡ writes g [] n path
    → event s (ends t false) ≡ write_failed s t g [] path
unfolding event end_write end_write_from
ended_is s t g n path h w = rw (h, w) refl

-- While a call t writes an empty snapshot, no newer one is pending, and another call u waits for a
-- generation that is not yet on the disk, the write fails, and u is woken next. Then u goes round its
-- loop for ever, and no event changes anything any more: u holds the lock that every save needs.
pub failed_empty_write :
    (s : Saver) (t u g k n : ℕ) (path : String) (es : List Event)
    → s.held ≡ false
    → s.phase t ≡ writes g [] n path
    → s.pending ≡ none
    → (u == t) ≡ false
    → s.phase u ≡ waits k
    → s.written < k
    → ((events s (ends t false ∷ wakes u ∷ es)).phase u ≡ spins k)
      × (events s (ends t false ∷ wakes u ∷ es) ≡ events s (ends t false ∷ wakes u ∷ []))
failed_empty_write s t u g k n path es h w p d e late =
    let ended : event s (ends t false) ≡ write_failed s t g [] path = ended_is s t g n path h w in
    let l = subst (λ x. Left x u k s.written) (sym ended) (failed-Left s t g u k path h p d e) in
    let (a, b) = spins_from (event s (ends t false)) u k s.written l late in
    let same = events-held (event (event s (ends t false)) (wakes u)) es b in
    unfold events in (ap (λ (x : Saver). x.phase u) same ∙ a, same)
