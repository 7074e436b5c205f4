-- ===== src/Ban/Store/Cas.antt =====
-- The conditional delete, against a ban that lands between the read of a row and its delete.
use grok_inspection.Base.{
  ℕ, ◌+◌, ◌^◌, ◌≤◌, ◌<◌, ◌==◌, String, true, false, ◌≡◌, ◌≢◌, refl, inl, inr, Option, none, some,
  arith, if◌then◌else◌, Bool-cases,
}
use grok_inspection.Text.{is_empty, str_eq, trim_space}
use grok_inspection.Text.Laws.{str_eq_refl}
use grok_inspection.Dict.{lookup-remove}
use grok_inspection.Ban.Detector.{BanEntry}
use grok_inspection.Ban.Store.{
  Store, CasResult, next_rev, merge, set, get, delete_if_or_current, cas_row,
}
use grok_inspection.Ban.Store.Merge.{get-set}

-- The three outcomes of a conditional delete: nothing there; the row had the expected revision, and
-- it alone is gone; the row has another revision, and it is handed back with the store unchanged.
pub data CasOutcome (s : Store) (id : String) (expected : ℕ) (r : CasResult) : Type 0 where
  missing :
      get s id ≡ none
      → r.deleted ≡ false
      → r.current ≡ none
      → r.store ≡ s
      → CasOutcome s id expected r
  removed :
      (row : BanEntry)
      → get s id ≡ some row
      → row.revision ≡ expected
      → r.deleted ≡ true
      → r.current ≡ none
      → r.store.rev ≡ s.rev
      → ((j : String) → get r.store j ≡ (if str_eq id j then none else get s j))
      → CasOutcome s id expected r
  retained :
      (row : BanEntry)
      → get s id ≡ some row
      → row.revision ≢ expected
      → r.deleted ≡ false
      → r.current ≡ some row
      → r.store ≡ s
      → CasOutcome s id expected r

cas_row-CasOutcome :
    (s : Store) (id : String) (expected : ℕ) (o : Option BanEntry)
    → get s id ≡ o
    → CasOutcome s id expected (cas_row s id expected o)
unfolding cas_row
cas_row-CasOutcome s id expected none e = missing e refl refl refl
cas_row-CasOutcome s id expected (some row) e = elim (Bool-cases (row.revision == expected)) [
  | inl same ↦
      rw same (removed row e (ground arith) refl refl refl (λ j. lookup-remove id j s.bans))
  | inr other ↦ rw other (retained row e (ground arith) refl refl refl)
]

-- For an account id that is not blank, a conditional delete finds no row and changes nothing; or
-- finds the expected revision and takes away that row alone; or finds another revision, changes
-- nothing, and hands the row back.
pub delete_if_or_current-CasOutcome :
    (s : Store) (auth_id : String) (expected : ℕ)
    → is_empty (trim_space auth_id) ≡ false
    → CasOutcome s (trim_space auth_id) expected (delete_if_or_current s auth_id expected)
unfolding delete_if_or_current
delete_if_or_current-CasOutcome s auth_id expected h =
    rw h (cas_row-CasOutcome s (trim_space auth_id) expected _ refl)

cas_retains :
    (s : Store) (id : String) (expected : ℕ) (row : BanEntry)
    → is_empty id ≡ false
    → trim_space id ≡ id
    → get s id ≡ some row
    → row.revision ≢ expected
    → delete_if_or_current s id expected ≡ record { store = s; deleted = false; current = some row }
unfolding delete_if_or_current cas_row
cas_retains s id expected row h t e n = rw (t, h, e) (ground arith)

-- A ban that lands after a row was read survives the delete that the reader then tries under the
-- revision it read: the write gave the row a later revision, and the reader is handed that row.
-- The id is trimmed and not blank, the old revision was given out, and the counter does not wrap
-- around.
pub delete_if-set :
    (s : Store) (new old : BanEntry)
    → is_empty new.auth_id ≡ false
    → trim_space new.auth_id ≡ new.auth_id
    → get s new.auth_id ≡ some old
    → old.revision ≤ s.rev
    → s.rev + 1 < 2 ^ 64
    → (row : BanEntry) × (delete_if_or_current (set s new) new.auth_id old.revision
        ≡ record { store = set s new; deleted = false; current = some row })
      × (get (set s new) new.auth_id ≡ some row)
      × (old.revision < row.revision)
delete_if-set s new old h t o r w =
    let row : BanEntry = record (merge (some old) new) { revision = next_rev s.rev } in
    let stored : get (set s new) new.auth_id ≡ some row =
      ground (arith, get-set s new new.auth_id h, str_eq_refl new.auth_id) in
    let later : old.revision < row.revision = omega arith in
    (
      row,
      cas_retains (set s new) new.auth_id old.revision row h t stored (λ e. omega arith),
      stored,
      later,
    )
