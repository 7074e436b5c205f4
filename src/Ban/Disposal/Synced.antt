-- ===== src/Ban/Disposal/Synced.antt =====
-- What a disposal leaves in the row of its account.
use grok_inspection.Base.{
  ℕ, String, Bool, true, false, ◌≡◌, ◌≢◌, refl, sym, subst, if_cases, ◌⊎◌, inl, inr, Option, none,
  some, arith, Bool-cases,
}
use grok_inspection.Text.{is_empty, trim_space}
use grok_inspection.Text.Laws.{str_eq_refl}
use grok_inspection.Text.Trim.{trim_space_idem}
use grok_inspection.Dict.{lookup-insert}
use grok_inspection.Ban.Detector.{BanEntry}
use grok_inspection.Ban.Store.{Store, get, update_cpa_sync_state, synced_entry}
use grok_inspection.Ban.Scheduler.{DisableOutcome, disabled, missing, failed}
use grok_inspection.Ban.Disposal.{
  Applied, is_stale, applied, after_call, dispose_row, apply_ban_dispose_with_store,
}

-- Whether the call of CPA disabled the account.
abbrev pub is_disabled : DisableOutcome → Bool
is_disabled disabled = true
is_disabled (missing text) = false
is_disabled (failed text) = false

-- The row that the pool holds after a disposal, by the row that was there when the call returned. A
-- row that was written under another revision meanwhile and is applied already stays as it is; any
-- other row says what the call did; and a row that is gone is not put back.
abbrev pub Agrees : ℕ → DisableOutcome → Option BanEntry → Option BanEntry → Type 0
Agrees expected outcome none row = row ≡ none
Agrees expected outcome (some current) row =
    ((expected ≢ 0)
      × (current.revision ≢ expected)
      × (current.cpa_synced ≡ true)
      × (row ≡ some current))
    ⊎ (((expected ≡ 0) ⊎ (current.revision ≡ expected) ⊎ (current.cpa_synced ≡ false))
        × ((r : BanEntry) × (row ≡ some r) × (r.cpa_synced ≡ is_disabled outcome)))

get-synced :
    (s : Store) (id : String) (current : BanEntry) (b : Bool) (text : String)
    → is_empty id ≡ false
    → trim_space id ≡ id
    → get s id ≡ some current
    → get (update_cpa_sync_state s id b text) id ≡ some (synced_entry current b text)
unfolding update_cpa_sync_state
get-synced s id current b text n t g =
    ground (arith, lookup-insert id id (synced_entry current b text) s.bans, str_eq_refl id)

synced_as : (e : BanEntry) (b : Bool) (text : String) → (synced_entry e b text).cpa_synced ≡ b
unfolding synced_entry
synced_as e b text = ground arith

get-applied :
    (s : Store) (id : String) (expected : ℕ) (current : BanEntry) (o : DisableOutcome)
    → is_empty id ≡ false
    → trim_space id ≡ id
    → get s id ≡ some current
    → is_stale current expected ≡ false
    → (r : BanEntry) × (get (applied s id expected current o) id ≡ some r)
      × (r.cpa_synced ≡ is_disabled o)
unfolding applied is_stale
get-applied s id expected current disabled n t g f =
    let stored = get-synced s id current true "" n t g in
    (synced_entry current true "", ground arith, synced_as current true "")
get-applied s id expected current (missing text) n t g f = (
  synced_entry current false text,
  get-synced s id current false text n t g,
  synced_as current false text,
)
get-applied s id expected current (failed text) n t g f = (
  synced_entry current false text,
  get-synced s id current false text n t g,
  synced_as current false text,
)

stale_cases :
    (current : BanEntry) (expected : ℕ)
    → is_stale current expected ≡ true
    → (expected ≢ 0) × (current.revision ≢ expected) × (current.cpa_synced ≡ true)
unfolding is_stale
stale_cases current expected h = (λ e. ground arith, λ e. ground arith, ground arith)

fresh_cases :
    (current : BanEntry) (expected : ℕ)
    → is_stale current expected ≡ false
    → (expected ≡ 0) ⊎ (current.revision ≡ expected) ⊎ (current.cpa_synced ≡ false)
unfolding is_stale
fresh_cases current expected h = ground arith

module _ {W : Type 0} where
  after_call-Agrees :
      (w : W) (s : Store) (id : String) (expected : ℕ) (o : DisableOutcome)
      (found : Option BanEntry)
      → is_empty id ≡ false
      → trim_space id ≡ id
      → get s id ≡ found
      → Agrees expected o found (get (after_call w s id expected o found).store id)
  unfolding after_call
  after_call-Agrees w s id expected o none n t g = g
  after_call-Agrees w s id expected o (some current) n t g =
      elim (Bool-cases (is_stale current expected)) [
        | inl a ↦ let (x, y, z) = stale_cases current expected a in inl (x, y, z, ground arith)
        | inr a ↦
            let (r, e, b) = get-applied s id expected current o n t g a in
            inr (fresh_cases current expected a, (r, ground arith, b))
      ]

module _ {W : Type 0} (disable_auth_in_cpa : W → Store → String → W × Store × DisableOutcome) where
  dispose_row-Agrees :
      (w : W) (s : Store) (id : String) (expected : ℕ) (entry : BanEntry)
      → is_empty id ≡ false
      → trim_space id ≡ id
      → is_stale entry expected ≡ false
      → Agrees expected
          (disable_auth_in_cpa w s id).2
          (get (disable_auth_in_cpa w s id).1 id)
          (get (dispose_row disable_auth_in_cpa w s id expected (some entry)).store id)
  unfolding dispose_row
  dispose_row-Agrees w s id expected entry n t f =
      let (w', s', o) = disable_auth_in_cpa w s id in
      let l = after_call-Agrees w' s' id expected o (get s' id) n t refl in
      if_cases (λ (a : Applied W). Agrees expected o (get s' id) (get a.store id))
        (is_stale entry expected) _ _ (λ e. absurd (cc)) (λ _. l)

  -- A disposal that finds its ban, not superseded by one that is applied already, calls CPA. The row
  -- that the pool holds when the call returns is then marked synced exactly if the call disabled the
  -- account, unless that row is of another revision and applied already: such a row is left as it is.
  -- An account that has no row then gets none.
  pub apply_ban_dispose_with_store-Agrees :
      (w : W) (s : Store) (auth_id : String) (expected : ℕ) {entry : BanEntry}
      → is_empty (trim_space auth_id) ≡ false
      → get s (trim_space auth_id) ≡ some entry
      → is_stale entry expected ≡ false
      → Agrees expected
          (disable_auth_in_cpa w s (trim_space auth_id)).2
          (get (disable_auth_in_cpa w s (trim_space auth_id)).1 (trim_space auth_id))
          (get
            (apply_ban_dispose_with_store disable_auth_in_cpa w s auth_id expected).store
            (trim_space auth_id))
  unfolding apply_ban_dispose_with_store
  apply_ban_dispose_with_store-Agrees w s auth_id expected {entry = entry} n g f =
      let id = trim_space auth_id in
      let l = dispose_row-Agrees w s id expected entry n (trim_space_idem auth_id) f in
      if_cases
        (λ (a : Applied W).
          Agrees expected (disable_auth_in_cpa w s id).2 (get (disable_auth_in_cpa w s id).1 id)
            (get a.store id))
        (is_empty id) _ _ (λ e. absurd (cc))
        (λ _.
          subst
            (λ (o : Option BanEntry).
              Agrees expected (disable_auth_in_cpa w s id).2 (get (disable_auth_in_cpa w s id).1 id)
                (get (dispose_row disable_auth_in_cpa w s id expected o).store id))
            (sym g) l)
