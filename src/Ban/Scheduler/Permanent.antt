-- ===== src/Ban/Scheduler/Permanent.antt =====
-- The restore loop leaves the bans that an operator has to lift.
use grok_inspection.Base.{
  ℕ, String, Bool, true, false, not, ◌≡◌, refl, sym, subst, ap, ◌∙◌, ◌⊎◌, List, [], ◌∷◌, Option,
  none, some, Bool-cases, Option-cases, inl, inr, if_cases, arith, ◌==◌, if◌then◌else◌,
}
use grok_inspection.Text.{str_eq, is_empty, trim_space}
use grok_inspection.Text.Laws.{str_eq_iff}
use grok_inspection.Time.{after}
use grok_inspection.Dict.{lookup, remove, lookup-insert, lookup-remove}
use grok_inspection.Ban.Detector.{BanEntry}
use grok_inspection.Ban.Store.{
  Store, CasResult, get, unsynced_cpa, expired, delete_if_or_current, update_cpa_sync_state,
  synced_entry,
}
use grok_inspection.Ban.Scheduler.{
  Run, DisableOutcome, disabled, missing, failed, EnableOutcome, enabled, absent, enable_failed,
  retried, redisabled, retry_one, retry, kept_newer, lifted, enabled_with, restore_row,
  restore_each, restore_expired_bans,
}

abbrev pub is_missing : DisableOutcome → Bool
is_missing (missing text) = true
is_missing disabled = false
is_missing (failed text) = false

-- The account has a ban for an operator to lift, and no account's id has spaces around it.
pub record Holds (id : String) (s : Store) : Type 0 where
  pub manual : (row : BanEntry) × (get s id ≡ some row) × (row.reset_source ≡ "manual_unban")
  pub trimmed : (k : String) (e : BanEntry) → get s k ≡ some e → trim_space k ≡ k

source_kept :
    (row : BanEntry) (b : Bool) (text : String)
    → (synced_entry row b text).reset_source ≡ row.reset_source
unfolding synced_entry
source_kept row b text = ground arith

update_blank :
    (s : Store) (a : String) (b : Bool) (text : String)
    → is_empty (trim_space a) ≡ true
    → update_cpa_sync_state s a b text ≡ s
unfolding update_cpa_sync_state
update_blank s a b text n = ground arith

update_none :
    (s : Store) (a : String) (b : Bool) (text : String)
    → lookup (trim_space a) s.bans ≡ none
    → update_cpa_sync_state s a b text ≡ s
unfolding update_cpa_sync_state
update_none s a b text n = ground arith

get-update_hit :
    (s : Store) (a k : String) (b : Bool) (text : String) (row : BanEntry)
    → is_empty (trim_space a) ≡ false
    → lookup (trim_space a) s.bans ≡ some row
    → get (update_cpa_sync_state s a b text) k
      ≡ (if str_eq (trim_space a) k then some (synced_entry row b text) else get s k)
unfolding update_cpa_sync_state
get-update_hit s a k b text row n g =
    ground (arith, lookup-insert (trim_space a) k (synced_entry row b text) s.bans)

-- A change of the sync state leaves the accounts and the sources of their windows.
data SameSource : Option BanEntry → Option BanEntry → Type 0 where
  neither : SameSource none none
  both :
      (new old : BanEntry) → new.reset_source ≡ old.reset_source → SameSource (some new) (some old)

same-SameSource : (o : Option BanEntry) → SameSource o o
same-SameSource none = neither
same-SameSource (some e) = both e e refl

updated-SameSource :
    (s : Store) (a k : String) (b : Bool) (text : String)
    → SameSource (get (update_cpa_sync_state s a b text) k) (get s k)
updated-SameSource s a k b text = elim (Bool-cases (is_empty (trim_space a))) [
  | inl n ↦
      subst (λ x. SameSource (get x k) (get s k)) (sym (update_blank s a b text n))
        (same-SameSource (get s k))
  | inr n ↦ elim (Option-cases (lookup (trim_space a) s.bans)) [
    | inl g ↦
        subst (λ x. SameSource (get x k) (get s k)) (sym (update_none s a b text g))
          (same-SameSource (get s k))
    | inr (row, g) ↦
        subst (λ x. SameSource x (get s k)) (sym (get-update_hit s a k b text row n g))
          (if_cases (λ x. SameSource x (get s k)) (str_eq (trim_space a) k)
            (some (synced_entry row b text)) (get s k)
            (λ e.
              subst (λ x. SameSource (some (synced_entry row b text)) x)
                (ground (arith, str_eq_iff (trim_space a) k))
                (both (synced_entry row b text) row (source_kept row b text)))
            (λ _. same-SameSource (get s k)))
  ]
]

manual_same :
    (x y : Option BanEntry) (old : BanEntry)
    → SameSource x y
    → y ≡ some old
    → (row : BanEntry) × (x ≡ some row) × (row.reset_source ≡ old.reset_source)
manual_same none none old neither h = absurd (cc)
manual_same none (some y) old m h = elim m [ ]
manual_same (some new) none old m h = elim m [ ]
manual_same (some new) (some y) old (both _ _ e) h = (new, refl, e ∙ ground arith)

some_same :
    (x y : Option BanEntry) (e : BanEntry)
    → SameSource x y
    → x ≡ some e
    → (old : BanEntry) × (y ≡ some old)
some_same none none e neither h = absurd (cc)
some_same none (some y) e m h = elim m [ ]
some_same (some new) none e m h = elim m [ ]
some_same (some new) (some y) e (both _ _ same) h = (y, refl)

update-Holds :
    (id : String) (s : Store) (a : String) (b : Bool) (text : String)
    → Holds id s
    → Holds id (update_cpa_sync_state s a b text)
update-Holds id s a b text v =
    let (old, g, m) = v.manual in
    let (row, h, same) = manual_same _ (get s id) old (updated-SameSource s a id b text) g in
    record {
      manual = (row, h, same ∙ m);
      trimmed = λ k e h'.
          let (old', g') = some_same _ (get s k) e (updated-SameSource s a k b text) h' in
          v.trimmed k old' g';
    }

delete_cases :
    (s : Store) (a : String) (n : ℕ)
    → ((delete_if_or_current s a n).store ≡ s)
      ⊎ ((delete_if_or_current s a n).store ≡ record s { bans = remove (trim_space a) s.bans })
unfolding delete_if_or_current
delete_cases s a n = elim (Bool-cases (is_empty (trim_space a))) [
  | inl e ↦ inl (ground arith)
  | inr e ↦ elim (Option-cases (lookup (trim_space a) s.bans)) [
    | inl g ↦ inl (ground arith)
    | inr (row, g) ↦ elim (Bool-cases (row.revision == n)) [
      | inl same ↦ inr (ground arith)
      | inr other ↦ inl (ground arith)
    ]
  ]
]

remove-Holds :
    (id : String) (s : Store) (a : String)
    → Holds id s
    → str_eq a id ≡ false
    → Holds id (record s { bans = remove a s.bans })
remove-Holds id s a v other =
    let (row, g, m) = v.manual in
    record {
      manual = (row, ground (arith, lookup-remove a id s.bans), m);
      trimmed = λ k e h. v.trimmed k e (ground (arith, lookup-remove a k s.bans));
    }

other_account :
    (s : Store) (a id : String) (e row : BanEntry)
    → get s a ≡ some e
    → get s id ≡ some row
    → row.reset_source ≡ "manual_unban"
    → str_eq e.reset_source "manual_unban" ≡ false
    → str_eq a id ≡ false
other_account s a id e row g h m f = elim (Bool-cases (str_eq a id)) [
  | inl same ↦ absurd (ground (arith, str_eq_iff a id, str_eq_iff e.reset_source "manual_unban"))
  | inr other ↦ other
]

delete_if-Holds :
    (id : String) (s : Store) (a : String) (n : ℕ) (e : BanEntry)
    → Holds id s
    → get s a ≡ some e
    → str_eq e.reset_source "manual_unban" ≡ false
    → Holds id (delete_if_or_current s a n).store
delete_if-Holds id s a n e v g f =
    let t = v.trimmed a e g in
    let (row, h, m) = v.manual in
    let other = other_account s a id e row g h m f in
    elim (delete_cases s a n) [
      | inl same ↦ subst (Holds id) (sym same) v
      | inr cut ↦
          subst (Holds id) (sym (cut ∙ ap (λ k. record s { bans = remove k s.bans }) t))
            (remove-Holds id s a v other)
    ]

module _ {W : Type 0} where
  retried-Holds :
      (id : String) (r : Run W) (entry : BanEntry) (w : W) (s : Store) (o : DisableOutcome)
      → is_missing o ≡ false
      → Holds id s
      → Holds id (retried r entry w s o).store
  unfolding retried
  retried-Holds id r entry w s disabled m v = update-Holds id s entry.auth_id true "" v
  retried-Holds id r entry w s (missing text) m v = absurd (cc)
  retried-Holds id r entry w s (failed text) m v = update-Holds id s entry.auth_id false text v

  redisabled-Holds :
      (id : String) (r : Run W) (a : String) (w : W) (s : Store) (o : DisableOutcome)
      → Holds id s
      → Holds id (redisabled r a w s o).store
  unfolding redisabled
  redisabled-Holds id r a w s disabled v = update-Holds id s a true "" v
  redisabled-Holds id r a w s (missing text) v = update-Holds id s a false text v
  redisabled-Holds id r a w s (failed text) v = update-Holds id s a false text v

-- CPA knows every account, and no other goroutine uses the pool while it is called.
module _ {W : Type 0} (disable_auth_in_cpa : W → Store → String → W × Store × DisableOutcome)
    (enable_auth_in_cpa : W → Store → String → W × Store × EnableOutcome)
    (disable_quiet : (w : W) (s : Store) (a : String) → (disable_auth_in_cpa w s a).1 ≡ s)
    (enable_quiet : (w : W) (s : Store) (a : String) → (enable_auth_in_cpa w s a).1 ≡ s)
    (disable_known : (w : W) (s : Store) (a : String)
      → is_missing (disable_auth_in_cpa w s a).2 ≡ false) where
  quiet-Holds : (id : String) (s t : Store) → t ≡ s → Holds id s → Holds id t
  quiet-Holds id s t e v = subst (Holds id) (sym e) v

  retry-Holds :
      (id : String) (now : ℕ) (r : Run W) (entries : List BanEntry)
      → Holds id r.store
      → Holds id (retry disable_auth_in_cpa enable_auth_in_cpa now r entries).store
  unfolding retry retry_one
  retry-Holds id now r [] v = v
  retry-Holds id now r (entry ∷ entries) v =
      let (w, s, o) = disable_auth_in_cpa r.world r.store entry.auth_id in
      retry-Holds id now (retry_one disable_auth_in_cpa enable_auth_in_cpa now r entry) entries (
        if_cases (λ (x : Run W). Holds id x.store) (not (after entry.reset_at now)) r
          (retried r entry w s o) (λ _. v)
          (λ _.
            retried-Holds id r entry w s o (disable_known r.world r.store entry.auth_id)
              (quiet-Holds id r.store s (disable_quiet r.world r.store entry.auth_id) v)))

  kept_newer-Holds :
      (id : String) (r : Run W) (a : String) (o : Option BanEntry)
      → Holds id r.store
      → Holds id (kept_newer disable_auth_in_cpa enable_auth_in_cpa r a o).store
  unfolding kept_newer
  kept_newer-Holds id r a none v = v
  kept_newer-Holds id r a (some current) v =
      let (w, s, o) = disable_auth_in_cpa r.world r.store a in
      redisabled-Holds id r a w s o (quiet-Holds id r.store s (disable_quiet r.world r.store a) v)

  lifted-Holds :
      (id : String) (r : Run W) (a : String) (cas : CasResult)
      → Holds id cas.store
      → Holds id (lifted disable_auth_in_cpa enable_auth_in_cpa r a cas).store
  unfolding lifted
  lifted-Holds id r a cas v =
      if_cases (λ (x : Run W). Holds id x.store) cas.deleted _ _ (λ _. v)
        (λ _. kept_newer-Holds id (record r { store = cas.store }) a cas.current v)

  enabled_with-Holds :
      (id : String) (r : Run W) (a : String) (entry : BanEntry) (w : W) (s : Store)
      (o : EnableOutcome)
      → get s a ≡ some entry
      → str_eq entry.reset_source "manual_unban" ≡ false
      → Holds id s
      → Holds id (enabled_with disable_auth_in_cpa enable_auth_in_cpa r a entry w s o).store
  unfolding enabled_with
  enabled_with-Holds id r a entry w s enabled g f v =
      lifted-Holds id (record r { world = w; store = s }) a _
        (delete_if-Holds id s a entry.revision entry v g f)
  enabled_with-Holds id r a entry w s absent g f v =
      lifted-Holds id (record r { world = w; store = s }) a _
        (delete_if-Holds id s a entry.revision entry v g f)
  enabled_with-Holds id r a entry w s enable_failed g f v = v

  restore_row-Holds :
      (id : String) (r : Run W) (a : String) (found : Option BanEntry)
      → get r.store a ≡ found
      → Holds id r.store
      → Holds id (restore_row disable_auth_in_cpa enable_auth_in_cpa r a found).store
  unfolding restore_row
  restore_row-Holds id r a none g v = v
  restore_row-Holds id r a (some entry) g v =
      let (w, s, o) = enable_auth_in_cpa r.world r.store a in
      let q = enable_quiet r.world r.store a in
      if_cases (λ (x : Run W). Holds id x.store) (str_eq entry.reset_source "manual_unban") r _
        (λ _. v)
        (λ f.
          enabled_with-Holds id r a entry w s o (ap (λ x. get x a) q ∙ g) f
            (quiet-Holds id r.store s q v))

  restore_each-Holds :
      (id : String) (r : Run W) (ids : List String)
      → Holds id r.store
      → Holds id (restore_each disable_auth_in_cpa enable_auth_in_cpa r ids).store
  unfolding restore_each
  restore_each-Holds id r [] v = v
  restore_each-Holds id r (a ∷ ids) v =
      restore_each-Holds id (restore_row disable_auth_in_cpa enable_auth_in_cpa r a (get r.store a))
        ids (restore_row-Holds id r a (get r.store a) refl v)

  -- A ban that an operator has to lift is in the pool after a run of the restore loop, still for an
  -- operator to lift, whatever the time and however CPA's calls end, if CPA knows the accounts that it
  -- is asked to disable, nothing else uses the pool meanwhile, and no id in it has spaces around it.
  pub restore_expired_bans-Holds :
      (id : String) (world : W) (store : Store) (now : ℕ)
      → Holds id store
      → Holds id (restore_expired_bans disable_auth_in_cpa enable_auth_in_cpa world store now).store
  unfolding restore_expired_bans
  restore_expired_bans-Holds id world store now v =
      let begun : Run W = record {
        world = world;
        store = store;
        restored = 0;
        failures = 0;
        dirty = false;
      } in
      let tried = retry disable_auth_in_cpa enable_auth_in_cpa now begun (unsynced_cpa store) in
      restore_each-Holds id tried (expired tried.store now)
        (retry-Holds id now begun (unsynced_cpa store) v)
