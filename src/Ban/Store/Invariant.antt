-- ===== src/Ban/Store/Invariant.antt =====
-- What holds of the pool between any two calls.
use grok_inspection.Base.{
  ℕ, ◌+◌, ◌^◌, ◌≤◌, ◌<◌, String, Bool, true, false, ◌≡◌, refl, List, [], ◌∷◌, Option, none, some,
  inl, inr, arith, if◌then◌else◌, Option-cases, Bool-cases, length, ◌==◌, if_cases, not,
}
use grok_inspection.Text.{is_empty, trim_space}
use grok_inspection.Text.Laws.{str_eq_iff}
use grok_inspection.Time.{after}
use grok_inspection.Dict.{
  lookup, insert, remove, lookup-insert, lookup-remove, IsDistinct, insert-IsDistinct,
  remove-IsDistinct,
}
use grok_inspection.Ban.Detector.{BanEntry}
use grok_inspection.Ban.Store.{
  Store, next_rev, merge, set, get, delete, delete_if_or_current, cas_row, delete_if_reset_at,
  update_cpa_sync_state, synced_entry, clear, clear_expired, unexpired,
}
use grok_inspection.Ban.Store.Merge.{get-set}

-- A row stands under its own account, and its revision was given out before.
pub record IsRow (s : Store) (id : String) (e : BanEntry) : Type 0 where
  pub named : e.auth_id ≡ id
  pub not_empty : is_empty id ≡ false
  pub issued : e.revision ≤ s.rev

pub record IsValid (s : Store) : Type 0 where
  pub rows : (id : String) (e : BanEntry) → get s id ≡ some e → IsRow s id e
  pub distinct : IsDistinct s.bans

pub merge-auth_id :
    (o : Option BanEntry) (entry : BanEntry) → (merge o entry).auth_id ≡ entry.auth_id
unfolding merge
merge-auth_id none entry = refl
merge-auth_id (some old) entry = ground arith

rev-set :
    (s : Store) (entry : BanEntry)
    → is_empty entry.auth_id ≡ false
    → (set s entry).rev ≡ next_rev s.rev
unfolding set
rev-set s entry h = ground arith

set_empty : (s : Store) (entry : BanEntry) → is_empty entry.auth_id ≡ true → set s entry ≡ s
unfolding set
set_empty s entry h = ground arith

set-IsDistinct :
    (s : Store) (entry : BanEntry)
    → is_empty entry.auth_id ≡ false
    → IsDistinct s.bans
    → IsDistinct (set s entry).bans
unfolding set
set-IsDistinct s entry h d = rw h (insert-IsDistinct entry.auth_id _ s.bans d)

set-rows :
    (s : Store) (entry : BanEntry)
    → s.rev + 1 < 2 ^ 64
    → is_empty entry.auth_id ≡ false
    → IsValid s
    → (id : String) (e : BanEntry) → get (set s entry) id ≡ some e
    → IsRow (set s entry) id e
set-rows s entry w h v id e g = ground (
  arith,
  get-set s entry id h,
  rev-set s entry h,
  v.rows id e,
  merge-auth_id (get s entry.auth_id) entry,
  str_eq_iff entry.auth_id id,
)

set-IsValid :
    (s : Store) (entry : BanEntry) → s.rev + 1 < 2 ^ 64 → IsValid s → IsValid (set s entry)
set-IsValid s entry w v = elim (Bool-cases (is_empty entry.auth_id)) [
  | inl e ↦ rw (set_empty s entry e) v
  | inr e ↦ record { rows = set-rows s entry w e v; distinct = set-IsDistinct s entry e v.distinct }
]

remove-rows : (s : Store) (k : String) → IsValid s → IsValid (record s { bans = remove k s.bans })
remove-rows s k v = record {
  rows = λ id e g. ground (arith, lookup-remove k id s.bans, v.rows id e);
  distinct = remove-IsDistinct k s.bans v.distinct;
}

delete-IsValid : (s : Store) (id : String) → IsValid s → IsValid (delete s id).0
unfolding delete
delete-IsValid s id v = elim (Option-cases (lookup id s.bans)) [
  | inl e ↦ rw (e, delete) v
  | inr (row, e) ↦ rw (e, delete) (remove-rows s id v)
]

cas_row-IsValid :
    (s : Store) (id : String) (n : ℕ) (o : Option BanEntry)
    → IsValid s
    → IsValid (cas_row s id n o).store
unfolding cas_row
cas_row-IsValid s id n none v = v
cas_row-IsValid s id n (some row) v = elim (Bool-cases (row.revision == n)) [
  | inl e ↦ rw e (remove-rows s id v)
  | inr e ↦ rw e v
]

pub delete_if-IsValid :
    (s : Store) (id : String) (n : ℕ) → IsValid s → IsValid (delete_if_or_current s id n).store
unfolding delete_if_or_current
delete_if-IsValid s id n v = elim (Bool-cases (is_empty (trim_space id))) [
  | inl e ↦ rw e v
  | inr e ↦ rw e (cas_row-IsValid s (trim_space id) n _ v)
]

delete_if_reset_at-IsValid :
    (s : Store) (id : String) (t : ℕ) → IsValid s → IsValid (delete_if_reset_at s id t).0
unfolding delete_if_reset_at
delete_if_reset_at-IsValid s id t v = elim (Option-cases (lookup id s.bans)) [
  | inl e ↦ rw (e, delete_if_reset_at) v
  | inr (row, e) ↦
      rw (e, delete_if_reset_at)
        (elim (Bool-cases (row.reset_at == t)) [
          | inl same ↦ rw same (remove-rows s id v)
          | inr other ↦ rw other v
        ])
]

-- A rewrite of a row that keeps its account and its revision.
update-rows :
    (s : Store) (id : String) (old new : BanEntry)
    → get s id ≡ some old
    → new.auth_id ≡ old.auth_id
    → new.revision ≡ old.revision
    → IsValid s
    → IsValid (record s { bans = insert id new s.bans })
update-rows s id old new o a r v = record {
  rows = λ j e g.
      ground (arith, lookup-insert id j new s.bans, v.rows j e, v.rows id old o, str_eq_iff id j);
  distinct = insert-IsDistinct id new s.bans v.distinct;
}

synced_entry_keeps :
    (e : BanEntry) (b : Bool) (err : String)
    → ((synced_entry e b err).auth_id ≡ e.auth_id)
      × ((synced_entry e b err).revision ≡ e.revision)
      × ((synced_entry e b err).reset_at ≡ e.reset_at)
      × ((synced_entry e b err).error_code ≡ e.error_code)
unfolding synced_entry
synced_entry_keeps e b err = ground arith

pub update_cpa_sync_state-IsValid :
    (s : Store) (id : String) (b : Bool) (err : String)
    → IsValid s
    → IsValid (update_cpa_sync_state s id b err)
unfolding update_cpa_sync_state
update_cpa_sync_state-IsValid s id b err v = elim (Bool-cases (is_empty (trim_space id))) [
  | inl e ↦ rw e v
  | inr e ↦ rw e (elim (Option-cases (lookup (trim_space id) s.bans)) [
    | inl g ↦ rw (g, update_cpa_sync_state) v
    | inr (row, g) ↦
        let k = synced_entry_keeps row b err in
        rw (g, update_cpa_sync_state)
          (update-rows s (trim_space id) row (synced_entry row b err) g k.0 k.1 v)
  ])
]

abbrev pub unless_expired : ℕ → Option BanEntry → Option BanEntry
unless_expired now none = none
unless_expired now (some e) = if after e.reset_at now then some e else none

lookup-unexpired :
    (m : List (String × BanEntry)) (now : ℕ) (id : String)
    → IsDistinct m
    → lookup id (unexpired m now) ≡ unless_expired now (lookup id m)
unfolding unexpired lookup
lookup-unexpired [] now id d = refl
lookup-unexpired ((k, e) ∷ m) now id d =
    ground (arith, lookup-unexpired m now id d.1, str_eq_iff k id)

unexpired-IsDistinct :
    (m : List (String × BanEntry)) (now : ℕ) → IsDistinct m → IsDistinct (unexpired m now)
unfolding unexpired
unexpired-IsDistinct [] now d = tt
unexpired-IsDistinct ((k, e) ∷ m) now d =
    if_cases IsDistinct (not (after e.reset_at now)) (unexpired m now) ((k, e) ∷ unexpired m now)
      (λ _. unexpired-IsDistinct m now d.1)
      λ _. (ground (arith, lookup-unexpired m now k d.1), unexpired-IsDistinct m now d.1)

-- In a pool that holds no account twice, ClearExpired takes away the row of an account whose
-- window has passed, and leaves any other row as it was.
pub get-clear_expired :
    (s : Store) (now : ℕ) (id : String)
    → IsDistinct s.bans
    → get (clear_expired s now).0 id ≡ unless_expired now (get s id)
unfolding clear_expired
get-clear_expired s now id d = lookup-unexpired s.bans now id d

clear_expired-IsValid : (s : Store) (now : ℕ) → IsValid s → IsValid (clear_expired s now).0
unfolding clear_expired
clear_expired-IsValid s now v = record {
  rows = λ id e g. ground (arith, lookup-unexpired s.bans now id v.distinct, v.rows id e);
  distinct = unexpired-IsDistinct s.bans now v.distinct;
}

clear-IsValid : (s : Store) → IsValid (clear s)
clear-IsValid s = record { rows = λ id e g. absurd (unfold lookup in cc); distinct = tt }

-- A call of one of the methods that change the pool.
pub data Call : Type 0 where
  sets : BanEntry → Call
  deletes : String → Call
  deletes_if : String → ℕ → Call
  deletes_if_reset_at : String → ℕ → Call
  syncs : String → Bool → String → Call
  clears : Call
  clears_expired : ℕ → Call

unfoldable pub call : Store → Call → Store
call s (sets entry) = set s entry
call s (deletes id) = (delete s id).0
call s (deletes_if id revision) = (delete_if_or_current s id revision).store
call s (deletes_if_reset_at id t) = (delete_if_reset_at s id t).0
call s (syncs id synced err) = update_cpa_sync_state s id synced err
call s clears = clear s
call s (clears_expired now) = (clear_expired s now).0

call-IsValid : (s : Store) (c : Call) → s.rev + 1 < 2 ^ 64 → IsValid s → IsValid (call s c)
unfolding call
call-IsValid s (sets entry) w v = set-IsValid s entry w v
call-IsValid s (deletes id) w v = delete-IsValid s id v
call-IsValid s (deletes_if id revision) w v = delete_if-IsValid s id revision v
call-IsValid s (deletes_if_reset_at id t) w v = delete_if_reset_at-IsValid s id t v
call-IsValid s (syncs id synced err) w v = update_cpa_sync_state-IsValid s id synced err v
call-IsValid s clears w v = clear-IsValid s
call-IsValid s (clears_expired now) w v = clear_expired-IsValid s now v

unfoldable pub calls : Store → List Call → Store
calls s [] = s
calls s (c ∷ cs) = calls (call s c) cs

rev-call : (s : Store) (c : Call) → s.rev + 1 < 2 ^ 64 → (call s c).rev ≤ s.rev + 1
unfolding call set delete delete_if_or_current cas_row delete_if_reset_at update_cpa_sync_state
    clear_expired
rev-call s (sets entry) w = ground arith
rev-call s c w = ground arith

-- Any sequence of calls, shorter than the revisions that a uint64 has left, keeps the pool in order:
-- no account twice, each row under its own account, which is not blank, and under a revision that was
-- given out.
pub calls-IsValid :
    (s : Store) (cs : List Call) → s.rev + length cs < 2 ^ 64 → IsValid s → IsValid (calls s cs)
unfolding calls
calls-IsValid s [] w v = v
calls-IsValid s (c ∷ cs) w v =
    calls-IsValid (call s c) cs (omega (arith, rev-call s c)) (call-IsValid s c (omega arith) v)
