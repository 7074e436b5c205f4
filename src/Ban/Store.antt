-- ===== src/Ban/Store.antt =====
-- ban_store.go: the pool of bans in memory. Each method runs under the store's lock, so that it is
-- one step; `revision` is a uint64 that counts the writes and serves as the token of a conditional
-- delete.
pub mod Merge
pub mod Cas
pub mod Invariant
pub mod Views
pub mod Synced
use grok_inspection.Base.{
  ℕ, ◌+◌, ◌%◌, ◌^◌, String, Bool, true, false, not, ◌&&◌, ◌||◌, List, [], ◌∷◌, Option, none, some,
  ltb, leb, ◌==◌, length, if◌then◌else◌,
}
use grok_inspection.Text.{str_eq, is_empty, trim_space}
use grok_inspection.Time.{after}
use grok_inspection.Dict.{lookup, insert, remove, values}
use grok_inspection.Ban.Evidence.{exhausted_error_code, unauthorized_error_code}
use grok_inspection.Ban.Detector.{BanEntry}

pub record Store : Type 0 where
  pub bans : List (String × BanEntry)
  pub rev : ℕ

abbrev pub new_store : Store
new_store = record { bans = []; rev = 0 }

-- The diagnostic code that goes with a kept error code.
kept_diag : BanEntry → BanEntry → String
unfolding str_eq is_empty
kept_diag existing entry =
    if not (str_eq entry.error_code existing.error_code)
    then existing.error_code_diag
    else if not (is_empty existing.error_code_diag) && is_empty entry.error_code_diag
    then existing.error_code_diag
    else entry.error_code_diag

-- A new ban keeps the later window of the account's old one, with its source and reason.
keep_longer : BanEntry → BanEntry → BanEntry
unfolding kept_diag
keep_longer existing entry =
    let e = record entry { reset_at = existing.reset_at; reset_source = existing.reset_source } in
    if is_empty existing.error_code
    then e
    else record e { error_code = existing.error_code; error_code_diag = kept_diag existing entry }

-- The exact free-usage code may replace an unauthorized ban, whatever the windows.
unfoldable pub is_reclassified : BanEntry → BanEntry → Bool
unfolding str_eq
is_reclassified existing entry =
    str_eq entry.error_code exhausted_error_code
    && str_eq existing.error_code unauthorized_error_code

unfoldable pub merge : Option BanEntry → BanEntry → BanEntry
unfolding keep_longer is_reclassified
merge none entry = entry
merge (some existing) entry =
    if not (is_reclassified existing entry) && after existing.reset_at entry.reset_at
    then keep_longer existing entry
    else entry

abbrev pub next_rev : ℕ → ℕ
next_rev rev = (rev + 1) % 2 ^ 64

unfoldable pub set : Store → BanEntry → Store
unfolding insert
set s entry =
    let rev' = next_rev s.rev in
    let merged = merge (lookup entry.auth_id s.bans) entry in
    if is_empty entry.auth_id then s else record {
      bans = insert entry.auth_id (record merged { revision = rev' }) s.bans;
      rev = rev';
    }

abbrev pub get : Store → String → Option BanEntry
get s auth_id = lookup auth_id s.bans

unfoldable pub delete : Store → String → Store × Bool
unfolding remove
delete s auth_id = elim (lookup auth_id s.bans) [
  | none ↦ (s, false)
  | some e ↦ (record s { bans = remove auth_id s.bans }, true)
]

-- The outcome of a conditional delete: `deleted`, and the row that stays.
pub record CasResult : Type 0 where
  pub store : Store
  pub deleted : Bool
  pub current : Option BanEntry

cas_row : Store → String → ℕ → Option BanEntry → CasResult
unfolding remove
cas_row s id expected none = record { store = s; deleted = false; current = none }
cas_row s id expected (some entry) =
    if entry.revision == expected
    then record { store = record s { bans = remove id s.bans }; deleted = true; current = none }
    else record { store = s; deleted = false; current = some entry }

unfoldable pub delete_if_or_current : Store → String → ℕ → CasResult
unfolding cas_row
delete_if_or_current s auth_id expected =
    let id = trim_space auth_id in
    if is_empty id
    then record { store = s; deleted = false; current = none }
    else cas_row s id expected (lookup id s.bans)

unfoldable pub delete_if : Store → String → ℕ → Store × Bool
unfolding delete_if_or_current
delete_if s auth_id revision =
    let r = delete_if_or_current s auth_id revision in (r.store, r.deleted)

unfoldable pub delete_if_reset_at : Store → String → ℕ → Store × Bool
unfolding remove
delete_if_reset_at s auth_id reset_at = elim (lookup auth_id s.bans) [
  | none ↦ (s, false)
  | some entry ↦
      if not (entry.reset_at == reset_at)
      then (s, false)
      else (record s { bans = remove auth_id s.bans }, true)
]

unfoldable pub synced_entry : BanEntry → Bool → String → BanEntry
synced_entry entry synced sync_err =
    let e = record entry { cpa_synced = synced } in
    let err = trim_space sync_err in
    if synced
    then record e { cpa_sync_error = "" }
    else if is_empty err
    then e
    else record e { cpa_sync_error = err }

unfoldable pub update_cpa_sync_state : Store → String → Bool → String → Store
unfolding synced_entry insert
update_cpa_sync_state s auth_id synced sync_err =
    let id = trim_space auth_id in
    let updated : Store = elim (lookup id s.bans) [
      | none ↦ s
      | some entry ↦ record s { bans = insert id (synced_entry entry synced sync_err) s.bans }
    ] in
    if is_empty id then s else updated

abbrev pub update_cpa_synced : Store → String → Bool → Store
update_cpa_synced s auth_id synced = update_cpa_sync_state s auth_id synced ""

abbrev pub clear : Store → Store
clear s = record s { bans = [] }

-- The accounts whose window has passed.
expired_ids : List (String × BanEntry) → ℕ → List String
expired_ids [] now = []
expired_ids ((id, e) ∷ rest) now =
    let ids = expired_ids rest now in if not (after e.reset_at now) then id ∷ ids else ids

unfoldable pub expired : Store → ℕ → List String
unfolding expired_ids
expired s now = expired_ids s.bans now

unexpired : List (String × BanEntry) → ℕ → List (String × BanEntry)
unexpired [] now = []
unexpired ((id, e) ∷ rest) now =
    let kept = unexpired rest now in if not (after e.reset_at now) then kept else (id, e) ∷ kept

unfoldable pub clear_expired : Store → ℕ → Store × List String
unfolding unexpired expired_ids
clear_expired s now = (record s { bans = unexpired s.bans now }, expired_ids s.bans now)

-- sort.Slice by an instant.
insert_by : (BanEntry → ℕ) → BanEntry → List BanEntry → List BanEntry
insert_by key e [] = e ∷ []
insert_by key e (x ∷ xs) = if ltb (key x) (key e) then x ∷ insert_by key e xs else e ∷ x ∷ xs

unfoldable pub sort_by : (BanEntry → ℕ) → List BanEntry → List BanEntry
unfolding insert_by
sort_by key [] = []
sort_by key (e ∷ es) = insert_by key e (sort_by key es)

active_entries : List BanEntry → ℕ → List BanEntry
active_entries [] now = []
active_entries (e ∷ es) now =
    let rest = active_entries es now in if after e.reset_at now then e ∷ rest else rest

unfoldable pub list : Store → ℕ → List BanEntry
unfolding active_entries sort_by values
list s now = sort_by (λ e. e.reset_at) (active_entries (values s.bans) now)

unsynced_entries : List BanEntry → List BanEntry
unsynced_entries [] = []
unsynced_entries (e ∷ es) =
    let rest = unsynced_entries es in if not e.cpa_synced then e ∷ rest else rest

unfoldable pub unsynced_cpa : Store → List BanEntry
unfolding unsynced_entries sort_by values
unsynced_cpa s = sort_by (λ e. e.banned_at) (unsynced_entries (values s.bans))

unfoldable pub snapshot_entries : Store → List BanEntry
unfolding sort_by values
snapshot_entries s = sort_by (λ e. e.reset_at) (values s.bans)

abbrev pub count : Store → ℕ
count s = length s.bans
