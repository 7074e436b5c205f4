-- ===== src/Ban/Store/Merge.antt =====
-- What Set keeps of an account's old ban.
use grok_inspection.Base.{
  ℕ, ◌≤◌, ◌<◌, max, String, true, false, ◌≡◌, ◌≢◌, ◌⊎◌, inl, inr, ap, Bool-cases, some, arith,
  if◌then◌else◌,
}
use grok_inspection.Text.{is_empty, str_eq}
use grok_inspection.Text.Laws.{str_eq_refl, ne_of_str_eq}
use grok_inspection.Dict.{lookup, lookup-insert}
use text.Mathlib.TextEquality.{eq_iff}
use grok_inspection.Ban.Evidence.{exhausted_error_code, unauthorized_error_code}
use grok_inspection.Ban.Detector.{BanEntry}
use grok_inspection.Ban.Store.{Store, merge, is_reclassified, next_rev, set, get}

-- The row that Set writes.
pub get-set :
    (s : Store) (entry : BanEntry) (id : String)
    → is_empty entry.auth_id ≡ false
    → get (set s entry) id ≡ (
        if str_eq entry.auth_id id
        then some (record (merge (get s entry.auth_id) entry) { revision = next_rev s.rev })
        else get s id)
unfolding set
get-set s entry id h = ground (
  arith,
  lookup-insert entry.auth_id id
      (record (merge (lookup entry.auth_id s.bans) entry) { revision = next_rev s.rev }) s.bans,
)

-- What a row keeps of the two bans: the later window, with the source and the reason that belong to
-- it.
pub record IsLonger (old new row : BanEntry) : Type 0 where
  pub window : row.reset_at ≡ max old.reset_at new.reset_at
  pub source :
      ((new.reset_at < old.reset_at) × (row.reset_source ≡ old.reset_source))
      ⊎ ((old.reset_at ≤ new.reset_at) × (row.reset_source ≡ new.reset_source))
  pub reason :
      ((new.reset_at < old.reset_at)
        × ((is_empty old.error_code ≡ true) ⊎ (row.error_code ≡ old.error_code)))
      ⊎ ((old.reset_at ≤ new.reset_at) × (row.error_code ≡ new.error_code))
  pub unsynced : row.cpa_synced ≡ new.cpa_synced

merge-IsLonger :
    (old new : BanEntry) (n : ℕ)
    → is_reclassified old new ≡ false
    → IsLonger old new (record (merge (some old) new) { revision = n })
unfolding merge
merge-IsLonger old new n h = ground arith

merge_reclassified :
    (old new : BanEntry) → is_reclassified old new ≡ true → merge (some old) new ≡ new
unfolding merge
merge_reclassified old new h = ground arith

is_reclassified_codes :
    (old new : BanEntry)
    → is_reclassified old new ≡ true
    → (new.error_code ≡ exhausted_error_code) × (old.error_code ≡ unauthorized_error_code)
unfolding is_reclassified
is_reclassified_codes old new h = ground (
  arith,
  eq_iff new.error_code exhausted_error_code,
  eq_iff old.error_code unauthorized_error_code,
)

-- Not a free-usage ban after an unauthorized one.
abbrev pub IsOther : BanEntry → BanEntry → Type 0
IsOther old new =
    (new.error_code ≢ exhausted_error_code) ⊎ (old.error_code ≢ unauthorized_error_code)

IsOther-codes : (old new : BanEntry) → is_reclassified old new ≡ false → IsOther old new
unfolding is_reclassified
IsOther-codes old new h = elim (Bool-cases (str_eq new.error_code exhausted_error_code)) [
  | inl e ↦ inr (ne_of_str_eq old.error_code unauthorized_error_code (ground arith))
  | inr e ↦ inl (ne_of_str_eq new.error_code exhausted_error_code e)
]

-- The exact free-usage code has replaced an unauthorized ban.
pub record IsReplaced (old new row : BanEntry) : Type 0 where
  pub is_exhausted : new.error_code ≡ exhausted_error_code
  pub was_unauthorized : old.error_code ≡ unauthorized_error_code
  pub window : row.reset_at ≡ new.reset_at
  pub source : row.reset_source ≡ new.reset_source
  pub reason : row.error_code ≡ new.error_code

-- A second ban of an account keeps the later of the two windows with its source, and the old reason
-- with the old window. A free-usage ban that follows an unauthorized one is the only exception: its
-- window, source and reason are taken as they are, also where the old window is the later one.
pub set-IsLonger :
    (s : Store) (new old : BanEntry)
    → is_empty new.auth_id ≡ false
    → get s new.auth_id ≡ some old
    → (row : BanEntry) × (get (set s new) new.auth_id ≡ some row)
      × (IsReplaced old new row ⊎ (IsOther old new × IsLonger old new row))
set-IsLonger s new old h o =
    let row : BanEntry = record (merge (some old) new) { revision = next_rev s.rev } in
    let stored : get (set s new) new.auth_id ≡ some row =
      ground (arith, get-set s new new.auth_id h, str_eq_refl new.auth_id) in
    elim (Bool-cases (is_reclassified old new)) [
      | inl e ↦
          let (x, u) = is_reclassified_codes old new e in
          let m = merge_reclassified old new e in
          (
            row,
            stored,
            inl (record {
              is_exhausted = x;
              was_unauthorized = u;
              window = ap (λ (b : BanEntry). b.reset_at) m;
              source = ap (λ (b : BanEntry). b.reset_source) m;
              reason = ap (λ (b : BanEntry). b.error_code) m;
            }),
          )
      | inr e ↦
          (row, stored, inr (IsOther-codes old new e, merge-IsLonger old new (next_rev s.rev) e))
    ]
