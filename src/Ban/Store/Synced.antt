-- ===== src/Ban/Store/Synced.antt =====
-- What UpdateCpaSyncState leaves in the pool.
use grok_inspection.Base.{
  String, Bool, false, ◌≡◌, refl, subst, Option, none, some, if_cases, if◌then◌else◌,
}
use grok_inspection.Text.{is_empty, str_eq, trim_space}
use grok_inspection.Text.Laws.{str_eq_iff}
use grok_inspection.Dict.{lookup-insert}
use grok_inspection.Ban.Detector.{BanEntry}
use grok_inspection.Ban.Store.{Store, get, update_cpa_sync_state, synced_entry}

abbrev pub noted_in : (BanEntry → BanEntry) → Option BanEntry → Option BanEntry
noted_in note none = none
noted_in note (some row) = some (note row)

-- Only the row of the account changes, and none is made.
pub sync-get :
    (s : Store) (auth_id : String) (b : Bool) (m : String) (o : Option BanEntry)
    → is_empty (trim_space auth_id) ≡ false
    → get s (trim_space auth_id) ≡ o
    → (j : String)
    → get (update_cpa_sync_state s auth_id b m) j ≡ (
        if str_eq (trim_space auth_id) j then noted_in (λ row. synced_entry row b m) o else get s j)
unfolding update_cpa_sync_state
sync-get s auth_id b m (some row) h g j =
    rw (h, g) (lookup-insert (trim_space auth_id) j (synced_entry row b m) s.bans)
sync-get s auth_id b m none h g j = rw (h, g) (absent s (trim_space auth_id) j g)
  where
    absent :
        (s : Store) (id j : String)
        → get s id ≡ none
        → get s j ≡ (if str_eq id j then none else get s j)
    absent s id j g =
        if_cases (λ (o : Option BanEntry). get s j ≡ o) (str_eq id j) none (get s j)
          (λ e. subst (λ k. get s k ≡ none) ((str_eq_iff id j).0 e) g) (λ _. refl)
