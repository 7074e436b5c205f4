-- ===== src/Engine/Unban/Commit.antt =====
-- The commit of an unban, against a ban that lands while the account is being enabled.
use grok_inspection.Base.{
  ℕ, String, true, false, ◌≡◌, ◌≢◌, refl, ap, ◌∙◌, Option, none, some, if◌then◌else◌,
}
use grok_inspection.Text.{is_empty, str_eq, trim_space}
use grok_inspection.Ban.Detector.{BanEntry}
use grok_inspection.Ban.Store.{
  Store, CasResult, get, delete_if_or_current, update_cpa_sync_state, synced_entry,
}
use grok_inspection.Ban.Store.Synced.{noted_in, sync-get}
use grok_inspection.Ban.Store.Cas.{
  CasOutcome, missing, removed, retained, delete_if_or_current-CasOutcome,
}
use grok_inspection.Engine.Unban.{
  CommitAnswer, CommitError, superseded, redisable_failed, commit_unban_after_enable, after_cas,
}

-- How the row of a newer ban is kept: with the outcome of the disable noted in it.
abbrev pub noted : (String → String) → Option String → BanEntry → BanEntry
noted sanitize none row = synced_entry row true ""
noted sanitize (some m) row = synced_entry row false (sanitize m)

abbrev pub error_of : Option String → CommitError
error_of none = superseded
error_of (some m) = redisable_failed m

pub data CommitOutcome (sanitize : String → String) (s : Store) (id : String) (expected : ℕ)
    (during : Store → Store) (redisable : Option String) (a : CommitAnswer) : Type 0 where
  gone :
      get s id ≡ none
      → a.store ≡ s
      → a.removed ≡ false
      → a.error ≡ none
      → CommitOutcome sanitize s id expected during redisable a
  taken :
      (row : BanEntry)
      → get s id ≡ some row
      → row.revision ≡ expected
      → a.removed ≡ true
      → a.error ≡ none
      → ((j : String) → get a.store j ≡ (if str_eq id j then none else get s j))
      → CommitOutcome sanitize s id expected during redisable a
  kept :
      (row : BanEntry)
      → get s id ≡ some row
      → row.revision ≢ expected
      → a.removed ≡ false
      → a.error ≡ some (error_of redisable)
      → ((j : String)
          → get a.store j ≡ (
              if str_eq id j
              then noted_in (noted sanitize redisable) (get (during s) id)
              else get (during s) j))
      → CommitOutcome sanitize s id expected during redisable a

-- Where the conditional delete hands no row back.
cas_none :
    (sanitize : String → String) (auth_id : String) (during : Store → Store)
    (redisable : Option String) (r : CasResult)
    → r.current ≡ none
    → after_cas sanitize auth_id during redisable r
      ≡ record { store = r.store; removed = r.deleted; kept_newer = false; error = none }
unfolding after_cas
cas_none sanitize auth_id during redisable r h = rw h refl

abbrev synced_as : (String → String) → Option String → Store → String → Store
synced_as sanitize none s auth_id = update_cpa_sync_state s auth_id true ""
synced_as sanitize (some m) s auth_id = update_cpa_sync_state s auth_id false (sanitize m)

-- Where it hands back the row of a newer ban.
cas_some :
    (sanitize : String → String) (auth_id : String) (during : Store → Store)
    (redisable : Option String) (r : CasResult) (row : BanEntry)
    → r.current ≡ some row
    → after_cas sanitize auth_id during redisable r ≡ record {
      store = synced_as sanitize redisable (during r.store) auth_id;
      removed = false;
      kept_newer = true;
      error = some (error_of redisable);
    }
unfolding after_cas
cas_some sanitize auth_id during none r row h = rw h refl
cas_some sanitize auth_id during (some m) r row h = rw h refl

synced_as-get :
    (sanitize : String → String) (redisable : Option String) (s : Store) (auth_id : String)
    → is_empty (trim_space auth_id) ≡ false
    → (j : String)
    → get (synced_as sanitize redisable s auth_id) j ≡ (
        if str_eq (trim_space auth_id) j
        then noted_in (noted sanitize redisable) (get s (trim_space auth_id))
        else get s j)
synced_as-get sanitize none s auth_id h j = sync-get s auth_id true "" _ h refl j
synced_as-get sanitize (some m) s auth_id h j = sync-get s auth_id false (sanitize m) _ h refl j

after_cas-CommitOutcome :
    (sanitize : String → String) (s : Store) (auth_id : String) (expected : ℕ)
    (during : Store → Store) (redisable : Option String) (r : CasResult)
    → is_empty (trim_space auth_id) ≡ false
    → CasOutcome s (trim_space auth_id) expected r
    → CommitOutcome sanitize s
        (trim_space auth_id)
        expected
        during
        redisable
        (after_cas sanitize auth_id during redisable r)
after_cas-CommitOutcome sanitize s auth_id expected during redisable r h (missing g d c e) =
    let k = cas_none sanitize auth_id during redisable r c in
    gone g (ap CommitAnswer.store k ∙ e) (ap CommitAnswer.removed k ∙ d) (ap CommitAnswer.error k)
after_cas-CommitOutcome sanitize s auth_id expected during redisable r h (removed row g v d c e f) =
    let k = cas_none sanitize auth_id during redisable r c in
    taken row g v (ap CommitAnswer.removed k ∙ d) (ap CommitAnswer.error k)
      λ j. ap (λ (a : CommitAnswer). get a.store j) k ∙ f j
after_cas-CommitOutcome sanitize s auth_id expected during redisable r h (retained row g v d c e) =
    let k = cas_some sanitize auth_id during redisable r row c in
    kept row g v (ap CommitAnswer.removed k) (ap CommitAnswer.error k) λ j.
      ap (λ (a : CommitAnswer). get a.store j) k
      ∙ ap (λ t. get (synced_as sanitize redisable (during t) auth_id) j) e
      ∙ synced_as-get sanitize redisable (during s) auth_id h j

-- The commit of an unban, for an account id that is not blank, finds no ban any more and changes
-- nothing; or finds the revision that the unban is for, and takes away that ban alone; or finds a
-- newer ban and leaves it. Then it disables the account again, whatever becomes of the pool during
-- that call, notes how the call turned out in the row that the account has after it, if it still has
-- one, and changes nothing else; and it ends in an error also when that disable succeeds.
pub commit_unban-CommitOutcome :
    (sanitize : String → String) (s : Store) (auth_id : String) (expected : ℕ)
    (during : Store → Store) (redisable : Option String)
    → is_empty (trim_space auth_id) ≡ false
    → CommitOutcome sanitize s
        (trim_space auth_id)
        expected
        during
        redisable
        (commit_unban_after_enable sanitize s auth_id expected true during redisable)
unfolding commit_unban_after_enable
commit_unban-CommitOutcome sanitize s auth_id expected during redisable h =
    after_cas-CommitOutcome sanitize s auth_id expected during redisable
      (delete_if_or_current s auth_id expected) h
      (delete_if_or_current-CasOutcome s auth_id expected h)
