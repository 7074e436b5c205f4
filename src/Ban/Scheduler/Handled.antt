-- ===== src/Ban/Scheduler/Handled.antt =====
-- What a failed request leaves in the pool and in the queue.
use grok_inspection.Base.{
  ℕ, ◌≤◌, String, Bool, true, false, ◌≡◌, refl, sym, ap, ◌∙◌, subst, ◌⊎◌, inl, inr, Option, none,
  some, arith, Bool-cases, if◌then◌else◌,
}
use grok_inspection.Text.{is_empty, trim_space, str_eq}
use grok_inspection.Text.Laws.{str_eq_refl}
use grok_inspection.Dict.{lookup}
use grok_inspection.Time.{Formats}
use grok_inspection.Ban.Detector.{BanEntry, UsageRecord, PluginConfig, detect_ban}
use grok_inspection.Ban.Store.{Store, set, get, merge, next_rev, synced_entry}
use grok_inspection.Ban.Detector.Detect.{detect_ban-IsBan}
use grok_inspection.Ban.Store.Invariant.{merge-auth_id}
use grok_inspection.Ban.Store.Merge.{get-set}
use grok_inspection.Ban.Store.Synced.{noted_in, sync-get}
use grok_inspection.Ban.Queue.{Queue, enqueue, start_workers, enqueue_ban_dispose}
use grok_inspection.Ban.Queue.Requests.{raised, enqueue_accepted}
use grok_inspection.Ban.Scheduler.{
  Plugin, Meanwhile, found_id, found_revision, disposed, banned, dispose, dispose_detected,
  handle_usage_record,
}

abbrev pub refused : BanEntry → BanEntry
refused row = synced_entry row false "dispose queue full"

-- The states between the calls, as they follow from one another.
abbrev pub unsynced : BanEntry → BanEntry
unsynced e = record e { cpa_synced = false; cpa_sync_error = "" }

abbrev pub when_found : Meanwhile → Plugin → BanEntry → Plugin
when_found around p e = around.after_set (record p { store = set p.store (unsynced e) })

abbrev pub asked_for : Meanwhile → Plugin → BanEntry → Option BanEntry
asked_for around p e = get (when_found around p e).store e.auth_id

abbrev pub answer_of : Meanwhile → Plugin → BanEntry → Queue × Bool
answer_of around p e =
    enqueue_ban_dispose (around.after_get (when_found around p e)).queue
      (found_id (asked_for around p e)) (found_revision (asked_for around p e))

abbrev pub when_answered : Meanwhile → Plugin → BanEntry → Plugin
when_answered around p e =
    around.after_enqueue
      (record (around.after_get (when_found around p e)) { queue = (answer_of around p e).0 })

-- What is done about a ban. Set leaves the account a row that is not yet applied in CPA. The account
-- of the row that Get finds then waits in the queue with that row's revision or a later one, and the
-- pool is left as it is; or the queue refuses it, and only the row that the account has by then, if
-- any, says so. A save of the pool is asked for.
pub record IsHandled (around : Meanwhile) (p : Plugin) (e : BanEntry) (p' : Plugin) : Type 0 where
  pub stored :
      (row : BanEntry) × (get (set p.store (unsynced e)) e.auth_id ≡ some row)
      × (row.auth_id ≡ e.auth_id)
      × (row.cpa_synced ≡ false)
  pub queued :
      ((r : ℕ) × (lookup
            (trim_space (found_id (asked_for around p e)))
            (answer_of around p e).0.pending
          ≡ some r)
        × (found_revision (asked_for around p e) ≤ r)
        × (p'.store ≡ (when_answered around p e).store))
      ⊎ (((answer_of around p e).1 ≡ false)
          × ((is_empty (trim_space (found_id (asked_for around p e))) ≡ true)
              ⊎ ((j : String)
                  → get p'.store j ≡ (
                      if str_eq (trim_space (found_id (asked_for around p e))) j
                      then noted_in refused (
                          get
                            (when_answered around p e).store
                            (trim_space (found_id (asked_for around p e))))
                      else get (when_answered around p e).store j))))
  pub marked : p'.dirty ≡ true

merge_sync : (o : Option BanEntry) (e : BanEntry) → (merge o e).cpa_synced ≡ e.cpa_synced
unfolding merge
merge_sync none e = refl
merge_sync (some old) e = ground arith

le_raised : (o : Option ℕ) (r : ℕ) → r ≤ raised o r
le_raised none r = omega arith
le_raised (some old) r = omega arith

accepted_pending :
    (q : Queue) (id : String) (rev : ℕ)
    → (enqueue_ban_dispose q id rev).1 ≡ true
    → (r : ℕ) × (lookup (trim_space id) (enqueue_ban_dispose q id rev).0.pending ≡ some r)
      × (rev ≤ r)
unfolding enqueue_ban_dispose
accepted_pending q id rev h =
    let q' = start_workers q in
    let started : enqueue_ban_dispose q id rev ≡ enqueue q' id rev = ground arith in
    let taken : (enqueue q' id rev).1 ≡ true = sym (ap (λ x. x.1) started) ∙ h in
    let row = enqueue_accepted q' id rev (trim_space id) taken in
    (
      raised (lookup (trim_space id) q'.pending) rev,
      ap (λ x. lookup (trim_space id) x.0.pending) started
          ∙ row
          ∙ ground (arith, str_eq_refl (trim_space id)),
      le_raised (lookup (trim_space id) q'.pending) rev,
    )

set_row :
    (s : Store) (e : BanEntry)
    → is_empty e.auth_id ≡ false
    → (row : BanEntry) × (get (set s e) e.auth_id ≡ some row)
      × (row.auth_id ≡ e.auth_id)
      × (row.cpa_synced ≡ e.cpa_synced)
set_row s e n =
    let merged = merge (get s e.auth_id) e in
    (
      record merged { revision = next_rev s.rev },
      ground (arith, get-set s e e.auth_id n, str_eq_refl e.auth_id),
      merge-auth_id (get s e.auth_id) e,
      merge_sync (get s e.auth_id) e,
    )

refused-get :
    (p : Plugin) (id : String)
    → is_empty (trim_space id) ≡ false
    → (j : String)
    → get (disposed p id false).store j ≡ (
        if str_eq (trim_space id) j
        then noted_in refused (get p.store (trim_space id))
        else get p.store j)
unfolding disposed
refused-get p id n j = sync-get p.store id false "dispose queue full" _ n refl j

accepted-store : (p : Plugin) (id : String) → (disposed p id true).store ≡ p.store
unfolding disposed
accepted-store p id = refl

disposed-dirty : (p : Plugin) (id : String) (b : Bool) → (disposed p id b).dirty ≡ true
unfolding disposed
disposed-dirty p id b = refl

dispose-IsHandled :
    (around : Meanwhile) (p : Plugin) (e : BanEntry)
    → is_empty e.auth_id ≡ false
    → IsHandled around p e (dispose around p e)
unfolding dispose banned
dispose-IsHandled around p e n =
    let id = found_id (asked_for around p e) in
    let q = answer_of around p e in
    let after = when_answered around p e in
    record {
      stored = set_row p.store (unsynced e) n;
      queued = elim (Bool-cases q.1) [
        | inl a ↦
            let (r, l, m) =
              accepted_pending (around.after_get (when_found around p e)).queue id
                (found_revision (asked_for around p e)) a in
            inl (r, l, m, ap (λ b. (disposed after id b).store) a ∙ accepted-store after id)
        | inr b ↦ inr (
          b,
          elim (Bool-cases (is_empty (trim_space id))) [
            | inl k ↦ inl k
            | inr k ↦
                inr (λ j. ap (λ x. get (disposed after id x).store j) b ∙ refused-get after id k j)
          ],
        )
      ];
      marked = disposed-dirty after id q.1;
    }

-- Where the plugin is enabled and detects a ban, the ban is handled in the sense above, whatever the
-- other goroutines do to the pool and the queue between the calls.
pub handle_usage_record-IsHandled :
    (formats : Formats) (around : Meanwhile) (p : Plugin) (r : UsageRecord) (cfg : PluginConfig)
    (now : ℕ) {e : BanEntry}
    → cfg.enabled ≡ true
    → detect_ban formats r cfg now ≡ some e
    → IsHandled around p e (handle_usage_record formats around p r cfg now)
unfolding handle_usage_record
handle_usage_record-IsHandled formats around p r cfg now {e = e} on h =
    let ban = detect_ban-IsBan formats r cfg now e h in
    let same : dispose around p e ≡ handle_usage_record formats around p r cfg now =
      unfold dispose_detected in ground arith in
    subst (IsHandled around p e) same (dispose-IsHandled around p e ban.not_empty)
