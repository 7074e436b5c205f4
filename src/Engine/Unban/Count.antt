-- ===== src/Engine/Unban/Count.antt =====
-- What the job counts.
use grok_inspection.Base.{
  ℕ, suc, ◌+◌, ◌≤◌, ltb, ℤ, String, Bool, true, false, not, ◌≡◌, refl, sym, subst, ◌∙◌, inl, inr,
  List, [], ◌∷◌, ◌++◌, length, Option, none, some, if_cases, Bool-cases, arith, if◌then◌else◌,
}
use grok_inspection.Ban.Store.{Store}
use grok_inspection.Engine.State.{UnbanJobState, bump}
use grok_inspection.Engine.Slot.{
  stop_unban_job, is_active, owns_run, claimed_job, release_unban_slot,
}
use grok_inspection.Engine.Unban.{
  UnbanTarget, Surroundings, EnableAnswer, enables, enable_fails, CommitError, JobWorld, stopped_if,
  with_failure, tally_failed, tally_done, tally_commit, unban_account, unban_each, end_unban_job,
  message_of, owned,
}

-- The accounts whose turn comes before a stop: all of them where there is none.
abbrev pub reached : List (UnbanTarget × Surroundings) → ℕ
reached [] = 0
reached (x ∷ xs) =
    let rest = reached xs in
    if x.1.stops_before then 0 else if x.1.stops_during then 1 else suc rest

-- The job runs under the id, has counted n accounts, each under one heading, and lists 20 failures at
-- most.
abbrev Good : ℕ → ℕ → Bool → UnbanJobState → Type 0
Good run_id n stopped job =
    (job.running ≡ true)
    × (job.run_id ≡ run_id)
    × (job.stopped ≡ stopped)
    × (job.done ≡ n)
    × (job.done ≡ job.enabled + job.missing + job.failed)
    × (length job.failures ≤ 20)

length_snoc {ℓ} : {A : Type ℓ} → (xs : List A) (x : A) → length (xs ++ x ∷ []) ≡ suc (length xs)
length_snoc [] x = refl
length_snoc (y ∷ xs) x = ground (arith, length_snoc xs x)

with_failure-length :
    (failures : List String) (m : String)
    → length failures ≤ 20
    → length (with_failure failures m) ≤ 20
with_failure-length failures m h =
    if_cases (λ fs. length fs ≤ 20) (ltb (length failures) 20) (failures ++ m ∷ []) failures
      (λ l. ground (arith, length_snoc failures m)) λ _. h

stop-Good :
    (run_id n : ℕ) (s : Bool) (job : UnbanJobState)
    → Good run_id n s job
    → Good run_id n true (stop_unban_job job)
unfolding stop_unban_job
stop-Good run_id n s job (r, i, t, d, b, f) =
    if_cases (Good run_id n true) job.running _ job (λ _. (r, i, refl, d, b, f)) λ h. ground arith

tally_failed-Good :
    (run_id n : ℕ) (s : Bool) (job : UnbanJobState) (m : String)
    → Good run_id n s job
    → Good run_id (suc n) s (tally_failed job m)
unfolding tally_failed
tally_failed-Good run_id n s job m (r, i, t, d, b, f) =
    (r, i, t, omega arith, omega arith, with_failure-length job.failures m f)

tally_done-Good :
    (run_id n : ℕ) (s : Bool) (job : UnbanJobState) (enabled : Bool)
    → Good run_id n s job
    → Good run_id (suc n) s (tally_done job enabled)
unfolding tally_done
tally_done-Good run_id n s job enabled (r, i, t, d, b, f) =
    if_cases (Good run_id (suc n) s) enabled _ _ (λ _. (r, i, t, omega arith, omega arith, f))
      λ _. (r, i, t, omega arith, omega arith, f)

tally_commit-Good :
    (sanitize : String → String) (run_id n : ℕ) (s : Bool) (job : UnbanJobState) (auth_id : String)
    (enabled : Bool) (o : Option CommitError)
    → Good run_id n s job
    → Good run_id (suc n) s (tally_commit sanitize job auth_id enabled o)
unfolding tally_commit
tally_commit-Good sanitize run_id n s job auth_id enabled none g =
    tally_done-Good run_id n s job enabled g
tally_commit-Good sanitize run_id n s job auth_id enabled (some e) g =
    tally_failed-Good run_id n s job (message_of sanitize auth_id e) g

owned-Good :
    (run_id n : ℕ) (s : Bool) (job counted : UnbanJobState)
    → Good run_id n s job
    → Good run_id (suc n) s counted
    → Good run_id (suc n) s (owned job run_id counted)
unfolding owns_run
owned-Good run_id n s job counted (r, i, t, d, b, f) g =
    if_cases (Good run_id (suc n) s) (owns_run job run_id) counted job (λ _. g) λ h. ground arith

stopped_if-Good :
    (run_id n : ℕ) (b : Bool) (job : UnbanJobState)
    → Good run_id n false job
    → Good run_id n b (stopped_if b job)
stopped_if-Good run_id n true job g = stop-Good run_id n false job g
stopped_if-Good run_id n false job g = g

account-Good :
    (sanitize : String → String) (run_id n : ℕ) (t : UnbanTarget) (around : Surroundings)
    (a : EnableAnswer) (w : JobWorld)
    → Good run_id n false w.job
    → Good run_id (suc n) around.stops_during (unban_account sanitize run_id t around a w).job
unfolding unban_account
account-Good sanitize run_id n t around (enable_fails m) w g =
    let j : UnbanJobState = record w.job { current = t.auth_id } in
    let k = stopped_if around.stops_during j in
    let h = stopped_if-Good run_id n around.stops_during j g in
    owned-Good run_id n around.stops_during k _ h
      (tally_failed-Good run_id n around.stops_during k _ h)
account-Good sanitize run_id n t around (enables enabled) w g =
    let j : UnbanJobState = record w.job { current = t.auth_id } in
    let k = stopped_if around.stops_during j in
    let h = stopped_if-Good run_id n around.stops_during j g in
    owned-Good run_id n around.stops_during k _ h
      (tally_commit-Good sanitize run_id n around.stops_during k t.auth_id enabled _ h)

-- A stopped job takes no further account.
ended-Good :
    (sanitize : String → String) (run_id n : ℕ) (xs : List (UnbanTarget × Surroundings))
    (w : JobWorld)
    → Good run_id n true w.job
    → Good run_id n true (unban_each sanitize run_id xs w).job
unfolding unban_each is_active
ended-Good sanitize run_id n [] w g = g
ended-Good sanitize run_id n (x ∷ xs) w g =
    let told = stopped_if x.1.stops_before w.job in
    let h : Good run_id n true told = still-Good x.1.stops_before in
    if_cases (λ (v : JobWorld). Good run_id n true v.job) (not (is_active told run_id)) _ _ (λ _. h)
      λ e. ground (arith, h.2)
  where
    still-Good : (b : Bool) → Good run_id n true (stopped_if b w.job)
    still-Good true = stop-Good run_id n true w.job g
    still-Good false = g

at_count :
    (run_id n m : ℕ) (s : Bool) (job : UnbanJobState)
    → n ≡ m
    → Good run_id n s job
    → Good run_id m s job
at_count run_id n m s job e (r, i, t, d, b, f) = (r, i, t, d ∙ e, b, f)

at_stop :
    (run_id n : ℕ) (s t : Bool) (job : UnbanJobState)
    → s ≡ t
    → Good run_id n s job
    → Good run_id n t job
at_stop run_id n s u job e (r, i, t, d, b, f) = (r, i, t ∙ e, d, b, f)

is_active-not :
    (run_id n : ℕ) (s : Bool) (job : UnbanJobState)
    → Good run_id n s job
    → is_active job run_id ≡ not s
unfolding is_active
is_active-not run_id n s job (r, i, t, d, b, f) = ground arith

owns_run-true :
    (run_id n : ℕ) (s : Bool) (job : UnbanJobState)
    → Good run_id n s job
    → owns_run job run_id ≡ true
unfolding owns_run
owns_run-true run_id n s job (r, i, t, d, b, f) = ground arith

each_stopped :
    (sanitize : String → String) (run_id : ℕ) (x : UnbanTarget × Surroundings)
    (xs : List (UnbanTarget × Surroundings)) (w : JobWorld)
    → is_active (stopped_if x.1.stops_before w.job) run_id ≡ false
    → unban_each sanitize run_id (x ∷ xs) w ≡ record w { job = stopped_if x.1.stops_before w.job }
unfolding unban_each
each_stopped sanitize run_id x xs w h = ground arith

each_goes_on :
    (sanitize : String → String) (run_id : ℕ) (x : UnbanTarget × Surroundings)
    (xs : List (UnbanTarget × Surroundings)) (w told : JobWorld)
    → told ≡ record w { job = stopped_if x.1.stops_before w.job }
    → is_active told.job run_id ≡ true
    → owns_run (unban_account sanitize run_id x.0 x.1 x.1.enable told).job run_id ≡ true
    → unban_each sanitize run_id (x ∷ xs) w
      ≡ unban_each sanitize run_id xs (unban_account sanitize run_id x.0 x.1 x.1.enable told)
unfolding unban_each
each_goes_on sanitize run_id x xs w told e h k = ground arith

abbrev Ends : ℕ → ℕ → UnbanJobState → Type 0
Ends run_id n job = (s : Bool) × Good run_id n s job

stopped-Ends :
    (sanitize : String → String) (run_id n : ℕ) (x : UnbanTarget × Surroundings)
    (xs : List (UnbanTarget × Surroundings)) (w : JobWorld)
    → x.1.stops_before ≡ true
    → Good run_id n false w.job
    → Ends run_id (n + reached (x ∷ xs)) (unban_each sanitize run_id (x ∷ xs) w).job
stopped-Ends sanitize run_id n x xs w b g =
    let told = stopped_if x.1.stops_before w.job in
    let h =
      at_stop run_id n x.1.stops_before true told b
        (stopped_if-Good run_id n x.1.stops_before w.job g) in
    let z : n ≡ n + reached (x ∷ xs) = ground arith in
    let e = each_stopped sanitize run_id x xs w (is_active-not run_id n true told h) in
    (
      true,
      subst (λ (v : JobWorld). Good run_id (n + reached (x ∷ xs)) true v.job) (sym e)
          (at_count run_id n (n + reached (x ∷ xs)) true told z h),
    )

-- The account's turn is taken.
taken :
    (sanitize : String → String) (run_id n : ℕ) (x : UnbanTarget × Surroundings)
    (xs : List (UnbanTarget × Surroundings)) (w : JobWorld)
    → x.1.stops_before ≡ false
    → Good run_id n false w.job
    → (v : JobWorld) × (unban_each sanitize run_id (x ∷ xs) w ≡ unban_each sanitize run_id xs v)
      × Good run_id (suc n) x.1.stops_during v.job
taken sanitize run_id n x xs w b g =
    let told : JobWorld = record w { job = stopped_if x.1.stops_before w.job } in
    let h =
      at_stop run_id n x.1.stops_before false told.job b
        (stopped_if-Good run_id n x.1.stops_before w.job g) in
    let v = unban_account sanitize run_id x.0 x.1 x.1.enable told in
    let k = account-Good sanitize run_id n x.0 x.1 x.1.enable told h in
    (
      v,
      each_goes_on sanitize run_id x xs w told refl (is_active-not run_id n false told.job h)
          (owns_run-true run_id (suc n) x.1.stops_during v.job k),
      k,
    )

each-Ends :
    (sanitize : String → String) (run_id n : ℕ) (xs : List (UnbanTarget × Surroundings))
    (w : JobWorld)
    → Good run_id n false w.job
    → Ends run_id (n + reached xs) (unban_each sanitize run_id xs w).job
each-Ends sanitize run_id n [] w g =
    unfold unban_each in (false, at_count run_id n (n + 0) false w.job (omega arith) g)
each-Ends sanitize run_id n (x ∷ xs) w g = elim (Bool-cases x.1.stops_before) [
  | inl b ↦ stopped-Ends sanitize run_id n x xs w b g
  | inr b ↦
      let (v, e, k) = taken sanitize run_id n x xs w b g in
      elim (Bool-cases x.1.stops_during) [
        | inl d ↦
            let z : suc n ≡ n + reached (x ∷ xs) = ground arith in
            let h =
              ended-Good sanitize run_id (suc n) xs v
                (at_stop run_id (suc n) x.1.stops_during true v.job d k) in
            (
              true,
              subst (λ (u : JobWorld). Good run_id (n + reached (x ∷ xs)) true u.job) (sym e)
                  (at_count run_id (suc n) (n + reached (x ∷ xs)) true
                    (unban_each sanitize run_id xs v).job z h),
            )
        | inr d ↦
            let z : suc n + reached xs ≡ n + reached (x ∷ xs) = ground arith in
            let (s, h) =
              each-Ends sanitize run_id (suc n) xs v
                (at_stop run_id (suc n) x.1.stops_during false v.job d k) in
            (
              s,
              subst (λ (u : JobWorld). Good run_id (n + reached (x ∷ xs)) s u.job) (sym e)
                  (at_count run_id (suc n + reached xs) (n + reached (x ∷ xs)) s
                    (unban_each sanitize run_id xs v).job z h),
            )
      ]
]

abbrev pub one_if : Option String → ℕ
one_if none = 0
one_if (some m) = 1

-- The state of the job after its loop, from the moment that it claimed the slot.
abbrev pub looped :
    (String → String) → UnbanJobState → List (UnbanTarget × Surroundings) → Store → ℤ → ℕ → JobWorld
looped sanitize job xs s total now =
    unban_each sanitize (bump job.run_id) xs
      (record { store = s; job = claimed_job job total "" "unban" now })

claimed-Good :
    (job : UnbanJobState) (total : ℤ) (now : ℕ)
    → Good (bump job.run_id) 0 false (claimed_job job total "" "unban" now)
unfolding claimed_job
claimed-Good job total now = (refl, refl, refl, refl, refl, omega arith)

-- However the enables, the disables that follow and the other threads turn out, the job takes the
-- accounts one by one up to the first stop, and counts each exactly once, as enabled, missing or
-- failed. A save that fails at the end is one failure more. It lists at most 20 failures, and it gives
-- the slot back.
pub unban_job-counts :
    (sanitize : String → String) (job : UnbanJobState) (xs : List (UnbanTarget × Surroundings))
    (s : Store) (total : ℤ) (now end : ℕ) (save_error : Option String)
    → let w = looped sanitize job xs s total now in
      let r = end_unban_job w save_error end in
      (r.job.done ≡ reached xs)
      × (r.job.enabled + r.job.missing + w.job.failed ≡ r.job.done)
      × (r.job.failed ≡ w.job.failed + one_if save_error)
      × (length r.job.failures ≤ 20)
      × (r.job.running ≡ false)
unfolding end_unban_job release_unban_slot
unban_job-counts sanitize job xs s total now end none =
    let start : JobWorld = record { store = s; job = claimed_job job total "" "unban" now } in
    let (t, (r, i, u, d, b, f)) =
      each-Ends sanitize (bump job.run_id) 0 xs start (claimed-Good job total now) in
    (omega arith, omega arith, omega arith, f, refl)
unban_job-counts sanitize job xs s total now end (some m) =
    let start : JobWorld = record { store = s; job = claimed_job job total "" "unban" now } in
    let (t, (r, i, u, d, b, f)) =
      each-Ends sanitize (bump job.run_id) 0 xs start (claimed-Good job total now) in
    (omega arith, omega arith, refl, with_failure-length _ _ f, refl)
