-- ===== src/Ban/Persist/Settled.antt =====
-- Between reconfigurations, no marked change of the pool is forgotten.
use grok_inspection.Base.{
  ℕ, ◌≤◌, String, Bool, true, false, not, ◌||◌, ◌≡◌, refl, sym, ap, subst, ◌∙◌, ◌⊎◌, inl, inr,
  if_cases, arith, if◌then◌else◌,
}
use grok_inspection.Text.{is_empty}
use grok_inspection.Text.Laws.{str_eq_iff, is_empty_iff}
use grok_inspection.Ban.Persist.{
  persists, Phase, absent, waiting, exited, saving, World, start_ban_persist_worker,
  mark_ban_store_dirty, reconfigure_ban_persist_worker, path_of, taken, wake, filed, end_save,
  flush_ban_persist,
}

-- The worker is writing the configured file, from no earlier change.
abbrev pub IsWriting : String → ℕ → Phase → Type 0
IsWriting file marked (saving path from) = (path ≡ file) × (marked ≤ from)
IsWriting file marked absent = ⊥
IsWriting file marked waiting = ⊥
IsWriting file marked exited = ⊥

-- Between reconfigurations: the worker's path is the configured one, if it has any, and the last marked
-- change is in the file, or the worker is to save, or saves.
abbrev pub Kept : World → Type 0
Kept w =
    (w.marked ≤ w.saved)
    ⊎ ((w.worker.dirty ≡ true) ⊎ IsWriting w.config.state_file w.marked w.phase)

abbrev pub Settled : World → Type 0
Settled w =
    (persists w.config ≡ true)
    × ((w.worker.path ≡ "") ⊎ (w.worker.path ≡ w.config.state_file))
    × (w.marked ≤ w.version)
    × Kept w

path_of-file :
    (w : World) → Settled w → (path_of w ≡ w.config.state_file) × (is_empty (path_of w) ≡ false)
unfolding path_of
path_of-file w (p, inl e, m, k) =
    let z = (is_empty_iff w.worker.path).1 e in
    let f : is_empty w.config.state_file ≡ false = ground arith in
    let c : w.config.persist_state ≡ true = ground arith in (rw (z, c) refl, rw (z, c) f)
path_of-file w (p, inr e, m, k) =
    let f : is_empty w.config.state_file ≡ false = ground arith in
    let z : is_empty w.worker.path ≡ false = ap is_empty e ∙ f in (rw z e, rw z z)

started-Settled :
    (w : World) → w.worker.dirty ≡ true → Settled w → Settled (start_ban_persist_worker w)
unfolding start_ban_persist_worker
started-Settled w d (p, e, m, k) =
    if_cases Settled (w.worker.started || w.worker.stop) w _ (λ _. (p, e, m, k))
      λ _. (p, e, m, inr (inl d))

pub mark-Settled : (w : World) → Settled w → Settled (mark_ban_store_dirty w w.config)
unfolding mark_ban_store_dirty
mark-Settled w (p, e, m, k) =
    let dirtied : World = record w {
      worker = record w.worker { path = w.config.state_file; dirty = true };
      marked = w.version;
    } in
    if_cases Settled (not (persists w.config)) w (start_ban_persist_worker dirtied)
      (λ _. (p, e, m, k))
      λ _. started-Settled dirtied refl (p, inr refl, omega arith, inr (inl refl))

taken-Settled : (w : World) → w.phase ≡ waiting → Settled w → Settled (taken w)
unfolding taken
taken-Settled w h (p, e, m, k) =
    let (f, n) = path_of-file w (p, e, m, k) in
    if_cases Settled w.worker.stop _ _ (λ _. (p, e, m, after_wait k))
      λ _.
        if_cases Settled (not w.worker.dirty) w _ (λ _. (p, e, m, k))
          λ _.
            if_cases Settled (is_empty (path_of w)) _ _ (λ y. ground arith)
              λ _. (p, e, m, inr (inr (f, m)))
  where
    after_wait : Kept w → Kept (record w { phase = exited })
    after_wait (inl a) = inl a
    after_wait (inr (inl a)) = inr (inl a)
    after_wait (inr (inr a)) = elim (subst (IsWriting w.config.state_file w.marked) h a) [ ]

pub wake-Settled :
    (w : World) (phase : Phase) → w.phase ≡ phase → Settled w → Settled (wake w phase)
unfolding wake
wake-Settled w waiting h v = taken-Settled w h v
wake-Settled w absent h v = v
wake-Settled w exited h v = v
wake-Settled w (saving path from) h v = v

filed-le : (w : World) (path : String) (from : ℕ) → w.saved ≤ filed w path from
unfolding filed
filed-le w path from = ground arith

filed-here : (w : World) (from : ℕ) → from ≤ filed w w.config.state_file from
unfolding filed
filed-here w from = ground (arith, (str_eq_iff w.config.state_file w.config.state_file).1 refl)

pub end-Settled :
    (w : World) (phase : Phase) (ok : Bool)
    → w.phase ≡ phase
    → Settled w
    → Settled (end_save w phase ok)
unfolding end_save
end-Settled w absent ok h v = v
end-Settled w waiting ok h v = v
end-Settled w exited ok h v = v
end-Settled w (saving path from) true h (p, e, m, inl a) =
    let l = filed-le w path from in (p, e, m, inl (omega arith))
end-Settled w (saving path from) true h (p, e, m, inr (inl a)) = (p, e, m, inr (inl a))
end-Settled w (saving path from) true h (p, e, m, inr (inr a)) =
    let (f, g) = subst (IsWriting w.config.state_file w.marked) h a in
    let l = subst (λ q. from ≤ filed w q from) (sym f) (filed-here w from) in
    (p, e, m, inl (omega arith))
end-Settled w (saving path from) false h (p, e, m, k) =
    if_cases Settled w.worker.stop _ _ (λ _. (p, e, m, inr (inl refl)))
      λ _. (p, e, m, inr (inl refl))

pub flush-Settled : (w : World) (ok : Bool) → Settled w → Settled (flush_ban_persist w ok)
unfolding flush_ban_persist
flush-Settled w ok (p, e, m, k) =
    let path = if is_empty w.worker.path then w.config.state_file else w.worker.path in
    let l = filed-le w path w.version in
    if_cases Settled (not (persists w.config)) w _ (λ _. (p, e, m, k))
      λ _.
        if_cases Settled ok (record w { saved = filed w path w.version }) w
          (λ _. (p, e, m, grown l k)) λ _. (p, e, m, k)
  where
    grown :
        {n : ℕ}
        → w.saved ≤ n
        → Kept w
        → (w.marked ≤ n)
          ⊎ ((w.worker.dirty ≡ true) ⊎ IsWriting w.config.state_file w.marked w.phase)
    grown l (inl a) = inl (omega arith)
    grown l (inr a) = inr a

pub reconfigure-Settled :
    (w : World) (dirty : Bool)
    → persists w.config ≡ true
    → dirty ≡ true
    → w.marked ≤ w.version
    → Settled (reconfigure_ban_persist_worker w w.config dirty)
unfolding reconfigure_ban_persist_worker
reconfigure-Settled w dirty q d m =
    let on : World = record w {
      worker = record w.worker { path = w.config.state_file; dirty = w.worker.dirty || dirty };
    } in
    let b : on.worker.dirty ≡ true = ground arith in
    let v : Settled on = (q, inr refl, m, inr (inl b)) in
    if_cases Settled (not (persists w.config)) _
      (if on.worker.dirty then start_ban_persist_worker on else on) (λ x. ground arith)
      λ _.
        if_cases Settled on.worker.dirty (start_ban_persist_worker on) on
          (λ _. started-Settled on b v) λ _. v
