-- ===== src/Ban/Persist/Leaves.antt =====
-- The steps that do not touch the configuration.
use grok_inspection.Base.{◌≤◌, Bool, true, false, not, ◌||◌, ◌≡◌, refl, if_cases, arith}
use grok_inspection.Text.{is_empty}
use grok_inspection.Ban.Persist.{
  Config, persists, Phase, absent, waiting, exited, saving, World, start_ban_persist_worker,
  mark_ban_store_dirty, path_of, taken, wake, end_save, flush_ban_persist,
}

-- A step of the worker or of a marker does not touch the configuration.
abbrev pub Leaves : World → World → Type 0
Leaves w w' = (w'.config ≡ w.config) × (w'.retarget ≡ w.retarget) × (w'.marked ≤ w'.version)

start-Leaves : (w : World) → w.marked ≤ w.version → Leaves w (start_ban_persist_worker w)
unfolding start_ban_persist_worker
start-Leaves w m =
    if_cases (Leaves w) (w.worker.started || w.worker.stop) w _ (λ _. (refl, refl, m))
      λ _. (refl, refl, m)

pub mark-Leaves :
    (w : World) (cfg : Config) → w.marked ≤ w.version → Leaves w (mark_ban_store_dirty w cfg)
unfolding mark_ban_store_dirty
mark-Leaves w cfg m =
    let dirtied : World = record w {
      worker = record w.worker { path = cfg.state_file; dirty = true };
      marked = w.version;
    } in
    if_cases (Leaves w) (not (persists cfg)) w (start_ban_persist_worker dirtied)
      (λ _. (refl, refl, m)) λ _. start-Leaves dirtied (omega arith)

taken-Leaves : (w : World) → w.marked ≤ w.version → Leaves w (taken w)
unfolding taken
taken-Leaves w m =
    if_cases (Leaves w) w.worker.stop _ _ (λ _. (refl, refl, m))
      λ _.
        if_cases (Leaves w) (not w.worker.dirty) w _ (λ _. (refl, refl, m))
          λ _.
            if_cases (Leaves w) (is_empty (path_of w)) _ _ (λ _. (refl, refl, m))
              λ _. (refl, refl, m)

pub wake-Leaves : (w : World) (phase : Phase) → w.marked ≤ w.version → Leaves w (wake w phase)
unfolding wake
wake-Leaves w waiting m = taken-Leaves w m
wake-Leaves w absent m = (refl, refl, m)
wake-Leaves w exited m = (refl, refl, m)
wake-Leaves w (saving path from) m = (refl, refl, m)

pub end-Leaves :
    (w : World) (phase : Phase) (ok : Bool) → w.marked ≤ w.version → Leaves w (end_save w phase ok)
unfolding end_save
end-Leaves w absent ok m = (refl, refl, m)
end-Leaves w waiting ok m = (refl, refl, m)
end-Leaves w exited ok m = (refl, refl, m)
end-Leaves w (saving path from) true m = (refl, refl, m)
end-Leaves w (saving path from) false m =
    if_cases (Leaves w) w.worker.stop _ _ (λ _. (refl, refl, m)) λ _. (refl, refl, m)

pub flush-Leaves :
    (w : World) (ok : Bool) → w.marked ≤ w.version → Leaves w (flush_ban_persist w ok)
unfolding flush_ban_persist
flush-Leaves w ok m =
    if_cases (Leaves w) (not (persists w.config)) w _ (λ _. (refl, refl, m))
      λ _. if_cases (Leaves w) ok _ w (λ _. (refl, refl, m)) λ _. (refl, refl, m)
