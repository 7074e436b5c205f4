-- ===== src/Schedule/Store/Restart.antt =====
-- What a restart reads back is what the settings were.
use grok_inspection.Base.{
  ℕ, String, Bool, true, false, ◌≡◌, refl, sym, ap, ◌∙◌, subst, ◌⊎◌, inl, inr, List, [], ◌∷◌, some,
  if◌then◌else◌,
}
use grok_inspection.Schedule.Settings.{Schedule, Counters, normalize_schedule}
use grok_inspection.Schedule.Settings.Normal.{
  IsValid, normalize_schedule-IsValid, normalize_schedule_id,
}
use grok_inspection.Schedule.Store.{
  Saved, InspectionScheduleUpdate, update_schedule, set_runtime_status, load,
}
use grok_inspection.Schedule.Store.Committed.{Outcome, accepted, refused, update_schedule-Outcome}

-- A call of one of the two writers of the settings; the write of a status succeeds.
pub data Call : Type 0 where
  updates : InspectionScheduleUpdate → Bool → ℕ → Call
  reports : String → String → ℕ → Counters → ℕ → Call

-- The file holds the settings, and they are in order.
pub record InStep (s : Saved) : Type 0 where
  pub filed : s.file ≡ some s.memory
  pub valid : IsValid s.memory

dated : (enabled : Bool) (date : String) → (enabled ≡ true) ⊎ ((if enabled then date else "") ≡ "")
dated true date = inl refl
dated false date = inr refl

module _ (print : ℕ → String) where
  unfoldable pub call : Saved → Call → Saved
  unfolding update_schedule set_runtime_status
  call s (updates req write_ok now) = (update_schedule print s req write_ok now).0
  call s (reports status error started c now) =
      set_runtime_status print s status error started c true now

  unfoldable pub calls : Saved → List Call → Saved
  unfolding call
  calls s [] = s
  calls s (c ∷ cs) = calls (call s c) cs

  status-IsValid :
      (s : Saved) (status error : String) (started : ℕ) (c : Counters) (write_ok : Bool) (now : ℕ)
      → IsValid (set_runtime_status print s status error started c write_ok now).memory
  unfolding set_runtime_status
  status-IsValid s status error started c write_ok now =
      let v = normalize_schedule-IsValid s.memory in
      record {
        interval = v.interval;
        workers = v.workers;
        denied = v.denied;
        limited = v.limited;
        sample = v.sample;
        exclusive = v.exclusive;
        next = dated (normalize_schedule s.memory).enabled _;
      }

  status-InStep :
      (s : Saved) (status error : String) (started : ℕ) (c : Counters) (now : ℕ)
      → InStep (set_runtime_status print s status error started c true now)
  status-InStep s status error started c now =
      let v = status-IsValid s status error started c true now in
      record {
        filed =
            unfold set_runtime_status in ap (λ (x : Schedule). some x) (normalize_schedule_id _ v);
        valid = v;
      }

  Outcome-InStep :
      (s : Saved) (req : InspectionScheduleUpdate) (b : Bool) (now : ℕ)
      → InStep s
      → Outcome print s req (update_schedule print s req b now)
      → InStep (update_schedule print s req b now).0
  Outcome-InStep s req b now v (accepted cfg r follows valid m f) = record {
    filed = f ∙ ap (λ (x : Schedule). some x) (sym m);
    valid = subst IsValid (sym m) valid;
  }
  Outcome-InStep s req b now v (refused cfg e r same) = subst InStep (sym same) v

  calls-InStep : (s : Saved) (cs : List Call) → InStep s → InStep (calls s cs)
  unfolding calls call
  calls-InStep s [] v = v
  calls-InStep s (updates req b now ∷ cs) v =
      calls-InStep (update_schedule print s req b now).0 cs
        (Outcome-InStep s req b now v (update_schedule-Outcome print s req b now))
  calls-InStep s (reports status error started c now ∷ cs) v =
      calls-InStep (set_runtime_status print s status error started c true now) cs
        (status-InStep s status error started c now)

  -- From settings in order that the file holds, whatever updates come, accepted, refused or not
  -- written, and whatever statuses are written, a restart reads back the settings in memory.
  pub load-calls :
      (s : Saved) (cs : List Call) → InStep s → load (calls s cs).file ≡ (calls s cs).memory
  unfolding load
  load-calls s cs v =
      let w = calls-InStep s cs v in
      ap load w.filed ∙ normalize_schedule_id (calls s cs).memory w.valid
