-- ===== src/Engine/Plan.antt =====
-- engine.go, run: the accounts that a run probes, out of those that the host lists, and the rows that it
-- writes for accounts that the host no longer lists. `draw` is the random source of a sample.
use grok_inspection.Base.{
  ℕ, pos, String, Bool, true, false, not, ◌&&◌, ◌||◌, List, [], ◌∷◌, length, if◌then◌else◌,
}
use grok_inspection.Lang.{Lang, translate}
use grok_inspection.Accounts.{
  HostAuthFileEntry, AccountResult, string_set, known_result_keys, classification_matches,
  filter_new_auth_entries, sort_slice, name_before,
}
use grok_inspection.Inspect.Classify.{is_xai_entry, should_inspect_entry}
use grok_inspection.Inspect.Sample.{
  SampleError, SampleResult, resolve_sample_size, sample_auth_entries,
}
use grok_inspection.Inspect.Sample.SampleResult.{ok, err}
use grok_inspection.Engine.Rows.{resolve_classify_targets}
use grok_inspection.Engine.State.{InspectionEngine}

-- The targets, the rows without an entry, and whether rows are merged into the results; or the error
-- of the sample's size.
pub record Targets : Type 0 where
  pub targets : List HostAuthFileEntry
  pub missing : List AccountResult
  pub merges : Bool

pub data Planned : Type 0 where
  plans : Targets → Planned
  sample_fails : SampleError → Planned

selected_rows : List AccountResult → List String → List AccountResult
unfolding classification_matches
selected_rows [] want = []
selected_rows (item ∷ results) want =
    let rest = selected_rows results want in
    if classification_matches item.classification want then item ∷ rest else rest

inspectable : InspectionEngine → HostAuthFileEntry → Bool
unfolding should_inspect_entry
inspectable e file =
    should_inspect_entry file.provider file.name file.entry_type file.disabled file.status
      e.include_disabled e.only_disabled

-- A run by class keeps disabled accounts, unless it is a sample too.
in_class : InspectionEngine → List HostAuthFileEntry → List HostAuthFileEntry
unfolding is_xai_entry inspectable
in_class e [] = []
in_class e (file ∷ files) =
    let rest = in_class e files in
    if not (is_xai_entry file.provider file.name file.entry_type)
    then rest
    else if e.sample_mode && not (inspectable e file)
    then rest
    else file ∷ rest

all_inspectable : InspectionEngine → List HostAuthFileEntry → List HostAuthFileEntry
unfolding inspectable
all_inspectable e [] = []
all_inspectable e (file ∷ files) =
    let rest = all_inspectable e files in if inspectable e file then file ∷ rest else rest

named : List String → Bool
named [] = false
named (x ∷ xs) = true

chosen : InspectionEngine → List HostAuthFileEntry → Targets
unfolding selected_rows in_class all_inspectable resolve_classify_targets string_set
    known_result_keys filter_new_auth_entries sort_slice name_before named
chosen e files =
    let want = string_set e.classifications in
    let found = resolve_classify_targets files (selected_rows e.results want) in
    let merges = named want || e.sample_mode in
    let by_class : Targets = record {
      targets = in_class e found.0;
      missing = found.1;
      merges = merges;
    } in
    let fresh : Targets = record {
      targets =
          filter_new_auth_entries files (known_result_keys e.results) e.include_disabled
            e.only_disabled;
      missing = [];
      merges = merges;
    } in
    let all : Targets = record {
      targets = sort_slice name_before (all_inspectable e files);
      missing = [];
      merges = merges;
    } in
    if named want then by_class else if e.incremental then fresh else all

sampled : Targets → (ℕ → ℕ) → SampleResult → Planned
unfolding sample_auth_entries
sampled t draw (err x) = sample_fails x
sampled t draw (ok size) = plans (record {
  targets = sample_auth_entries t.targets (pos size) draw;
  missing = [];
  merges = t.merges;
})

-- The engine's fields are those that the start of the run has set.
unfoldable pub plan_run : InspectionEngine → List HostAuthFileEntry → (ℕ → ℕ) → Planned
unfolding chosen sampled resolve_sample_size
plan_run e files draw =
    let t = chosen e files in
    let size = resolve_sample_size (pos (length t.targets)) e.sample_count e.sample_percent in
    let drawn = sampled t draw size in if e.sample_mode then drawn else plans t

-- The row of an account that the host does not list any more.
unfoldable pub missed_row : Bool → Lang → AccountResult → AccountResult
unfolding translate
missed_row is_stopped lang item = record item {
  classification = "probe_error";
  action = "keep";
  reason = translate lang (if is_stopped then "stopped_before_probe" else "account_missing");
  http_status = pos 0;
  error_code = "";
  error_message = "";
}
