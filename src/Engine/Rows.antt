-- ===== src/Engine/Rows.antt =====
-- identity.go: how a row enters the results, the row of an account that a stop leaves unprobed, and
-- the classes that a request names.
use grok_inspection.Base.{
  ℤ, pos, String, Bool, true, false, not, ◌&&◌, ◌||◌, List, [], ◌∷◌, ◌≡◌, refl, Option, none, some,
  if◌then◌else◌,
}
use grok_inspection.Text.{str_eq, concat, lower, is_empty, trim_space, first_non_empty}
use grok_inspection.Lang.{Lang, translate}
use grok_inspection.Inspect.Classify.{is_disabled_entry}
use grok_inspection.Accounts.{
  HostAuthFileEntry, AccountResult, has, sort_slice, str_before, stable_identity_keys,
  result_identity_match, classification_matches, match_auth_file, name_before, known_result_keys,
}

-- Each trimmed value once; `seen` holds those taken so far.
distinct : List String → List String → List String
unfolding trim_space is_empty has
distinct seen [] = []
distinct seen (value ∷ values) =
    let v = trim_space value in
    let skipped = distinct seen values in
    let taken = distinct (v ∷ seen) values in
    if is_empty v then skipped else if has v seen then skipped else v ∷ taken

unfoldable pub normalize_classifications : List String → List String
unfolding distinct sort_slice str_before
normalize_classifications values = sort_slice str_before (distinct [] values)

unfoldable pub is_any_matched : List AccountResult → List String → Bool
unfolding classification_matches
is_any_matched [] want = false
is_any_matched (item ∷ results) want =
    let rest = is_any_matched results want in
    if classification_matches item.classification want then true else rest

-- The row takes the place of the first that findResultIndex finds for it, or the last place.
unfoldable pub put_result : List AccountResult → AccountResult → List AccountResult
unfolding result_identity_match
put_result [] want = want ∷ []
put_result (item ∷ results) want =
    let rest = put_result results want in
    if result_identity_match item want then want ∷ results else item ∷ rest

mod_unix : Option ℤ → ℤ
mod_unix none = pos 0
mod_unix (some t) = t

-- `lang` is the language of the stop, once normalizeLang has read it.
unfoldable pub cancelled_account_result : HostAuthFileEntry → String → Lang → AccountResult
unfolding first_non_empty is_disabled_entry translate mod_unix
cancelled_account_result file model lang = record {
  auth_index = file.auth_index;
  name = first_non_empty (file.email ∷ file.label ∷ file.name ∷ file.auth_index ∷ file.id ∷ []);
  file_name = file.name;
  email = file.email;
  file_id = file.id;
  file_mod_unix = mod_unix file.mod_time;
  file_size = file.size;
  disabled = file.disabled || is_disabled_entry file.disabled file.status;
  classification = "probe_error";
  action = "keep";
  reason = translate lang "stopped_before_probe";
  http_status = pos 0;
  model = model;
  error_code = "";
  error_message = "";
  ban_error_code = "";
}

-- The loose match where the entry has no stable key.
loose_match : List AccountResult → HostAuthFileEntry → String → Bool
unfolding is_empty str_eq
loose_match [] file name = false
loose_match (item ∷ results) file name =
    let rest = loose_match results file name in
    if not (is_empty item.auth_index) && str_eq item.auth_index file.auth_index
    then true
    else if not (is_empty name)
        && (str_eq item.name name || str_eq item.email name || str_eq item.file_name file.name)
    then true
    else rest

shares_key : List String → List String → Bool
unfolding has
shares_key [] want = false
shares_key (k ∷ ks) want = has k want || shares_key ks want

unfoldable pub result_contains_auth_file : List AccountResult → HostAuthFileEntry → Bool
unfolding stable_identity_keys mod_unix loose_match first_non_empty shares_key known_result_keys
result_contains_auth_file results file =
    elim (stable_identity_keys file.auth_index file.id file.name file.size
      (mod_unix file.mod_time)) [
        | [] ↦
            loose_match results file (
              first_non_empty
                (file.email ∷ file.label ∷ file.name ∷ file.auth_index ∷ file.id ∷ []))
        | k ∷ ks ↦ shares_key (known_result_keys results) (k ∷ ks)
      ]

key_of : HostAuthFileEntry → String
unfolding trim_space lower is_empty concat
key_of file =
    let ai = trim_space file.auth_index in
    if is_empty ai then concat ("name:" ∷ lower file.name ∷ []) else concat ("ai:" ∷ ai ∷ [])

-- The entries of the rows, each once, and the rows without one; `seen` holds the keys so far.
classified :
    List HostAuthFileEntry
    → List String
    → List AccountResult
    → List HostAuthFileEntry × List AccountResult
unfolding match_auth_file key_of has
classified files seen [] = ([], [])
classified files seen (item ∷ selected) = elim (match_auth_file files item) [
  | none ↦ let rest = classified files seen selected in (rest.0, item ∷ rest.1)
  | some file ↦
      let again = classified files seen selected in
      let rest = classified files (key_of file ∷ seen) selected in
      if has (key_of file) seen then again else (file ∷ rest.0, rest.1)
]

unfoldable pub resolve_classify_targets :
    List HostAuthFileEntry → List AccountResult → List HostAuthFileEntry × List AccountResult
unfolding classified sort_slice name_before
resolve_classify_targets files selected =
    let found = classified files [] selected in (sort_slice name_before found.0, found.1)

pub normalize_classifications_nil : normalize_classifications [] ≡ []
unfolding normalize_classifications distinct sort_slice
normalize_classifications_nil = refl
