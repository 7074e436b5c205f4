-- ===== src/Accounts/Lookup.antt =====
-- apply_lookup.go and the lookup of apply_run.go: which row or entry a name of a request means.
pub mod Named
pub mod Resolved
use grok_inspection.Base.{
  String, Bool, true, false, not, ◌&&◌, ◌||◌, List, [], ◌∷◌, Option, none, some, if◌then◌else◌,
}
use grok_inspection.Text.{str_eq, is_empty, trim_space, first_non_empty}
use grok_inspection.Accounts.{HostAuthFileEntry, AccountResult, has, find, find_by, or_else}

-- The trimmed field is the name.
is_name : String → String → Bool
unfolding str_eq trim_space
is_name id field = str_eq (trim_space field) id

unfoldable pub find_auth_in_host_list : List HostAuthFileEntry → String → Option HostAuthFileEntry
unfolding find_by is_name is_empty trim_space
find_auth_in_host_list files name =
    let id = trim_space name in
    if is_empty id
    then none
    else find_by
        ((λ file. is_name id file.name || is_name id file.id)
          ∷ (λ file. is_name id file.auth_index)
          ∷ (λ file. is_name id file.email || is_name id file.label)
          ∷ [])
        files

unfoldable pub target_tests : String → List (AccountResult → Bool)
unfolding is_name
target_tests id =
    (λ item. is_name id item.auth_index)
    ∷ (λ item. is_name id item.file_name || is_name id item.file_id)
    ∷ (λ item. is_name id item.name)
    ∷ (λ item. is_name id item.email)
    ∷ []

unfoldable pub resolve_account_result_by_target_id :
    List AccountResult → String → Option AccountResult
unfolding find_by target_tests is_empty trim_space
resolve_account_result_by_target_id results target =
    let id = trim_space target in if is_empty id then none else find_by (target_tests id) results

identity : AccountResult → String
unfolding first_non_empty
identity item =
    first_non_empty (item.auth_index ∷ item.file_name ∷ item.file_id ∷ item.name ∷ item.email ∷ [])

-- `seen` holds the identities of the rows taken so far.
collect : List AccountResult → List String → List String → List AccountResult
unfolding resolve_account_result_by_target_id identity has is_empty
collect results seen [] = []
collect results seen (id ∷ ids) = elim (resolve_account_result_by_target_id results id) [
  | none ↦ collect results seen ids
  | some item ↦
      let key = identity item in
      if is_empty key || has key seen
      then collect results seen ids
      else item ∷ collect results (key ∷ seen) ids
]

unfoldable pub collect_accounts_by_target_ids :
    List AccountResult → List String → List AccountResult
unfolding collect
collect_accounts_by_target_ids results ids = collect results [] ids

unfoldable pub lookup_account_result_by_file_first :
    List AccountResult → String → Option AccountResult
unfolding find_by is_name is_empty trim_space
lookup_account_result_by_file_first results target =
    let id = trim_space target in
    if is_empty id
    then none
    else find_by
        ((λ item. is_name id item.file_name || is_name id item.file_id)
          ∷ (λ item. is_name id item.auth_index)
          ∷ (λ item. is_name id item.name || is_name id item.email)
          ∷ [])
        results

unfoldable pub lookup_result_for_disable :
    List AccountResult → String → String → Option AccountResult
unfolding find or_else is_name is_empty trim_space lookup_account_result_by_file_first
lookup_result_for_disable results name auth_index =
    let ai = trim_space auth_index in
    let by_index =
      if is_empty ai then none else find (λ item. is_name ai item.auth_index) results in
    let by_name = lookup_account_result_by_file_first results (trim_space name) in
    let by_token = if is_empty ai then none else lookup_account_result_by_file_first results ai in
    or_else by_index (or_else by_name by_token)

unfoldable pub disable_action_target_name : AccountResult → String
unfolding first_non_empty
disable_action_target_name item =
    first_non_empty (item.file_name ∷ item.auth_index ∷ item.name ∷ item.email ∷ [])

-- The field is set and equal to one of the texts.
is_one_of : String → List String → Bool
unfolding is_empty has
is_one_of field texts = not (is_empty field) && has field texts

matches_entry : AccountResult → Option HostAuthFileEntry → Bool
unfolding is_one_of
matches_entry item none = false
matches_entry item (some target) =
    is_one_of item.auth_index (target.auth_index ∷ [])
    || is_one_of item.file_name (target.name ∷ target.id ∷ [])
    || is_one_of item.file_id (target.name ∷ target.id ∷ [])
    || is_one_of item.name (target.name ∷ target.email ∷ target.id ∷ [])

unfoldable pub result_matches_target : AccountResult → Option HostAuthFileEntry → String → Bool
unfolding matches_entry trim_space is_empty has
result_matches_target item target name =
    let n = trim_space name in
    if matches_entry item target
    then true
    else if is_empty n
    then false
    else has n (item.auth_index ∷ item.file_name ∷ item.file_id ∷ item.name ∷ item.email ∷ [])
