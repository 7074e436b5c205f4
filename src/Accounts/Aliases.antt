-- ===== src/Accounts/Aliases.antt =====
-- apply_lookup.go: the entry that a row stands for, and the names under which a ban may know an account
-- (hostAuthFromAccountResult, findAuthFromResults, banAliases, banIDMatchesAliases).
use Prim.Native.Char.{code}
use grok_inspection.Base.{
  pos, String, Bool, false, ◌||◌, List, [], ◌∷◌, Option, none, some, ◌==◌, if◌then◌else◌,
}
use grok_inspection.Text.{str_eq, is_empty, trim_space, first_non_empty}
use grok_inspection.Accounts.{HostAuthFileEntry, AccountResult, has, find_by, string_set}

-- The fields that the entry does not set are empty.
unfoldable pub host_auth_from_account_result : AccountResult → Option HostAuthFileEntry
unfolding first_non_empty is_empty trim_space
host_auth_from_account_result item =
    let name = first_non_empty (item.file_name ∷ item.name ∷ []) in
    if is_empty (trim_space name)
    then none
    else some (record {
      id = first_non_empty (item.file_name ∷ item.auth_index ∷ []);
      auth_index = item.auth_index;
      name = name;
      entry_type = "";
      provider = "";
      label = "";
      status = "";
      email = item.email;
      disabled = item.disabled;
      size = pos 0;
      mod_time = none;
    })

entry_of : Option AccountResult → Option HostAuthFileEntry
unfolding host_auth_from_account_result
entry_of none = none
entry_of (some item) = host_auth_from_account_result item

unfoldable pub find_auth_from_results : List AccountResult → String → Option HostAuthFileEntry
unfolding entry_of find_by str_eq trim_space is_empty
find_auth_from_results results name =
    let n = trim_space name in
    let found =
      find_by
        ((λ item. str_eq (trim_space item.file_name) n || str_eq (trim_space item.file_id) n)
          ∷ (λ item. str_eq (trim_space item.auth_index) n)
          ∷ (λ item. str_eq (trim_space item.name) n || str_eq (trim_space item.email) n)
          ∷ [])
        results in
    if is_empty n then none else entry_of found

names_of : Option HostAuthFileEntry → List String
names_of none = []
names_of (some t) = t.auth_index ∷ t.name ∷ t.id ∷ t.email ∷ t.label ∷ []

unfoldable pub ban_aliases : Option HostAuthFileEntry → String → List String
unfolding names_of string_set
ban_aliases target name = string_set (name ∷ names_of target)

-- What follows the last slash or backslash.
last_part : String → String → String
last_part whole String.[] = whole
last_part whole (String.◌∷◌ c s) =
    let rest = last_part s s in
    let kept = last_part whole s in if code c == b'/' || code c == b'\\' then rest else kept

unfoldable pub ban_id_matches_aliases : String → List String → Bool
unfolding last_part trim_space is_empty has
ban_id_matches_aliases auth_id aliases =
    let id = trim_space auth_id in
    if is_empty id then false else has id aliases || has (last_part id id) aliases
