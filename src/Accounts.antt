-- ===== src/Accounts.antt =====
-- identity.go, engine_types.go and the host's entry of cpasdk/pluginapi/types.go: the auth entries
-- that the host lists, the rows that an inspection keeps of them, and how the two are matched.
pub mod Lookup
pub mod Aliases
pub mod Select
use Prim.Native.Char.{code}
use grok_inspection.Base.{
  ltb, ◌==◌, ℕ, ℤ, pos, String, Bool, true, false, not, ◌&&◌, ◌||◌, List, [], ◌∷◌, map, ◌++◌,
  Option, none, some, if◌then◌else◌,
}
use grok_inspection.Text.{str_eq, is_empty, trim_space, to_lower, lower, concat}
use grok_inspection.Text.Numbers.{show_int}
use grok_inspection.Inspect.Classify.{should_inspect_entry}

-- The fields that the code below reads; `mod_time` is in Unix seconds, none for the zero time.
pub record HostAuthFileEntry : Type 0 where
  pub id : String
  pub auth_index : String
  pub name : String
  pub entry_type : String
  pub provider : String
  pub label : String
  pub status : String
  pub email : String
  pub disabled : Bool
  pub size : ℤ
  pub mod_time : Option ℤ

pub record AccountResult : Type 0 where
  pub auth_index : String
  pub name : String
  pub file_name : String
  pub email : String
  pub file_id : String
  pub file_mod_unix : ℤ
  pub file_size : ℤ
  pub disabled : Bool
  pub classification : String
  pub action : String
  pub reason : String
  pub http_status : ℤ
  pub model : String
  pub error_code : String
  pub error_message : String
  pub ban_error_code : String

-- Membership in a set of texts.
unfoldable pub has : String → List String → Bool
has k [] = false
has k (x ∷ xs) = str_eq x k || has k xs

module _ {ℓ} {A : Type ℓ} where
  -- The first for which the test holds.
  unfoldable pub find : (A → Bool) → List A → Option A
  find p [] = none
  find p (x ∷ xs) = if p x then some x else find p xs

  unfoldable pub or_else : Option A → Option A → Option A
  or_else none b = b
  or_else (some a) b = some a

  -- One loop over the list for each test, the later ones where the earlier ones find nothing.
  unfoldable pub find_by : List (A → Bool) → List A → Option A
  unfolding find or_else
  find_by [] xs = none
  find_by (p ∷ ps) xs = or_else (find p xs) (find_by ps xs)

  -- sort.Slice by a text in byte order, `before a b` being its less.
  insert_sorted : (A → A → Bool) → A → List A → List A
  insert_sorted before x [] = x ∷ []
  insert_sorted before x (y ∷ ys) = if before y x then y ∷ insert_sorted before x ys else x ∷ y ∷ ys

  unfoldable pub sort_slice : (A → A → Bool) → List A → List A
  unfolding insert_sorted
  sort_slice before [] = []
  sort_slice before (x ∷ xs) = insert_sorted before x (sort_slice before xs)

unfoldable pub stable_identity_keys : String → String → String → ℤ → ℤ → List String
unfolding trim_space lower is_empty concat show_int
stable_identity_keys auth_index file_id file_name file_size file_mod_unix =
    let ai = trim_space auth_index in
    let id = trim_space file_id in
    let fn = lower file_name in
    let named =
      if is_empty fn
      then []
      else concat ("fn:" ∷ fn ∷ "|" ∷ show_int file_size ∷ "|" ∷ show_int file_mod_unix ∷ [])
        ∷ [] in
    if not (is_empty ai)
    then concat ("ai:" ∷ ai ∷ []) ∷ []
    else if is_empty id
    then named
    else concat ("id:" ∷ id ∷ []) ∷ named

keys_of : AccountResult → List String
unfolding stable_identity_keys
keys_of item =
    stable_identity_keys item.auth_index item.file_id item.file_name item.file_size
      item.file_mod_unix

unfoldable pub known_result_keys : List AccountResult → List String
unfolding keys_of
known_result_keys [] = []
known_result_keys (item ∷ results) = keys_of item ++ known_result_keys results

any_known : List String → List String → Bool
unfolding has
any_known known [] = false
any_known known (k ∷ ks) = has k known || any_known known ks

unix_or_zero : Option ℤ → ℤ
unix_or_zero none = pos 0
unix_or_zero (some t) = t

unfoldable pub entry_is_known : List String → HostAuthFileEntry → Bool
unfolding any_known stable_identity_keys unix_or_zero
entry_is_known known file =
    any_known known (
      stable_identity_keys file.auth_index file.id file.name file.size (unix_or_zero file.mod_time))

-- a < b on strings.
unfoldable pub str_before : String → String → Bool
str_before s String.[] = false
str_before String.[] (String.◌∷◌ d t) = true
str_before (String.◌∷◌ c s) (String.◌∷◌ d t) =
    let rest = str_before s t in if ltb (code c) (code d) then true else code c == code d && rest

unfoldable pub name_before : HostAuthFileEntry → HostAuthFileEntry → Bool
unfolding to_lower str_before
name_before a b = str_before (to_lower a.name) (to_lower b.name)

new_entries : List HostAuthFileEntry → List String → Bool → Bool → List HostAuthFileEntry
unfolding entry_is_known should_inspect_entry
new_entries [] known include_disabled only_disabled = []
new_entries (file ∷ files) known include_disabled only_disabled =
    let rest = new_entries files known include_disabled only_disabled in
    if not (
      should_inspect_entry file.provider file.name file.entry_type file.disabled file.status
        include_disabled only_disabled)
    then rest
    else if entry_is_known known file
    then rest
    else file ∷ rest

unfoldable pub filter_new_auth_entries :
    List HostAuthFileEntry → List String → Bool → Bool → List HostAuthFileEntry
unfolding new_entries sort_slice name_before
filter_new_auth_entries files known include_disabled only_disabled =
    sort_slice name_before (new_entries files known include_disabled only_disabled)

unfoldable pub classification_matches : String → List String → Bool
unfolding has trim_space
classification_matches class want =
    let c = trim_space class in
    if has c want
    then true
    else if not (has "other" want)
    then false
    else not (
        has c
          ("healthy" ∷ "permission_denied" ∷ "quota_exhausted" ∷ "spending_limit" ∷ "reauth" ∷ []))

unfoldable pub result_identity_match : AccountResult → AccountResult → Bool
unfolding trim_space lower is_empty str_eq
result_identity_match a b =
    if not (is_empty (trim_space a.auth_index))
      && str_eq (trim_space a.auth_index) (trim_space b.auth_index)
    then true
    else not (is_empty (lower a.file_name)) && str_eq (lower a.file_name) (lower b.file_name)

unfoldable pub match_auth_file : List HostAuthFileEntry → AccountResult → Option HostAuthFileEntry
unfolding find or_else trim_space lower is_empty str_eq
match_auth_file files want =
    let ai = trim_space want.auth_index in
    let fn = lower want.file_name in
    let by_index =
      if is_empty ai then none else find (λ file. str_eq (trim_space file.auth_index) ai) files in
    let by_name = if is_empty fn then none else find (λ file. str_eq (lower file.name) fn) files in
    or_else by_index by_name

unfoldable pub probed_key_for_identity : String → String → String
unfolding trim_space lower is_empty concat
probed_key_for_identity auth_index file_name =
    let ai = trim_space auth_index in
    let fn = lower file_name in
    if not (is_empty ai)
    then concat ("ai:" ∷ ai ∷ [])
    else if not (is_empty fn)
    then concat ("name:" ∷ fn ∷ [])
    else ""

unfoldable pub probed_key_set_from_entries : List HostAuthFileEntry → List String
unfolding probed_key_for_identity is_empty
probed_key_set_from_entries [] = []
probed_key_set_from_entries (entry ∷ entries) =
    let rest = probed_key_set_from_entries entries in
    let key = probed_key_for_identity entry.auth_index entry.name in
    if is_empty key then rest else key ∷ rest

unfoldable pub result_in_probed_scope : List String → AccountResult → Bool
unfolding probed_key_for_identity has
result_in_probed_scope scope item =
    let key = probed_key_for_identity item.auth_index item.file_name in
    not (is_empty key) && has key scope

-- The trimmed values that are not empty.
unfoldable pub string_set : List String → List String
unfolding trim_space is_empty
string_set [] = []
string_set (v ∷ vs) =
    let rest = string_set vs in let t = trim_space v in if is_empty t then rest else t ∷ rest
