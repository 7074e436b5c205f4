-- ===== src/Accounts/Select/Chosen.antt =====
-- Which rows an apply request acts on, and how.
use grok_inspection.Base.{String, true, false, ◌≡◌, ◌⊎◌, List, [], ◌∷◌, some}
use grok_inspection.Text.{str_eq, is_empty, lower}
use grok_inspection.Accounts.{AccountResult, has, string_set}
use grok_inspection.Accounts.Lookup.{resolve_account_result_by_target_id}
use mathlib.Core.List.{Memᴰ}
use grok_inspection.Accounts.Select.{ApplyRequest, none_named, forced}

abbrev pub IsAction : String → Type 0
IsAction action = has action ("disable" ∷ "enable" ∷ "delete" ∷ []) ≡ true

-- The request is for the row: it names no accounts, or the row is the one that one of the names that it
-- gives stands for.
abbrev pub IsTarget : List AccountResult → ApplyRequest → AccountResult → Type 0
IsTarget results req row =
    Memᴰ row results
    × ((none_named (string_set req.auth_indexes) ≡ true)
        ⊎ ((id : String) × Memᴰ id req.auth_indexes
            × (resolve_account_result_by_target_id results id ≡ some row)))

-- The candidate is that row: only the action and the reason of a ban are its own.
pub record IsRow (row c : AccountResult) : Type 0 where
  pub auth_index : c.auth_index ≡ row.auth_index
  pub name : c.name ≡ row.name
  pub file_name : c.file_name ≡ row.file_name
  pub email : c.email ≡ row.email
  pub file_id : c.file_id ≡ row.file_id
  pub disabled : c.disabled ≡ row.disabled
  pub classification : c.classification ≡ row.classification
  pub error_code : c.error_code ≡ row.error_code

-- The row is of a class that the request names, if it names any; its action is the forced one, or
-- one of the actions that the request names, if it names any; and a disable states its reason.
pub record IsCandidate (req : ApplyRequest) (c : AccountResult) : Type 0 where
  pub action : IsAction c.action
  pub class :
      (none_named (string_set req.classifications) ≡ true)
      ⊎ (has c.classification (string_set req.classifications) ≡ true)
  pub forced : (is_empty (lower req.force_action) ≡ true) ⊎ (c.action ≡ lower req.force_action)
  pub named :
      (is_empty (lower req.force_action) ≡ false)
      ⊎ (none_named (string_set req.actions) ≡ true)
      ⊎ (has c.action (string_set req.actions) ≡ true)
  pub reason : (str_eq c.action "disable" ≡ false) ⊎ (is_empty c.ban_error_code ≡ false)

InClass : ApplyRequest → AccountResult → Type 0
InClass req item =
    (none_named (string_set req.classifications) ≡ true)
    ⊎ (has item.classification (string_set req.classifications) ≡ true)

-- A row that the request acts on.
abbrev pub IsChosen : List AccountResult → ApplyRequest → AccountResult → Type 0
IsChosen results req c =
    IsCandidate req c × ((row : AccountResult) × IsTarget results req row × IsRow row c)
