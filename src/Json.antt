-- ===== src/Json.antt =====
-- What encoding/json makes of a response body, and the reads of it in ban_detector.go and
-- classify.go. The parser itself is Go's: a `Body` is the text with what the parser decodes it to.
use grok_inspection.Base.{String, Bool, true, false, [], ◌∷◌, Option, none, some, if◌then◌else◌}
use grok_inspection.Text.{
  str_eq, is_empty, to_lower, trim_space, first_non_empty, truncate_err_message,
}

-- A number is kept as strconv.FormatFloat(x, 'f', -1, 64) prints it.
mutual
  pub data Json : Type 0 where
    null : Json
    bool : Bool → Json
    num : String → Json
    str : String → Json
    arr : Items → Json
    obj : Fields → Json

  pub data Items : Type 0 where
    nil : Items
    item : Json → Items → Items

  pub data Fields : Type 0 where
    end : Fields
    field : String → Json → Fields → Fields

-- `decoded` is none where json.Unmarshal reports a syntax error.
pub record Body : Type 0 where
  pub text : String
  pub decoded : Option Json

-- The value of a key in a decoded map: of two equal keys the last.
unfoldable pub get : Fields → String → Option Json
unfolding str_eq
get end key = none
get (field k v rest) key = elim (get rest key) [
  | none ↦ if str_eq k key then some v else none
  | some later ↦ some later
]

-- classify.go asString of a map's value; a missing key is Go's nil.
unfoldable pub as_string : Option Json → String
unfolding trim_space
as_string none = ""
as_string (some null) = ""
as_string (some (bool true)) = "true"
as_string (some (bool false)) = "false"
as_string (some (num text)) = text
as_string (some (str text)) = trim_space text
as_string (some (arr xs)) = ""
as_string (some (obj fs)) = ""

-- A struct field of type string: null leaves it, a text sets it, and any other value is an error.
-- Keys are matched without regard to case.
unfoldable pub string_field : String → Option String → Fields → Option String
unfolding str_eq to_lower
string_field name value end = value
string_field name value (field k v rest) =
    let kept = string_field name value rest in
    let read : Option String = elim v [
      | null ↦ kept
      | str text ↦ string_field name (set_text value text) rest
      | bool b ↦ none
      | num n ↦ none
      | arr xs ↦ none
      | obj fs ↦ none
    ] in
    if str_eq (to_lower k) name then read else kept
  where
    set_text : Option String → String → Option String
    set_text none text = none
    set_text (some old) text = some text

-- A struct field of type any: the last value for the key, without regard to case.
unfoldable pub any_field : String → Json → Fields → Json
unfolding str_eq to_lower
any_field name value end = value
any_field name value (field k v rest) =
    any_field name (if str_eq (to_lower k) name then v else value) rest

-- classify.go probeError
pub record ProbeError : Type 0 where
  pub code : String
  pub message : String

abbrev error_code_of : String → Json → String
error_code_of code (obj e) = if is_empty code then as_string (get e "code") else code
error_code_of code other = code

abbrev error_message_of : Json → String
error_message_of (obj e) =
    first_non_empty (as_string (get e "message") ∷ as_string (get e "error") ∷ [])
error_message_of (str text) = text
error_message_of other = ""

abbrev or_null : Option Json → Json
or_null none = null
or_null (some v) = v

-- extractError on a body that decodes to a map (nil for null).
extract_from : Fields → ProbeError
extract_from fs =
    let err = or_null (get fs "error") in
    let message = error_message_of err in
    record {
      code = error_code_of (as_string (get fs "code")) err;
      message =
          truncate_err_message (if is_empty message then as_string (get fs "message") else message)
            400;
    }

plain_error : String → ProbeError
plain_error body = record { code = ""; message = truncate_err_message body 400 }

unfoldable pub extract_error : Body → ProbeError
unfolding extract_from plain_error get as_string is_empty trim_space first_non_empty
    truncate_err_message
extract_error body =
    let text = trim_space body.text in
    let fallback = plain_error text in
    let parsed : ProbeError = elim body.decoded [
      | none ↦ fallback
      | some null ↦ extract_from end
      | some (obj fs) ↦ extract_from fs
      | some other ↦ fallback
    ] in
    if is_empty text then record { code = ""; message = "" } else parsed
