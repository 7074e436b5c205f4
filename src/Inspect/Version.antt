-- ===== src/Inspect/Version.antt =====
-- xai_version.go: the version that a probe names, refreshed from the npm registry
-- (refreshXAIInspectionVersion, parseXAINPMVersion, acceptableXAIInspectionVersion and its parts).
pub mod Floor
use Prim.Native.Char.{code}
use grok_inspection.Base.{
  ℕ, ℤ, pos, ltb_ℤ, ◌==ℤ◌, String, Bool, true, false, not, ◌&&◌, ◌||◌, List, [], ◌∷◌, Option, none,
  some, ◌==◌, length, if◌then◌else◌,
}
use grok_inspection.Text.{str_eq, is_empty, trim_space, split}
use grok_inspection.Text.Numbers.{parse_int, all_digits}
use grok_inspection.Json.{Json, Body, string_field, null, obj}

abbrev pub default_version : String
default_version = "1.0.46"

abbrev pub server_floor : String
server_floor = "1.0.13"

all_numeric : List String → Bool
all_numeric [] = true
all_numeric (p ∷ ps) = not (is_empty p) && all_digits p && all_numeric ps

unfoldable pub is_strict_semver : String → Bool
unfolding split all_numeric is_empty all_digits
is_strict_semver version =
    let parts = split b'.' version in if length parts == 3 then all_numeric parts else false

-- g != f gives the answer g > f; equal parts leave it to the rest.
compare_part : Option ℤ → Option ℤ → Bool → Bool
compare_part none f rest = false
compare_part (some g) none rest = false
compare_part (some g) (some f) rest = if ltb_ℤ f g then true else if ltb_ℤ g f then false else rest

-- A part that is missing counts as 0.
at_least_parts : List String → List String → Bool
unfolding compare_part parse_int
at_least_parts [] [] = true
at_least_parts (g ∷ gs) [] =
    let rest = at_least_parts gs [] in compare_part (parse_int g) (some (pos 0)) rest
at_least_parts [] (f ∷ fs) =
    let rest = at_least_parts [] fs in compare_part (some (pos 0)) (parse_int f) rest
at_least_parts (g ∷ gs) (f ∷ fs) =
    let rest = at_least_parts gs fs in compare_part (parse_int g) (parse_int f) rest

unfoldable pub version_at_least : String → String → Bool
unfolding at_least_parts split
version_at_least got floor = at_least_parts (split b'.' got) (split b'.' floor)

unfoldable pub acceptable_version : String → Bool
unfolding is_strict_semver version_at_least
acceptable_version version =
    if not (is_strict_semver version) then false else version_at_least version server_floor

accept : Option String → Option String
unfolding trim_space is_empty
accept none = none
accept (some version) =
    let v = trim_space version in
    if is_empty v then none else if not (acceptable_version v) then none else some v

-- The decoded object's version; none for what does not decode into it.
version_of : Option Json → Option String
unfolding accept string_field
version_of none = none
version_of (some null) = accept (some "")
version_of (some (obj fs)) = accept (string_field "version" (some "") fs)
version_of (some other) = none

-- none stands for an error.
unfoldable pub parse_npm_version : Body → Option String
unfolding version_of
parse_npm_version body = if is_empty (trim_space body.text) then none else version_of body.decoded

-- What the host answers to the lookup: an error or a timeout, or a status with a body.
pub data Answer : Type 0 where
  fails : Answer
  answers : ℤ → Body → Answer

unfoldable pub fetch_npm_latest_version : Answer → Option String
unfolding parse_npm_version
fetch_npm_latest_version fails = none
fetch_npm_latest_version (answers status body) =
    if status ==ℤ 200 then parse_npm_version body else none

-- The cached version after a refresh: a failed lookup keeps it.
unfoldable pub refresh_version : String → Answer → String
unfolding fetch_npm_latest_version
refresh_version cached answer = elim (fetch_npm_latest_version answer) [
  | none ↦ cached
  | some version ↦ if not (str_eq cached version) then version else cached
]

unfoldable pub refreshes : String → List Answer → String
refreshes cached [] = cached
refreshes cached (a ∷ as') = refreshes (refresh_version cached a) as'
