-- ===== src/Lang.antt =====
-- i18n.go: the two languages of the operator's messages, and the lookup T without arguments.
mod Messages
pub mod Laws
pub use Messages.{Message, messages}
use grok_inspection.Base.{String, List, [], ◌∷◌, if◌then◌else◌}
use grok_inspection.Text.{lower, has_prefix, is_empty, str_eq}

pub data Lang : Type 0 where
  zh en : Lang

-- The tag that the Go constant stands for.
abbrev pub tag : Lang → String
tag zh = "zh"
tag en = "en"

unfoldable pub normalize_lang : String → Lang
unfolding lower has_prefix is_empty
normalize_lang value =
    let v = lower value in
    if is_empty v
    then zh
    else if has_prefix v "en"
    then en
    else if has_prefix v "zh"
    then zh
    else zh

-- The text of one entry in one language. A Go map gives "" for a missing key.
unfoldable pub text_of : Lang → List Message → String → String
unfolding str_eq
text_of lang [] key = ""
text_of zh (m ∷ ms) key = if str_eq m.key key then m.zh else text_of zh ms key
text_of en (m ∷ ms) key = if str_eq m.key key then m.en else text_of en ms key

-- T(lang, key): the Chinese text stands in for a missing one, and then the key.
unfoldable pub translate : Lang → String → String
unfolding text_of is_empty
translate lang key =
    let text = text_of lang messages key in
    let chinese = text_of zh messages key in
    if is_empty text then (if is_empty chinese then key else chinese) else text

unfoldable pub localized_action_verb : Lang → String → String
unfolding lower str_eq translate
localized_action_verb lang action =
    let a = lower action in
    if str_eq a "disable"
    then translate lang "act_disable"
    else if str_eq a "enable"
    then translate lang "act_enable"
    else if str_eq a "delete"
    then translate lang "act_delete"
    else action
