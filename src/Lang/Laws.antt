-- ===== src/Lang/Laws.antt =====
-- What holds of the languages and of the catalogue.
use grok_inspection.Base.{◌≡◌, refl}
use grok_inspection.Lang.{Lang, zh, en, tag, normalize_lang, translate}

-- A language's own tag is read back as that language.
pub normalize_lang-tag : (l : Lang) → normalize_lang (tag l) ≡ l
unfolding normalize_lang
normalize_lang-tag zh = refl
normalize_lang-tag en = refl

translate_runs : translate en "probe_failed" ≡ "Probe failed"
unfolding translate
translate_runs = refl
