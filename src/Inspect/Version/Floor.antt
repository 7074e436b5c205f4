-- ===== src/Inspect/Version/Floor.antt =====
-- The version that a probe names never falls below the server's floor.
use grok_inspection.Text.{str_eq, is_empty, split}
use grok_inspection.Text.Numbers.{parse_int, all_digits}
use grok_inspection.Base.{
  ℤ, pos, ltb_ℤ, Bool, false, not, refl, subst, ◌⊎◌, ◌==◌, length, if_cases, if◌then◌else◌, String,
  true, ◌≡◌, List, [], ◌∷◌, Option, none, some, inl, inr, arith,
}
use grok_inspection.Json.{Json, Body, null, obj, string_field}
use grok_inspection.Inspect.Version.{
  all_numeric, is_strict_semver, version_at_least, compare_part, at_least_parts, server_floor,
  acceptable_version, accept, version_of, parse_npm_version, Answer, fails, answers,
  fetch_npm_latest_version, refresh_version, refreshes,
}

-- Not below the other number.
abbrev pub IsFrom : ℤ → ℤ → Type 0
IsFrom low n = ltb_ℤ n low ≡ false

-- a.b.c, of digits, and not below 1.0.13.
pub record IsAtFloor (version : String) : Type 0 where
  pub major : String
  pub minor : String
  pub patch : String
  pub parts : split b'.' version ≡ major ∷ minor ∷ patch ∷ []
  pub digits : (all_digits major ≡ true) × (all_digits minor ≡ true) × (all_digits patch ≡ true)
  pub written : (is_empty major ≡ false) × (is_empty minor ≡ false) × (is_empty patch ≡ false)
  pub at_least :
      (a : ℤ) × (parse_int major ≡ some a)
      × ((ltb_ℤ (pos 1) a ≡ true)
          ⊎ (IsFrom (pos 1) a
              × ((b : ℤ) × (parse_int minor ≡ some b)
                  × ((ltb_ℤ (pos 0) b ≡ true)
                      ⊎ (IsFrom (pos 0) b
                          × ((c : ℤ) × (parse_int patch ≡ some c) × IsFrom (pos 13) c))))))

three_parts :
    (ps : List String)
    → (if length ps == 3 then all_numeric ps else false) ≡ true
    → (a : String) × (b : String) × (c : String) × (ps ≡ a ∷ b ∷ c ∷ [])
      × (all_numeric (a ∷ b ∷ c ∷ []) ≡ true)
three_parts [] h = absurd (ground arith)
three_parts (a ∷ []) h = absurd (ground arith)
three_parts (a ∷ b ∷ []) h = absurd (ground arith)
three_parts (a ∷ b ∷ c ∷ []) h = (a, b, c, refl, h)
three_parts (a ∷ b ∷ c ∷ d ∷ ps) h = absurd (ground arith)

compared :
    (g : Option ℤ) (f : ℤ) (rest : Bool)
    → compare_part g (some f) rest ≡ true
    → (n : ℤ) × (g ≡ some n) × ((ltb_ℤ f n ≡ true) ⊎ (IsFrom f n × (rest ≡ true)))
unfolding compare_part
compared none f rest h = absurd (cc)
compared (some g) f rest h = (g, refl, ground arith)

lt_asym : (a b : ℤ) → ltb_ℤ a b ≡ true → ltb_ℤ b a ≡ false
lt_asym a b h = ground arith

last_compared :
    (g : Option ℤ) (f : ℤ)
    → compare_part g (some f) true ≡ true
    → (n : ℤ) × (g ≡ some n) × IsFrom f n
unfolding compare_part
last_compared none f h = absurd (cc)
last_compared (some g) f h = (g, refl, ground (arith, lt_asym f g))

floor_parts :
    (a b c : String)
    → at_least_parts (a ∷ b ∷ c ∷ []) (split b'.' server_floor) ≡ true
    → (compare_part (parse_int a) (some (pos 1)) (
          compare_part
            (parse_int b)
            (some (pos 0))
            (compare_part (parse_int c) (some (pos 13)) true))
        ≡ true)
unfolding at_least_parts split parse_int
floor_parts a b c h = h

acceptable_parts :
    (v : String)
    → acceptable_version v ≡ true
    → ((if length (split b'.' v) == 3 then all_numeric (split b'.' v) else false) ≡ true)
      × (at_least_parts (split b'.' v) (split b'.' server_floor) ≡ true)
unfolding acceptable_version is_strict_semver version_at_least
acceptable_parts v h = (ground arith, ground arith)

numeric :
    (a b c : String)
    → all_numeric (a ∷ b ∷ c ∷ []) ≡ true
    → ((all_digits a ≡ true) × (all_digits b ≡ true) × (all_digits c ≡ true))
      × ((is_empty a ≡ false) × (is_empty b ≡ false) × (is_empty c ≡ false))
unfolding all_numeric
numeric a b c h =
    ((ground arith, ground arith, ground arith), (ground arith, ground arith, ground arith))

pub acceptable-IsAtFloor : (v : String) → acceptable_version v ≡ true → IsAtFloor v
acceptable-IsAtFloor v h =
    let (strict, least) = acceptable_parts v h in
    let (a, b, c, same, n) = three_parts (split b'.' v) strict in
    let rest =
      floor_parts a b c
        (subst (λ ps. at_least_parts ps (split b'.' server_floor) ≡ true) same least) in
    let (d, w) = numeric a b c n in
    let minors = compare_part (parse_int c) (some (pos 13)) true in
    let (x, p, way) =
      compared (parse_int a) (pos 1) (compare_part (parse_int b) (some (pos 0)) minors) rest in
    record {
      major = a;
      minor = b;
      patch = c;
      parts = same;
      digits = d;
      written = w;
      at_least = (
        x,
        p,
        elim way [
          | inl l ↦ inl l
          | inr (l, r) ↦
              let (y, q, way') = compared (parse_int b) (pos 0) minors r in
              inr (
                l,
                (
                  y,
                  q,
                  elim way' [
                    | inl k ↦ inl k
                    | inr (k, z) ↦ inr (k, last_compared (parse_int c) (pos 13) z)
                  ],
                ),
              )
        ],
      );
    }

accept-IsAtFloor : (o : Option String) {v : String} → accept o ≡ some v → IsAtFloor v
unfolding accept
accept-IsAtFloor none h = absurd (cc)
accept-IsAtFloor (some version) {v = v} h = acceptable-IsAtFloor v (ground arith)

version_of-IsAtFloor : (o : Option Json) {v : String} → version_of o ≡ some v → IsAtFloor v
unfolding version_of
version_of-IsAtFloor none h = absurd (cc)
version_of-IsAtFloor (some null) h = accept-IsAtFloor (some "") h
version_of-IsAtFloor (some (obj fs)) h = accept-IsAtFloor (string_field "version" (some "") fs) h
version_of-IsAtFloor (some other) h = absurd (cc)

parse-IsAtFloor : (body : Body) {v : String} → parse_npm_version body ≡ some v → IsAtFloor v
unfolding parse_npm_version
parse-IsAtFloor body {v = v} h = version_of-IsAtFloor body.decoded {v = v} (ground arith)

fetch-IsAtFloor :
    (answer : Answer) {v : String} → fetch_npm_latest_version answer ≡ some v → IsAtFloor v
unfolding fetch_npm_latest_version
fetch-IsAtFloor fails h = absurd (cc)
fetch-IsAtFloor (answers status body) {v = v} h = parse-IsAtFloor body {v = v} (ground arith)

newest-IsAtFloor :
    (cached : String) (o : Option String)
    → IsAtFloor cached
    → ((v : String) → o ≡ some v → IsAtFloor v)
    → IsAtFloor (elim o [
      | none ↦ cached
      | some version ↦ if not (str_eq cached version) then version else cached
    ])
newest-IsAtFloor cached none h f = h
newest-IsAtFloor cached (some v) h f =
    if_cases IsAtFloor (not (str_eq cached v)) v cached (λ _. f v refl) (λ _. h)

refresh-IsAtFloor :
    (cached : String) (answer : Answer)
    → IsAtFloor cached
    → IsAtFloor (refresh_version cached answer)
unfolding refresh_version
refresh-IsAtFloor cached answer h =
    newest-IsAtFloor cached (fetch_npm_latest_version answer) h λ v e. fetch-IsAtFloor answer e

-- Whatever a sequence of lookups answers, the version that the probes name keeps three parts of digits,
-- and is at least the floor 1.0.13, compared part by part as numbers, if it was so at first.
pub refreshes-IsAtFloor :
    (cached : String) (answers : List Answer)
    → IsAtFloor cached
    → IsAtFloor (refreshes cached answers)
unfolding refreshes
refreshes-IsAtFloor cached [] h = h
refreshes-IsAtFloor cached (a ∷ rest) h =
    refreshes-IsAtFloor (refresh_version cached a) rest (refresh-IsAtFloor cached a h)
