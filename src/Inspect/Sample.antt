-- ===== src/Inspect/Sample.antt =====
-- sample.go: how many accounts a sample run probes, and which (resolveSampleSize, sampleAuthEntries,
-- normalizeSampleRequest). The random source is Go's: `draw i` is its i-th answer, below the bound
-- that it is asked for.
pub mod Size
pub mod Draw
use grok_inspection.Base.{
  ℕ, zero, suc, ◌+◌, ◌-◌, ◌*◌, ◌/◌, ℤ, pos, negsuc, ltb_ℤ, ◌==ℤ◌, pos_part, wrap_int64, String,
  Bool, true, false, ◌&&◌, ◌||◌, List, [], ◌∷◌, Option, none, some, ltb, leb, ◌==◌, length,
  if◌then◌else◌,
}

-- The keys of the messages of a 400 answer.
pub data SampleError : Type 0 where
  sample_count_invalid sample_percent_invalid sample_params_required : SampleError

pub data SampleResult : Type 0 where
  ok : ℕ → SampleResult
  err : SampleError → SampleResult

-- population * percent / 100 in int64, and one account at least.
from_percent : ℕ → ℕ → ℕ
from_percent population percent =
    let quotient : ℕ = elim (wrap_int64 (population * percent)) [
      | pos n ↦ n / 100
      | negsuc n ↦ 0
    ] in
    if ltb quotient 1 then 1 else quotient

-- The size where the guards have passed.
sample_size : ℕ → ℕ → ℕ → ℕ
unfolding from_percent
sample_size population count percent =
    let by_count =
      if ltb 0 count then (if ltb population count then population else count) else population in
    let f = from_percent population percent in
    let both = if ltb 0 count then (if ltb f by_count then f else by_count) else f in
    let size = if ltb 0 percent then both else by_count in
    if ltb population size then population else size

unfoldable pub resolve_sample_size : ℤ → ℤ → ℤ → SampleResult
unfolding sample_size
resolve_sample_size population count percent =
    let p = pos_part population in
    if ltb_ℤ count (pos 0)
    then err sample_count_invalid
    else if ltb_ℤ percent (pos 0) || ltb_ℤ (pos 100) percent
    then err sample_percent_invalid
    else if count ==ℤ 0 && percent ==ℤ 0
    then err sample_params_required
    else if p == 0
    then ok 0
    else ok (sample_size p (pos_part count) (pos_part percent))

-- normalizeSampleRequest: the count and the percentage that a request asks for.
pub data SampleRequest : Type 0 where
  asks : ℤ → ℤ → SampleRequest
  refuses : SampleError → SampleRequest

unfoldable pub normalize_sample_request : Bool → ℤ → ℤ → SampleRequest
normalize_sample_request sample count percent =
    if sample
    then (if ltb_ℤ count (pos 0)
        then refuses sample_count_invalid
        else if ltb_ℤ percent (pos 0) || ltb_ℤ (pos 100) percent
        then refuses sample_percent_invalid
        else if count ==ℤ 0 && percent ==ℤ 0
        then refuses sample_params_required
        else asks count percent)
    else asks (pos 0) (pos 0)

module _ {ℓ} {A : Type ℓ} where
  abbrev pub take : ℕ → List A → List A
  take zero xs = []
  take (suc n) [] = []
  take (suc n) (x ∷ xs) = x ∷ take n xs

  -- The entry at a place, and the list with another in its place.
  exchange : A → List A → ℕ → A × List A
  exchange x [] k = (x, [])
  exchange x (y ∷ ys) zero = (y, x ∷ ys)
  exchange x (y ∷ ys) (suc k) = let (z, zs) = exchange x ys k in (z, y ∷ zs)

  -- work[i], work[j] = work[j], work[i], seen from place i, for j = i + k.
  swap_head : ℕ → List A → List A
  unfolding exchange
  swap_head k [] = []
  swap_head zero (x ∷ xs) = x ∷ xs
  swap_head (suc k) (x ∷ xs) = let (z, zs) = exchange x xs k in z ∷ zs

  -- The loop from place i on: the list is work[i:].
  shuffle : (ℕ → ℕ) → ℕ → ℕ → List A → List A
  unfolding swap_head
  shuffle draw i zero xs = xs
  shuffle draw i (suc n) xs = elim (swap_head (draw i) xs) [
    | [] ↦ []
    | y ∷ ys ↦ y ∷ shuffle draw (i + 1) n ys
  ]

  unfoldable pub sample_auth_entries : List A → ℤ → (ℕ → ℕ) → List A
  unfolding shuffle
  sample_auth_entries entries n draw =
      let m = pos_part n in
      let sampled = take m (shuffle draw 0 m entries) in
      if m == 0 || length entries == 0
      then []
      else if leb (length entries) m
      then entries
      else sampled
