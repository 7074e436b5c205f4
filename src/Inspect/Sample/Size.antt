-- ===== src/Inspect/Sample/Size.antt =====
-- The size of a sample.
use grok_inspection.Base.{ℕ, ◌*◌, ◌/◌, ◌^◌, ◌≤◌, ◌<◌, min, max, ℤ, pos, ◌≡◌, ◌↔◌, ◌⊎◌, true, arith}
use grok_inspection.Inspect.Sample.{
  SampleError, ok, err, resolve_sample_size, sample_size, from_percent, refuses,
  normalize_sample_request,
}

-- A sample is no larger than its population, and not empty unless the population is.
pub resolve_sample_size_bounds :
    (population : ℕ) (count percent : ℤ) {n : ℕ}
    → resolve_sample_size (pos population) count percent ≡ ok n
    → (n ≤ population) × ((population ≡ 0) ⊎ (0 < n))
unfolding resolve_sample_size
resolve_sample_size_bounds population count percent h = (ground arith, ground arith)

from_percent-max :
    (population percent : ℕ)
    → population * percent < 2 ^ 63
    → from_percent population percent ≡ max 1 (population * percent / 100)
unfolding from_percent
from_percent-max population percent w = ground arith

sample_size-min :
    (population count percent : ℕ)
    → 0 < count
    → 0 < percent
    → from_percent population percent ≡ max 1 (population * percent / 100)
    → 0 < population
    → sample_size population count percent
      ≡ min (min count population) (max 1 (population * percent / 100))
unfolding sample_size
sample_size-min population count percent c d f p = ground arith

-- Of accounts whose number times the percentage stays below 2^63, a positive count and a percentage
-- from 1 to 100 take the smallest of the count, the number of accounts, and the percentage of it
-- rounded down, or one account where that is none.
pub resolve_sample_size_both :
    (population count percent : ℕ)
    → population * percent < 2 ^ 63
    → 0 < population
    → 0 < count
    → 0 < percent
    → percent ≤ 100
    → resolve_sample_size (pos population) (pos count) (pos percent)
      ≡ ok (min (min count population) (max 1 (population * percent / 100)))
unfolding resolve_sample_size
resolve_sample_size_both population count percent w p c d e =
    let f = from_percent-max population percent w in
    let l = sample_size-min population count percent c d f p in ground arith

-- A request is refused exactly where the size of its sample of accounts is, and for the same reason.
pub resolve-normalize :
    (population : ℤ) (count percent : ℤ) (e : SampleError)
    → (resolve_sample_size population count percent ≡ err e)
      ↔ (normalize_sample_request true count percent ≡ refuses e)
unfolding resolve_sample_size normalize_sample_request
resolve-normalize population count percent e = (λ h. ground arith, λ h. ground arith)
