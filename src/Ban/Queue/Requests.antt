-- ===== src/Ban/Queue/Requests.antt =====
-- What a request gets, and that a worker gets what was accepted.
use grok_inspection.Base.{
  ℕ, ◌≤◌, String, true, false, ◌≡◌, Option, none, some, ◌⊎◌, arith, max, if◌then◌else◌, ◌↔◌,
}
use grok_inspection.Text.{is_empty, str_eq, trim_space}
use grok_inspection.Text.Laws.{str_eq_iff}
use grok_inspection.Dict.{lookup, lookup-insert}
use grok_inspection.Ban.Queue.{Queue, enqueue, raise, is_some}

-- The revision under which an account is pending after a request.
abbrev pub raised : Option ℕ → ℕ → ℕ
raised none r = r
raised (some old) r = max old r

-- A request is refused exactly for a blank account, by a stopping queue, or by a full one that does
-- not hold the account yet; a refusal changes nothing.
pub enqueue_refused :
    (q : Queue) (id : String) (r : ℕ)
    → ((enqueue q id r).1 ≡ false) ↔ (
        (is_empty (trim_space id) ≡ true)
        ⊎ ((q.stopping ≡ true)
            ⊎ ((lookup (trim_space id) q.pending ≡ none) × (q.capacity ≤ q.queued))))
unfolding enqueue is_some
enqueue_refused q id r = ((λ h. ground arith), λ h. ground arith)

-- An accepted request leaves the account pending under the later of the revisions it was given, and
-- every other account as it was.
pub enqueue_accepted :
    (q : Queue) (id : String) (r : ℕ) (j : String)
    → (enqueue q id r).1 ≡ true
    → lookup j (enqueue q id r).0.pending ≡ (
        if str_eq (trim_space id) j
        then some (raised (lookup (trim_space id) q.pending) r)
        else lookup j q.pending)
unfolding enqueue raise is_some
enqueue_accepted q id r j h =
    ground (arith, lookup-insert (trim_space id) j r q.pending, str_eq_iff (trim_space id) j)
