-- ===== src/Ban/Queue.antt =====
-- ban_dispose_queue.go: the bounded queue of accounts to disable in CPA. A step is a stretch of code
-- that runs under the queue's lock; the workers' turns, the calls of enqueue and the stop come in any
-- order.
pub mod Bounded
pub mod Requests
use grok_inspection.Base.{
  ℕ, zero, suc, ◌+◌, ◌-◌, ℤ, pos, leb_ℤ, pos_part, String, Bool, true, false, not, ◌&&◌, ◌||◌, List,
  [], ◌∷◌, ◌++◌, Option, none, some, ltb, leb, ◌==◌, length, if◌then◌else◌,
}
use grok_inspection.Text.{str_eq, is_empty, trim_space}
use grok_inspection.Dict.{lookup, insert, remove}

abbrev pub ban_dispose_queue_capacity : ℕ
ban_dispose_queue_capacity = 256

-- `running` counts the workers that the WaitGroup counts.
pub record Queue : Type 0 where
  pub pending : List (String × ℕ)
  pub order : List String
  pub capacity : ℕ
  pub queued : ℕ
  pub workers : ℕ
  pub stopping : Bool
  pub started : Bool
  pub running : ℕ
  pub in_flight : ℕ

or_default : ℤ → ℕ → ℕ
or_default n default = if leb_ℤ n (pos 0) then default else pos_part n

unfoldable pub new_ban_dispose_queue : ℤ → ℤ → Queue
unfolding or_default
new_ban_dispose_queue capacity workers = record {
  pending = [];
  order = [];
  capacity = or_default capacity ban_dispose_queue_capacity;
  queued = 0;
  workers = or_default workers 1;
  stopping = false;
  started = false;
  running = 0;
  in_flight = 0;
}

unfoldable pub start_workers : Queue → Queue
start_workers q =
    if q.stopping || q.started
    then q
    else record q { started = true; running = q.running + q.workers }

-- stopBanDisposeWorkers up to its wait: what is queued is dropped.
unfoldable pub stop : Queue → Queue
stop q =
    if q.stopping then q else record q { stopping = true; pending = []; order = []; queued = 0 }

-- The later of the two revisions of an account that is queued already.
raise : String → ℕ → Option ℕ → List (String × ℕ) → List (String × ℕ)
unfolding insert
raise id revision none pending = pending
raise id revision (some old) pending =
    if ltb old revision then insert id revision pending else pending

is_some : Option ℕ → Bool
is_some none = false
is_some (some n) = true

unfoldable pub enqueue : Queue → String → ℕ → Queue × Bool
unfolding raise is_some insert
enqueue q auth_id revision =
    let id = trim_space auth_id in
    let old = lookup id q.pending in
    let order' = q.order ++ id ∷ [] in
    if is_empty id
    then (q, false)
    else if q.stopping
    then (q, false)
    else if is_some old
    then (record q { pending = raise id revision old q.pending }, true)
    else if leb q.capacity q.queued
    then (q, false)
    else (
      record q { pending = insert id revision q.pending; order = order'; queued = length order' },
      true,
    )

-- enqueueBanDispose: the workers are started by the first call.
unfoldable pub enqueue_ban_dispose : Queue → String → ℕ → Queue × Bool
unfolding enqueue start_workers
enqueue_ban_dispose q auth_id revision =
    if q.stopping then (q, false) else enqueue (start_workers q) auth_id revision

-- What a worker took: the account and its revision, if it was still pending.
pub data Taken : Type 0 where
  waits : Taken
  exits : Taken
  applies : String → ℕ → Taken
  skips : Taken

taken_of : String → Option ℕ → Taken
taken_of id none = skips
taken_of id (some revision) = if is_empty id then skips else applies id revision

take_from : Queue → List String → Queue × Taken
unfolding taken_of remove
take_from q [] = if q.stopping then (record q { running = q.running - 1 }, exits) else (q, waits)
take_from q (head ∷ rest) =
    let id = trim_space head in
    (
      record q {
        order = rest;
        pending = remove id q.pending;
        queued = length rest;
        in_flight = q.in_flight + 1;
      },
      taken_of id (lookup id q.pending),
    )

-- One turn of a worker under the lock: it waits, ends, or takes the head of the queue.
unfoldable pub take : Queue → Queue × Taken
unfolding take_from
take q = take_from q q.order

-- The end of a worker's turn, after it has applied what it took.
unfoldable pub finish : Queue → Queue
finish q = record q { in_flight = q.in_flight - 1 }
