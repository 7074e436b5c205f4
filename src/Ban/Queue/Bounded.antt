-- ===== src/Ban/Queue/Bounded.antt =====
-- The queue keeps within its capacity, holds each account once, and loses nothing that it accepts.
use grok_inspection.Base.{
  ℕ, ◌+◌, ◌≤◌, ◌<◌, ℤ, String, Bool, false, ◌≡◌, refl, sym, ap, ◌∙◌, List, [], ◌∷◌, ◌++◌, Option,
  none, some, arith, length, length-append, if◌then◌else◌, leb, ◌||◌, if_cases, Option-cases, inl,
  inr,
}
use grok_inspection.Text.{is_empty, str_eq, trim_space}
use grok_inspection.Text.Laws.{str_eq_iff, str_eq_refl}
use grok_inspection.Text.Trim.{trim_space_idem}
use grok_inspection.Dict.{lookup, insert, remove, lookup-insert, lookup-remove}
use grok_inspection.Ban.Queue.{
  Queue, Taken, enqueue, raise, is_some, start_workers, stop, take, take_from, finish,
  new_ban_dispose_queue, enqueue_ban_dispose,
}

-- How often an account stands in the queue.
abbrev pub occurs : String → List String → ℕ
occurs id [] = 0
occurs id (x ∷ xs) = (if str_eq x id then 1 else 0) + occurs id xs

abbrev pub presence : Option ℕ → ℕ
presence none = 0
presence (some r) = 1

pub record IsValid (q : Queue) : Type 0 where
  pub counted : q.queued ≡ length q.order
  pub bounded : q.queued ≤ q.capacity
  -- an account is pending exactly if it stands in the queue, and it stands there once
  pub once : (id : String) → occurs id q.order ≡ presence (lookup id q.pending)
  pub trimmed : (id : String) → 0 < occurs id q.order → trim_space id ≡ id
  pub not_empty : (id : String) → 0 < occurs id q.order → is_empty id ≡ false

occurs-append :
    (id x : String) (l : List String)
    → occurs id (l ++ x ∷ []) ≡ occurs id l + (if str_eq x id then 1 else 0)
occurs-append id x [] = ground arith
occurs-append id x (y ∷ l) = omega (arith, occurs-append id x l)

presence-insert :
    (k id : String) (r : ℕ) (m : List (String × ℕ))
    → presence (lookup id (insert k r m)) ≡ (if str_eq k id then 1 else presence (lookup id m))
presence-insert k id r m = ground (arith, lookup-insert k id r m)

presence-remove :
    (k id : String) (m : List (String × ℕ))
    → presence (lookup id (remove k m)) ≡ (if str_eq k id then 0 else presence (lookup id m))
presence-remove k id m = ground (arith, lookup-remove k id m)

presence-raise :
    (k id : String) (r : ℕ) (m : List (String × ℕ))
    → presence (lookup id (raise k r (lookup k m) m)) ≡ presence (lookup id m)
unfolding raise
presence-raise k id r m = elim (Option-cases (lookup k m)) [
  | inl e ↦ rw (e, raise)
  | inr (old, e) ↦ rw (e, raise) (ground (arith, presence-insert k id r m, str_eq_iff k id))
]

-- A queue that an append of an account leaves.
append-IsValid :
    (q : Queue) (id : String) (r : ℕ)
    → is_empty id ≡ false
    → trim_space id ≡ id
    → lookup id q.pending ≡ none
    → q.queued < q.capacity
    → IsValid q
    → IsValid (record q {
      pending = insert id r q.pending;
      order = q.order ++ id ∷ [];
      queued = length (q.order ++ id ∷ []);
    })
append-IsValid q id r n t free room v = record {
  counted = refl;
  bounded = omega (arith, length-append q.order (id ∷ []), v.counted);
  once = λ j. ground (
    arith,
    occurs-append j id q.order,
    presence-insert id j r q.pending,
    v.once j,
    str_eq_iff id j,
  );
  trimmed = λ j h. ground (arith, occurs-append j id q.order, v.trimmed j, str_eq_iff id j);
  not_empty = λ j h. ground (arith, occurs-append j id q.order, v.not_empty j, str_eq_iff id j);
}

raise-IsValid :
    (q : Queue) (id : String) (r : ℕ)
    → IsValid q
    → IsValid (record q { pending = raise id r (lookup id q.pending) q.pending })
raise-IsValid q id r v = record {
  counted = v.counted;
  bounded = v.bounded;
  once = λ j. v.once j ∙ sym (presence-raise id j r q.pending);
  trimmed = v.trimmed;
  not_empty = v.not_empty;
}

is_some-none : (o : Option ℕ) → is_some o ≡ false → o ≡ none
unfolding is_some
is_some-none none h = refl
is_some-none (some r) h = cc

enqueue-IsValid : (q : Queue) (id : String) (r : ℕ) → IsValid q → IsValid (enqueue q id r).0
unfolding enqueue
enqueue-IsValid q id r v =
    if_cases P (is_empty t) _ _ (λ _. v)
      λ n.
        if_cases P q.stopping _ _ (λ _. v)
          λ _.
            if_cases P (is_some (lookup t q.pending)) _ _ (λ _. raise-IsValid q t r v)
              λ f.
                if_cases P (leb q.capacity q.queued) _ _ (λ _. v)
                  λ room.
                    append-IsValid q t r n (trim_space_idem id)
                      (is_some-none (lookup t q.pending) f) (ground arith) v
  where
    t : String
    t = trim_space id

    P : Queue × Bool → Type 0
    P p = IsValid p.0

start_workers-IsValid : (q : Queue) → IsValid q → IsValid (start_workers q)
unfolding start_workers
start_workers-IsValid q v =
    if_cases IsValid (q.stopping || q.started) _ _ (λ _. v)
      λ _. record {
        counted = v.counted;
        bounded = v.bounded;
        once = v.once;
        trimmed = v.trimmed;
        not_empty = v.not_empty;
      }

stop-IsValid : (q : Queue) → IsValid q → IsValid (stop q)
unfolding stop lookup
stop-IsValid q v =
    if_cases IsValid q.stopping _ _ (λ _. v)
      λ _. record {
        counted = refl;
        bounded = omega arith;
        once = λ id. refl;
        trimmed = λ id h. absurd (omega arith);
        not_empty = λ id h. absurd (omega arith);
      }

finish-IsValid : (q : Queue) → IsValid q → IsValid (finish q)
unfolding finish
finish-IsValid q v = record {
  counted = v.counted;
  bounded = v.bounded;
  once = v.once;
  trimmed = v.trimmed;
  not_empty = v.not_empty;
}

presence-le : (o : Option ℕ) → presence o ≤ 1
presence-le none = omega arith
presence-le (some r) = omega arith

-- The head of a valid queue is itself when trimmed.
pub head_trimmed :
    (q : Queue) (x : String) (rest : List String)
    → q.order ≡ x ∷ rest
    → IsValid q
    → (trim_space x ≡ x) × (is_empty x ≡ false)
head_trimmed q x rest e v =
    let here : 0 < occurs x q.order = rw e (rw (str_eq_refl x) (omega arith)) in
    (v.trimmed x here, v.not_empty x here)

take_from-IsValid :
    (q : Queue) (l : List String) → q.order ≡ l → IsValid q → IsValid (take_from q l).0
unfolding take_from
take_from-IsValid q [] e v =
    if_cases (λ (p : Queue × Taken). IsValid p.0) q.stopping _ _
      (λ _. record {
        counted = v.counted;
        bounded = v.bounded;
        once = v.once;
        trimmed = v.trimmed;
        not_empty = v.not_empty;
      })
      (λ _. v)
take_from-IsValid q (x ∷ rest) e v =
    let (t, n) = head_trimmed q x rest e v in
    let split : (j : String) → occurs j q.order ≡ (if str_eq x j then 1 else 0) + occurs j rest =
      λ j. ap (occurs j) e in
    record {
      counted = refl;
      bounded = omega (arith, v.counted, v.bounded, ap length e);
      once = λ j. rw t (
          ground (
            arith,
            split j,
            v.once j,
            presence-remove x j q.pending,
            presence-le (lookup j q.pending),
          ));
      trimmed = λ j h. v.trimmed j (omega (arith, split j));
      not_empty = λ j h. v.not_empty j (omega (arith, split j));
    }

-- A step of the queue: a request, a start, the stop, or a worker's turn.
pub data Event : Type 0 where
  requests : String → ℕ → Event
  starts : Event
  stops : Event
  takes : Event
  finishes : Event

unfoldable pub event : Queue → Event → Queue
event q (requests id revision) = (enqueue_ban_dispose q id revision).0
event q starts = start_workers q
event q stops = stop q
event q takes = (take q).0
event q finishes = finish q

event-IsValid : (q : Queue) (e : Event) → IsValid q → IsValid (event q e)
unfolding event take enqueue_ban_dispose
event-IsValid q (requests id revision) v =
    if_cases (λ (p : Queue × Bool). IsValid p.0) q.stopping _ _ (λ _. v)
      λ _. enqueue-IsValid (start_workers q) id revision (start_workers-IsValid q v)
event-IsValid q starts v = start_workers-IsValid q v
event-IsValid q stops v = stop-IsValid q v
event-IsValid q takes v = take_from-IsValid q q.order refl v
event-IsValid q finishes v = finish-IsValid q v

unfoldable pub events : Queue → List Event → Queue
events q [] = q
events q (e ∷ es) = events (event q e) es

-- Whatever requests, starts, stops and workers' turns come in whatever order, a queue in order stays in
-- order: within its capacity, which counts what is queued and not what is in flight, each account queued
-- once exactly if it is pending, and no blank account.
pub queue_events-IsValid : (q : Queue) (es : List Event) → IsValid q → IsValid (events q es)
unfolding events
queue_events-IsValid q [] v = v
queue_events-IsValid q (e ∷ es) v = queue_events-IsValid (event q e) es (event-IsValid q e v)

pub new-IsValid : (capacity workers : ℤ) → IsValid (new_ban_dispose_queue capacity workers)
unfolding new_ban_dispose_queue lookup
new-IsValid capacity workers = record {
  counted = refl;
  bounded = omega arith;
  once = λ id. refl;
  trimmed = λ id h. absurd (omega arith);
  not_empty = λ id h. absurd (omega arith);
}
