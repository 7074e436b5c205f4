-- ===== src/Ban/Store/Views.antt =====
-- What the lists of the pool show: sorted, complete, and split by the clock.
use mathlib.Core.List.{Perm}
use mathlib.Core.List.Perm
use grok_inspection.Base.{
  ℕ, ◌+◌, ◌≤◌, String, Bool, true, false, ◌≡◌, refl, List, [], ◌∷◌, Option, none, some, arith,
  if◌then◌else◌, length, not, All, ltb, if_cases, suc, ap,
}
use grok_inspection.Text.{str_eq}
use grok_inspection.Text.Laws.{str_eq_iff}
use grok_inspection.Time.{after}
use grok_inspection.Dict.{lookup, IsDistinct, values}
use grok_inspection.Ban.Detector.{BanEntry}
use grok_inspection.Ban.Store.{
  Store, get, insert_by, sort_by, expired, expired_ids, list, active_entries, unexpired,
  clear_expired, count,
}

length-insert_by :
    (key : BanEntry → ℕ) (e : BanEntry) (l : List BanEntry)
    → length (insert_by key e l) ≡ suc (length l)
unfolding insert_by
length-insert_by key e [] = refl
length-insert_by key e (x ∷ l) = ground (arith, length-insert_by key e l)

length-sort_by : (key : BanEntry → ℕ) (l : List BanEntry) → length (sort_by key l) ≡ length l
unfolding sort_by
length-sort_by key [] = refl
length-sort_by key (e ∷ l) =
    omega (arith, length-insert_by key e (sort_by key l), length-sort_by key l)

-- In order of a key.
abbrev pub IsSorted : (BanEntry → ℕ) → List BanEntry → Type 0
IsSorted key [] = Unit
IsSorted key (e ∷ l) = All (λ f. key e ≤ key f) l × IsSorted key l

module _ (key : BanEntry → ℕ) where
  All-insert_by :
      (n : ℕ) (e : BanEntry) (l : List BanEntry)
      → n ≤ key e
      → All (λ f. n ≤ key f) l
      → All (λ f. n ≤ key f) (insert_by key e l)
  unfolding insert_by
  All-insert_by n e [] h a = (h, tt)
  All-insert_by n e (x ∷ l) h a =
      if_cases (All (λ f. n ≤ key f)) (ltb (key x) (key e)) _ _
        (λ _. (a.0, All-insert_by n e l h a.1)) (λ _. (h, a))

  All-mono : (m n : ℕ) (l : List BanEntry) → m ≤ n → All (λ f. n ≤ key f) l → All (λ f. m ≤ key f) l
  All-mono m n [] h a = tt
  All-mono m n (x ∷ l) h a = (omega arith, All-mono m n l h a.1)

  insert_by-IsSorted :
      (e : BanEntry) (l : List BanEntry) → IsSorted key l → IsSorted key (insert_by key e l)
  unfolding insert_by
  insert_by-IsSorted e [] s = (tt, tt)
  insert_by-IsSorted e (x ∷ l) s =
      if_cases (IsSorted key) (ltb (key x) (key e)) (x ∷ insert_by key e l) (e ∷ x ∷ l)
        (λ h. (All-insert_by (key x) e l (ground arith) s.0, insert_by-IsSorted e l s.1))
        λ h. ((ground arith, All-mono (key e) (key x) l (ground arith) s.0), s)

  insert_by-perm : (e : BanEntry) (l : List BanEntry) → Perm (insert_by key e l) (e ∷ l)
  unfolding insert_by
  insert_by-perm e [] = Perm.refl _
  insert_by-perm e (x ∷ l) =
      if_cases (λ m. Perm m (e ∷ x ∷ l)) (ltb (key x) (key e)) (x ∷ insert_by key e l) (e ∷ x ∷ l)
        (λ _. Perm.trans (Perm.cons x (insert_by-perm e l)) (Perm.swap _ _ _)) (λ _. Perm.refl _)

  sort_by-IsSorted : (l : List BanEntry) → IsSorted key (sort_by key l)
  unfolding sort_by
  sort_by-IsSorted [] = tt
  sort_by-IsSorted (e ∷ l) = insert_by-IsSorted e (sort_by key l) (sort_by-IsSorted l)

  sort_by-perm : (l : List BanEntry) → Perm (sort_by key l) l
  unfolding sort_by
  sort_by-perm [] = Perm.refl []
  sort_by-perm (e ∷ l) =
      Perm.trans (insert_by-perm e (sort_by key l)) (Perm.cons e (sort_by-perm l))

values-unexpired :
    (m : List (String × BanEntry)) (now : ℕ)
    → active_entries (values m) now ≡ values (unexpired m now)
unfolding active_entries values unexpired
values-unexpired [] now = refl
values-unexpired ((k, e) ∷ m) now = ground (arith, values-unexpired m now)

-- The status list of the pool holds the rows that clear_expired would leave, each once, in the order in
-- which their windows close.
pub list-IsSorted-perm :
    (s : Store) (now : ℕ)
    → IsSorted (λ e. e.reset_at) (list s now)
      × Perm (list s now) (values (clear_expired s now).0.bans)
unfolding list clear_expired
list-IsSorted-perm s now =
    let active = active_entries (values s.bans) now in
    (
      sort_by-IsSorted (λ e. e.reset_at) active,
      rw (← values-unexpired s.bans now) (sort_by-perm (λ e. e.reset_at) active),
    )

-- Whether an account is among the expired ones.
abbrev pub has : String → List String → Bool
has id [] = false
has id (x ∷ xs) = if str_eq x id then true else has id xs

abbrev pub is_expired : ℕ → Option BanEntry → Bool
is_expired now none = false
is_expired now (some e) = not (after e.reset_at now)

has-expired_ids :
    (m : List (String × BanEntry)) (now : ℕ) (id : String)
    → IsDistinct m
    → has id (expired_ids m now) ≡ is_expired now (lookup id m)
unfolding expired_ids lookup
has-expired_ids [] now id d = refl
has-expired_ids ((k, e) ∷ m) now id d =
    ground (arith, has-expired_ids m now id d.1, str_eq_iff k id)

-- In a pool that holds no account twice, an account is listed as expired exactly if it has a row
-- whose window has passed.
pub has-expired :
    (s : Store) (now : ℕ) (id : String)
    → IsDistinct s.bans
    → has id (expired s now) ≡ is_expired now (get s id)
unfolding expired
has-expired s now id d = has-expired_ids s.bans now id d

length-unexpired :
    (m : List (String × BanEntry)) (now : ℕ)
    → length (values (unexpired m now)) + length (expired_ids m now) ≡ length m
unfolding unexpired expired_ids values
length-unexpired [] now = omega arith
length-unexpired ((k, e) ∷ m) now = ground (arith, length-unexpired m now)

-- The active and the expired rows together are the pool.
pub length-list-expired :
    (s : Store) (now : ℕ) → length (list s now) + length (expired s now) ≡ count s
unfolding list expired
length-list-expired s now = omega (
  arith,
  ap length (values-unexpired s.bans now),
  length-sort_by (λ e. e.reset_at) (active_entries (values s.bans) now),
  length-unexpired s.bans now,
)
