-- ===== src/Inspect/Sample/Draw.antt =====
-- A sample is drawn without repetition, whatever the random source answers.
use mathlib.Core.List.{Perm, append-nil}
use mathlib.Core.List.Perm
use grok_inspection.Base.{
  ℕ, zero, suc, ◌+◌, ◌≡◌, refl, sym, ap, subst, ◌∙◌, min, ℤ, pos_part, ◌||◌, List, [], ◌∷◌, ◌++◌,
  arith, length, leb, ◌≤◌, if◌then◌else◌, ◌==◌, if_cases,
}
use grok_inspection.Inspect.Sample.{take, exchange, swap_head, shuffle, sample_auth_entries}

module _ {ℓ} {A : Type ℓ} where
  drop : ℕ → List A → List A
  drop zero xs = xs
  drop (suc n) [] = []
  drop (suc n) (x ∷ xs) = drop n xs

  take-drop : (n : ℕ) (xs : List A) → take n xs ++ drop n xs ≡ xs
  unfolding drop
  take-drop zero xs = refl
  take-drop (suc n) [] = refl
  take-drop (suc n) (x ∷ xs) = ap (λ ys. x ∷ ys) (take-drop n xs)

  length-take : (n : ℕ) (xs : List A) → length (take n xs) ≡ min n (length xs)
  length-take zero xs = omega arith
  length-take (suc n) [] = omega arith
  length-take (suc n) (x ∷ xs) = omega (arith, length-take n xs)

  exchange-Perm :
      (x : A) (xs : List A) (k : ℕ) → Perm ((exchange x xs k).0 ∷ (exchange x xs k).1) (x ∷ xs)
  unfolding exchange
  exchange-Perm x [] k = Perm.rfl
  exchange-Perm x (y ∷ ys) zero = Perm.swap x y ys
  exchange-Perm x (y ∷ ys) (suc k) =
      let r = exchange x ys k in
      Perm.trans (Perm.swap y r.0 r.1)
        (Perm.trans (Perm.cons y (exchange-Perm x ys k)) (Perm.swap x y ys))

  swap_head-Perm : (k : ℕ) (xs : List A) → Perm (swap_head k xs) xs
  unfolding swap_head
  swap_head-Perm k [] = Perm.rfl
  swap_head-Perm zero (x ∷ xs) = Perm.rfl
  swap_head-Perm (suc k) (x ∷ xs) = exchange-Perm x xs k

  shuffle_step-Perm :
      (work rest : List A) (f : List A → List A)
      → ((ys : List A) → Perm (f ys) ys)
      → Perm (elim work [ [] ↦ [] | y ∷ ys ↦ y ∷ f ys ]) work
  shuffle_step-Perm [] rest f h = Perm.rfl
  shuffle_step-Perm (y ∷ ys) rest f h = Perm.cons y (h ys)

  shuffle-Perm : (draw : ℕ → ℕ) (i n : ℕ) (xs : List A) → Perm (shuffle draw i n xs) xs
  unfolding shuffle
  shuffle-Perm draw i zero xs = Perm.rfl
  shuffle-Perm draw i (suc n) xs =
      Perm.trans
        (shuffle_step-Perm (swap_head (draw i) xs) [] (shuffle draw (i + 1) n)
          (shuffle-Perm draw (i + 1) n))
        (swap_head-Perm (draw i) xs)

  length-exchange : (x : A) (xs : List A) (k : ℕ) → length (exchange x xs k).1 ≡ length xs
  unfolding exchange
  length-exchange x [] k = refl
  length-exchange x (y ∷ ys) zero = refl
  length-exchange x (y ∷ ys) (suc k) = ap suc (length-exchange x ys k)

  length-swap_head : (k : ℕ) (xs : List A) → length (swap_head k xs) ≡ length xs
  unfolding swap_head
  length-swap_head k [] = refl
  length-swap_head zero (x ∷ xs) = refl
  length-swap_head (suc k) (x ∷ xs) = ap suc (length-exchange x xs k)

  length-shuffle_step :
      (work : List A) (f : List A → List A)
      → ((ys : List A) → length (f ys) ≡ length ys)
      → length (elim work as (λ _. List A) [ [] ↦ [] | y ∷ ys ↦ y ∷ f ys ]) ≡ length work
  length-shuffle_step [] f h = refl
  length-shuffle_step (y ∷ ys) f h = ap suc (h ys)

  length-shuffle : (draw : ℕ → ℕ) (i n : ℕ) (xs : List A) → length (shuffle draw i n xs) ≡ length xs
  unfolding shuffle
  length-shuffle draw i zero xs = refl
  length-shuffle draw i (suc n) xs =
      length-shuffle_step (swap_head (draw i) xs) (shuffle draw (i + 1) n)
        (length-shuffle draw (i + 1) n)
      ∙ length-swap_head (draw i) xs

  -- The sample with a rest is a permutation of the entries, and has as many entries as asked for.
  abbrev pub IsSample : List A → ℕ → List A → Type ℓ
  IsSample entries m sample =
      (rest : List A) × Perm (sample ++ rest) entries × (length sample ≡ min m (length entries))

  empty-IsSample : (entries : List A) (m : ℕ) → min m (length entries) ≡ 0 → IsSample entries m []
  empty-IsSample entries m h = (entries, Perm.rfl, sym h)

  all-IsSample : (entries : List A) (m : ℕ) → length entries ≤ m → IsSample entries m entries
  all-IsSample entries m h =
      ([], subst (λ xs. Perm xs entries) (sym (append-nil entries)) Perm.rfl, omega arith)

  drawn-IsSample :
      (entries : List A) (m : ℕ) (draw : ℕ → ℕ)
      → IsSample entries m (take m (shuffle draw 0 m entries))
  drawn-IsSample entries m draw =
      let work = shuffle draw 0 m entries in
      (
        drop m work,
        subst (λ xs. Perm xs entries) (sym (take-drop m work)) (shuffle-Perm draw 0 m entries),
        omega (arith, length-take m work, length-shuffle draw 0 m entries),
      )

  -- A sample is min(n, the number of entries) of the entries, none of them twice: with the rest of
  -- the entries it is a permutation of them, whatever the random source answers.
  pub sample_auth_entries-IsSample :
      (entries : List A) (n : ℤ) (draw : ℕ → ℕ)
      → IsSample entries (pos_part n) (sample_auth_entries entries n draw)
  unfolding sample_auth_entries
  sample_auth_entries-IsSample entries n draw =
      let m = pos_part n in
      let sampled = take m (shuffle draw 0 m entries) in
      if_cases (IsSample entries m) (m == 0 || length entries == 0) []
        (if leb (length entries) m then entries else sampled)
        (λ e. empty-IsSample entries m (ground arith))
        λ _.
          if_cases (IsSample entries m) (leb (length entries) m) entries sampled
            (λ e. all-IsSample entries m (ground arith)) (λ _. drawn-IsSample entries m draw)
