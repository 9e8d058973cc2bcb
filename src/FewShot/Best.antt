-- ===== src/FewShot/Best.antt =====
-- That `search` of fewshot.py returns the best examples.
use insightkit.Prelude.{
  ℕ, zero, suc, ◌≤◌, ◌<◌, min, true, false, List, [], ◌∷◌, map, ◌≡◌, refl, ap, ◌∙◌, Text, ltb, leb,
  keep, take, is_empty, if◌then◌else◌, All, Bool-cases, inl, inr, arith,
}
use insightkit.FewShot.{FewShot, long_tokens, overlap, insert_by, sort_by, pair_of, ranked, search}

module _ {A : Type 0} (key : A → ℕ) where
  -- How many have a key of at least `n`.
  unfoldable pub at_least : ℕ → List A → ℕ
  at_least n [] = 0
  at_least n (x ∷ xs) = if leb n (key x) then suc (at_least n xs) else at_least n xs

  at_least-insert_by :
      (n : ℕ) (x : A) (xs : List A) → at_least n (insert_by key x xs) ≡ at_least n (x ∷ xs)
  unfolding at_least insert_by
  at_least-insert_by n x [] = refl
  at_least-insert_by n x (y ∷ ys) = ground (arith, at_least-insert_by n x ys)

  at_least-sort_by : (n : ℕ) (xs : List A) → at_least n (sort_by key xs) ≡ at_least n xs
  unfolding at_least sort_by
  at_least-sort_by n [] = refl
  at_least-sort_by n (x ∷ xs) =
      at_least-insert_by n x (sort_by key xs)
      ∙ ap (λ m. if leb n (key x) then suc m else m) (at_least-sort_by n xs)

  abbrev IsFalling : List A → Type 0
  IsFalling [] = Unit
  IsFalling (x ∷ xs) = All (λ y. key y ≤ key x) xs × IsFalling xs

  All-insert_by :
      (m : ℕ) (x : A) (xs : List A)
      → key x ≤ m
      → All (λ y. key y ≤ m) xs
      → All (λ y. key y ≤ m) (insert_by key x xs)
  unfolding insert_by
  All-insert_by m x [] h k = (h, tt)
  All-insert_by m x (y ∷ ys) h k = elim (Bool-cases (ltb (key x) (key y))) [
    | inl lt ↦ rw lt (k.0, All-insert_by m x ys h k.1)
    | inr ge ↦ rw ge (h, k)
  ]

  All-raise : (m n : ℕ) (xs : List A) → m ≤ n → All (λ y. key y ≤ m) xs → All (λ y. key y ≤ n) xs
  All-raise m n [] h k = tt
  All-raise m n (x ∷ xs) h k = (omega (arith, k.0), All-raise m n xs h k.1)

  insert_by-IsFalling : (x : A) (xs : List A) → IsFalling xs → IsFalling (insert_by key x xs)
  unfolding insert_by
  insert_by-IsFalling x [] h = (tt, tt)
  insert_by-IsFalling x (y ∷ ys) h = elim (Bool-cases (ltb (key x) (key y))) [
    | inl lt ↦ rw lt (All-insert_by (key y) x ys (ground arith) h.0, insert_by-IsFalling x ys h.1)
    | inr ge ↦
        let le : key y ≤ key x = ground arith in
        rw ge ((le, All-raise (key y) (key x) ys le h.0), h)
  ]

  sort_by-IsFalling : (xs : List A) → IsFalling (sort_by key xs)
  unfolding sort_by
  sort_by-IsFalling [] = tt
  sort_by-IsFalling (x ∷ xs) = insert_by-IsFalling x (sort_by key xs) (sort_by-IsFalling xs)

  at_least_none : (n m : ℕ) (xs : List A) → m < n → All (λ y. key y ≤ m) xs → at_least n xs ≡ 0
  unfolding at_least
  at_least_none n m [] h k = refl
  at_least_none n m (x ∷ xs) h k = ground (arith, k.0, at_least_none n m xs h k.1)

  All-take : (m k : ℕ) (xs : List A) → All (λ y. key y ≤ m) xs → All (λ y. key y ≤ m) (take k xs)
  All-take m zero xs h = tt
  All-take m (suc k) [] h = tt
  All-take m (suc k) (x ∷ xs) h = (h.0, All-take m k xs h.1)

  -- The first of a list in falling order are the best.
  at_least-take :
      (n k : ℕ) (xs : List A) → IsFalling xs → at_least n (take k xs) ≡ min k (at_least n xs)
  unfolding at_least
  at_least-take n zero xs h = omega arith
  at_least-take n (suc k) [] h = omega arith
  at_least-take n (suc k) (x ∷ xs) h = elim (Bool-cases (leb n (key x))) [
    | inl le ↦ rw le (omega (arith, at_least-take n k xs h.1))
    | inr gt ↦
        let less : key x < n = ground arith in
        rw
          (
            gt,
            at_least_none n (key x) (take k xs) less (All-take (key x) k xs h.0),
            at_least_none n (key x) xs less h.0,
          )
          (omega arith)
  ]

  at_least-keep :
      (n : ℕ) (xs : List A) → 0 < n → at_least n (keep (λ x. ltb 0 (key x)) xs) ≡ at_least n xs
  unfolding at_least
  at_least-keep n [] h = refl
  at_least-keep n (x ∷ xs) h = elim (Bool-cases (ltb 0 (key x))) [
    | inl some' ↦ rw some' (ap (λ m. if leb n (key x) then suc m else m) (at_least-keep n xs h))
    | inr none' ↦
        let less : leb n (key x) ≡ false = ground arith in rw (none', less) (at_least-keep n xs h)
  ]

  at_least_zero : (n : ℕ) (xs : List A) → 0 < n → ((x : A) → key x ≡ 0) → at_least n xs ≡ 0
  unfolding at_least
  at_least_zero n [] h f = refl
  at_least_zero n (x ∷ xs) h f = ground (arith, f x, at_least_zero n xs h f)

none_overlaps :
    (q_tokens : List Text) (p : Text × Text) → is_empty q_tokens ≡ true → overlap q_tokens p ≡ 0
unfolding overlap
none_overlaps [] p h = refl
none_overlaps (t ∷ ts) p h = absurd (cc)

at_least-ranked :
    (q_tokens : List Text) (k n : ℕ) (rows : List FewShot)
    → 0 < n
    → at_least (overlap q_tokens) n (take k (ranked q_tokens rows))
      ≡ min k (at_least (overlap q_tokens) n (map pair_of rows))
unfolding ranked
at_least-ranked q_tokens k n rows h =
    let key = overlap q_tokens in
    let relevant = keep (λ p. ltb 0 (key p)) (map pair_of rows) in
    at_least-take key n k (sort_by key relevant) (sort_by-IsFalling key relevant)
    ∙ ap (min k) (at_least-sort_by key n relevant ∙ at_least-keep key n (map pair_of rows) h)

-- For every number of shared words above 0, `search` returns as many examples that share that many
-- words with the question as there are, up to `k`: it returns the best.
pub search_best :
    (question : Text) (k n : ℕ) (rows : List FewShot)
    → 0 < n
    → at_least (overlap (long_tokens question)) n (search question k rows)
      ≡ min k (at_least (overlap (long_tokens question)) n (map pair_of rows))
unfolding search at_least
search_best question zero n rows h = omega arith
search_best question (suc k) n [] h = omega arith
search_best question (suc k) n (r ∷ rows) h =
    let q_tokens = long_tokens question in
    elim (Bool-cases (is_empty q_tokens)) [
      | inl blank ↦
          rw
            (
              blank,
              at_least_zero (overlap q_tokens) n (map pair_of (r ∷ rows)) h
                  (λ p. none_overlaps q_tokens p blank),
            )
            (omega arith)
      | inr words ↦ rw words (at_least-ranked q_tokens (suc k) n (r ∷ rows) h)
    ]
