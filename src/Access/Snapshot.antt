-- ===== src/Access/Snapshot.antt =====
-- `Metrics.snapshot` of api/metrics.py. The mean and the hit rate are kept as the ratios that the
-- source rounds to one and to three decimals.
use insightkit.Prelude.{
  ℕ, zero, suc, ◌+◌, ◌-◌, ◌*◌, ◌/◌, ◌≤◌, ◌<◌, min, List, [], ◌∷◌, ◌≡◌, refl, ◌∙◌, ap, length, All,
  if◌then◌else◌, ltb, leb, arith, inl, inr, Bool-cases, leb→le,
}
use insightkit.Access.Metrics.{Metrics}

unfoldable pub insert : ℕ → List ℕ → List ℕ
insert x [] = x ∷ []
insert x (y ∷ ys) = let rest = insert x ys in if leb x y then x ∷ y ∷ ys else y ∷ rest

-- `sorted(xs)`
unfoldable pub sorted : List ℕ → List ℕ
sorted [] = []
sorted (x ∷ xs) = insert x (sorted xs)

abbrev pub sum : List ℕ → ℕ
sum [] = 0
sum (x ∷ xs) = x + sum xs

-- `xs[i]`, and 0 for a list that is empty
abbrev pub at : List ℕ → ℕ → ℕ
at [] i = 0
at (x ∷ xs) zero = x
at (x ∷ xs) (suc i) = at xs i

-- `int(total * 0.5)` and `int(total * 0.95)`, which is exact for the at most 500 samples
unfoldable pub p50 : List ℕ → ℕ
p50 lats = at lats (length lats / 2)

unfoldable pub p95 : List ℕ → ℕ
p95 lats = at lats (min (length lats * 95 / 100) (length lats - 1))

pub record Snapshot : Type 0 where
  pub requests : ℕ
  pub errors : ℕ
  pub median : ℕ
  pub slow : ℕ
  -- the sum and the number of the latencies
  pub mean : ℕ × ℕ
  pub tokens_total : ℕ
  -- the hits and the requests that asked the cache
  pub cache_hit_rate : ℕ × ℕ
  pub uptime_s : ℕ

-- `snapshot`, some seconds after the start
unfoldable pub snapshot : ℕ → Metrics → Snapshot
snapshot uptime m =
    let lats = sorted m.latencies in
    record {
      requests = m.requests;
      errors = m.errors;
      median = p50 lats;
      slow = p95 lats;
      mean = (sum lats, length lats);
      tokens_total = m.tokens_total;
      cache_hit_rate = (m.cache_hits, m.cache_hits + m.cache_misses);
      uptime_s = uptime;
    }

-- How many samples are above a bound.
unfoldable pub above : ℕ → List ℕ → ℕ
above t [] = 0
above t (x ∷ xs) = if ltb t x then suc (above t xs) else above t xs

length-insert : (x : ℕ) (ys : List ℕ) → length (insert x ys) ≡ suc (length ys)
unfolding insert
length-insert x [] = refl
length-insert x (y ∷ ys) = ground (arith, length-insert x ys)

length-sorted : (xs : List ℕ) → length (sorted xs) ≡ length xs
unfolding sorted
length-sorted [] = refl
length-sorted (x ∷ xs) = omega (arith, length-insert x (sorted xs), length-sorted xs)

above-insert : (t x : ℕ) (ys : List ℕ) → above t (insert x ys) ≡ above t (x ∷ ys)
unfolding insert above
above-insert t x [] = refl
above-insert t x (y ∷ ys) = ground (arith, above-insert t x ys)

above-sorted : (t : ℕ) (xs : List ℕ) → above t (sorted xs) ≡ above t xs
unfolding sorted above
above-sorted t [] = refl
above-sorted t (x ∷ xs) =
    above-insert t x (sorted xs) ∙ ap (λ n. if ltb t x then suc n else n) (above-sorted t xs)

abbrev IsSorted : List ℕ → Type 0
IsSorted [] = Unit
IsSorted (x ∷ xs) = All (λ y. x ≤ y) xs × IsSorted xs

All-insert : (x y : ℕ) (ys : List ℕ) → x ≤ y → All (λ z. x ≤ z) ys → All (λ z. x ≤ z) (insert y ys)
unfolding insert
All-insert x y [] h k = (h, tt)
All-insert x y (z ∷ ys) h k = elim (Bool-cases (leb y z)) [
  | inl le ↦ rw le (h, k)
  | inr gt ↦ rw gt (k.0, All-insert x y ys h k.1)
]

All-weaken : (x y : ℕ) (ys : List ℕ) → x ≤ y → All (λ z. y ≤ z) ys → All (λ z. x ≤ z) ys
All-weaken x y [] h k = tt
All-weaken x y (z ∷ ys) h k = (omega (arith, k.0), All-weaken x y ys h k.1)

insert-IsSorted : (x : ℕ) (ys : List ℕ) → IsSorted ys → IsSorted (insert x ys)
unfolding insert
insert-IsSorted x [] h = (tt, tt)
insert-IsSorted x (y ∷ ys) h = elim (Bool-cases (leb x y)) [
  | inl le ↦ rw le ((leb→le x y le, All-weaken x y ys (leb→le x y le) h.0), h)
  | inr gt ↦ rw gt (All-insert y x ys (ground arith) h.0, insert-IsSorted x ys h.1)
]

sorted-IsSorted : (xs : List ℕ) → IsSorted (sorted xs)
unfolding sorted
sorted-IsSorted [] = tt
sorted-IsSorted (x ∷ xs) = insert-IsSorted x (sorted xs) (sorted-IsSorted xs)

All-at : (x i : ℕ) (xs : List ℕ) → All (λ y. x ≤ y) xs → i < length xs → x ≤ at xs i
All-at x i [] h k = absurd (omega arith)
All-at x zero (y ∷ ys) h k = h.0
All-at x (suc i) (y ∷ ys) h k = All-at x i ys h.1 (omega arith)

above-none : (x : ℕ) (xs : List ℕ) → above x xs ≤ length xs
unfolding above
above-none x [] = omega arith
above-none x (y ∷ ys) = ground (arith, above-none x ys)

-- In a sorted list, what is above an element stands after it.
above-at :
    (i : ℕ) (xs : List ℕ) → IsSorted xs → i < length xs → above (at xs i) xs + suc i ≤ length xs
unfolding above
above-at i [] h k = absurd (omega arith)
above-at zero (x ∷ xs) h k = ground (arith, above-none x xs)
above-at (suc i) (x ∷ xs) h k =
    ground (arith, above-at i xs h.1 (omega arith), All-at x i xs h.0 (omega arith))

at_mono : (i j : ℕ) (xs : List ℕ) → IsSorted xs → i ≤ j → j < length xs → at xs i ≤ at xs j
at_mono i j [] h k l = absurd (omega arith)
at_mono zero zero (x ∷ xs) h k l = omega arith
at_mono zero (suc j) (x ∷ xs) h k l = All-at x j xs h.0 (omega arith)
at_mono (suc i) zero (x ∷ xs) h k l = absurd (omega arith)
at_mono (suc i) (suc j) (x ∷ xs) h k l = at_mono i j xs h.1 (omega arith) (omega arith)

-- Where there are samples, fewer than half of them are above the median, fewer than one in twenty
-- above the 95th percentile, and the median is not above that.
pub snapshot-percentiles :
    (uptime : ℕ) (m : Metrics)
    → 0 < length m.latencies
    → (2 * above (snapshot uptime m).median m.latencies < length m.latencies)
      × (20 * above (snapshot uptime m).slow m.latencies < length m.latencies)
      × ((snapshot uptime m).median ≤ (snapshot uptime m).slow)
unfolding snapshot p50 p95
snapshot-percentiles uptime m h =
    let lats = sorted m.latencies in
    let n : length lats ≡ length m.latencies = length-sorted m.latencies in
    let i = length lats / 2 in
    let j = min (length lats * 95 / 100) (length lats - 1) in
    let ordered = sorted-IsSorted m.latencies in
    (
      omega (
        arith,
        n,
        above-sorted (at lats i) m.latencies,
        above-at i lats ordered (omega (arith, n)),
      ),
      omega (
        arith,
        n,
        above-sorted (at lats j) m.latencies,
        above-at j lats ordered (omega (arith, n)),
      ),
      at_mono i j lats ordered (omega (arith, n)) (omega (arith, n)),
    )
