-- ===== src/Access/Metrics.antt =====
-- The counters of api/metrics.py.
use insightkit.Prelude.{
  ℕ, zero, suc, ◌+◌, ◌-◌, ◌≤◌, Bool, List, [], ◌∷◌, ◌++◌, ◌≡◌, length, drop, if◌then◌else◌, arith,
}

pub record Metrics : Type 0 where
  pub max_samples : ℕ
  pub latencies : List ℕ
  pub tokens_total : ℕ
  pub requests : ℕ
  pub cache_hits : ℕ
  pub cache_misses : ℕ
  pub errors : ℕ

-- `Metrics(max_samples)`
abbrev pub new_metrics : ℕ → Metrics
new_metrics max_samples = record {
  max_samples = max_samples;
  latencies = [];
  tokens_total = 0;
  requests = 0;
  cache_hits = 0;
  cache_misses = 0;
  errors = 0;
}

-- `append` on a `deque(maxlen=n)`, which drops from the left
unfoldable pub push_bounded : ℕ → ℕ → List ℕ → List ℕ
push_bounded n x xs = drop (length (xs ++ x ∷ []) - n) (xs ++ x ∷ [])

-- `record`
unfoldable pub record_request : ℕ → ℕ → Bool → Bool → Metrics → Metrics
record_request latency_ms tokens cached succeeded m = record m {
  latencies = push_bounded m.max_samples latency_ms m.latencies;
  tokens_total = m.tokens_total + tokens;
  requests = m.requests + 1;
  cache_hits = if cached then m.cache_hits + 1 else m.cache_hits;
  cache_misses = if cached then m.cache_misses else m.cache_misses + 1;
  errors = if succeeded then m.errors else m.errors + 1;
}

length-drop : {A : Type 0} (n : ℕ) (xs : List A) → length (drop n xs) ≡ length xs - n
length-drop zero xs = omega arith
length-drop (suc n) [] = omega arith
length-drop (suc n) (x ∷ xs) = omega (arith, length-drop n xs)

-- Every request is a hit or a miss, no more fail than were made, and the samples stay within
-- their bound.
pub record IsConsistent (m : Metrics) : Type 0 where
  pub split : m.cache_hits + m.cache_misses ≡ m.requests
  pub failed : m.errors ≤ m.requests
  pub bounded : length m.latencies ≤ m.max_samples

-- Recording a request keeps the counters consistent.
pub record_request-IsConsistent :
    (latency_ms tokens : ℕ) (cached succeeded : Bool) (m : Metrics)
    → IsConsistent m
    → IsConsistent (record_request latency_ms tokens cached succeeded m)
unfolding record_request push_bounded
record_request-IsConsistent latency_ms tokens cached succeeded m i = record {
  split = ground (arith, i.split);
  failed = ground (arith, i.failed);
  bounded = omega (
    arith,
    length-drop (length (m.latencies ++ latency_ms ∷ []) - m.max_samples)
        (m.latencies ++ latency_ms ∷ []),
  );
}
