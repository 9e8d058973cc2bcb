-- ===== src/Access/Limiter.antt =====
-- `RateLimiter` of api/auth.py. The monotonic clock counts in microseconds.
pub mod Window
use insightkit.Prelude.{
  ℕ, ◌+◌, Bool, true, false, Option, none, some, List, [], ◌∷◌, ◌++◌, Text, ltb, leb, keep, length,
  if◌then◌else◌,
}
use insightkit.Prelude.Dict.{Dict, get, put}

abbrev pub window : ℕ
window = 60_000_000

pub record RateLimiter : Type 0 where
  pub limit : ℕ
  pub hits : Dict (List ℕ)

-- `RateLimiter(limit_per_min)`
abbrev pub new_limiter : ℕ → RateLimiter
new_limiter limit_per_min = record { limit = limit_per_min; hits = [] }

-- A key that is missing in the `defaultdict` is an empty list.
abbrev pub or_empty : Option (List ℕ) → List ℕ
or_empty none = []
or_empty (some hs) = hs

unfoldable pub hits_of : Text → RateLimiter → List ℕ
hits_of user l = or_empty (get user l.hits)

-- `h > now - 60`
abbrev pub is_recent : ℕ → ℕ → Bool
is_recent now h = ltb now (h + window)

abbrev pub with_hits : RateLimiter → Text → List ℕ → RateLimiter
with_hits l user hs = record l { hits = put user hs l.hits }

-- `allow`
unfoldable pub allow : ℕ → Text → RateLimiter → Bool × RateLimiter
allow now user l =
    let hs = keep (is_recent now) (hits_of user l) in
    if leb l.limit (length hs)
    then (false, with_hits l user hs)
    else (true, with_hits l user (hs ++ now ∷ []))
