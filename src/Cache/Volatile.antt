-- ===== src/Cache/Volatile.antt =====
-- `is_cacheable` of cache.py: what it takes for a query to be volatile.
use insightkit.Prelude.{
  ℕ, Bool, true, false, none, [], ◌∷◌, ◌++◌, ◌≡◌, inl, inr, Text, any, ◌==◌, Bool-cases, arith,
}
use insightkit.Re.Scan.{search}
use insightkit.Re.Scan.Search.{Occurs, search_iff}
use insightkit.Cache.Store.{volatile_re, is_cacheable}

abbrev pub has_paren : Text → Bool
has_paren = any (λ c. c == b'(')

has_paren-middle :
    (x : ℕ) (before after' : Text) → (x == b'(') ≡ true → has_paren (before ++ x ∷ after') ≡ true
has_paren-middle x [] after' h = rw h
has_paren-middle x (y ∷ before) after' h = ground (arith, has_paren-middle x before after' h)

has_paren-left : (s t : Text) → has_paren s ≡ true → has_paren (s ++ t) ≡ true
has_paren-left [] t h = absurd (cc)
has_paren-left (x ∷ s) t h = ground (arith, has_paren-left s t)

has_paren-right : (s t : Text) → has_paren t ≡ true → has_paren (s ++ t) ≡ true
has_paren-right [] t h = h
has_paren-right (x ∷ s) t h = ground (arith, has_paren-right s t h)

volatile-has_paren : (sql : Text) → Occurs volatile_re none sql → has_paren sql ≡ true
volatile-has_paren sql
      (pre, u, post, e, (s, t, e₁, b, (s₂, t₂, e₂, n, (s₃, t₃, e₃, sp, (x, e₄, c))))) =
    let last : has_paren t₂ ≡ true = rw (e₃, e₄) (has_paren-middle x s₃ [] c) in
    let named : has_paren t ≡ true = rw e₂ (has_paren-right s₂ t₂ last) in
    let matched : has_paren u ≡ true = rw e₁ (has_paren-right s t named) in
    rw e (has_paren-right pre (u ++ post) (has_paren-left u post matched))

-- A query without an opening parenthesis is cacheable, whatever it calls: CURRENT_DATE and
-- CURRENT_TIMESTAMP, which SQL writes without one, do not make it volatile.
pub is_cacheable_without_paren : (sql : Text) → has_paren sql ≡ false → is_cacheable sql ≡ true
unfolding is_cacheable
is_cacheable_without_paren sql h = elim (Bool-cases (search volatile_re sql)) [
  | inl found ↦ absurd (cc (volatile-has_paren sql ((search_iff volatile_re sql).0 found)))
  | inr missed ↦ rw missed
]
