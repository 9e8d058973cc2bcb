-- ===== src/Re/Matcher.antt =====
-- The matcher: Python's `re` engine, which backtracks. A position is the character before it (for
-- `\b` and look-behind) and the text that is left.
use insightkit.Prelude.{ℕ, Bool, true, false, Option, none, some, [], ◌∷◌, Text, if◌then◌else◌}
use insightkit.Re.Syntax.{
  Regex, eps, cls, seq, alt, many, lazy, boundary, not_behind, not_ahead, holds, head, at_boundary,
}

-- The matched text and the rest.
abbrev pub Found : Type 0
Found = Option (Text × Text)

abbrev pub Next : Type 0
Next = Option ℕ → Text → Found

abbrev pub push : ℕ → Found → Found
push x none = none
push x (some (u, v)) = some (x ∷ u, v)

abbrev pub or_else : Found → Found → Found
or_else none b = b
or_else (some m) b = some m

unfoldable pub greedy : (ℕ → Bool) → Option ℕ → Text → Next → Found
greedy c p [] k = k p []
greedy c p (x ∷ xs) k = elim (c x) [
  | true ↦ or_else (push x (greedy c (some x) xs k)) (k p (x ∷ xs))
  | false ↦ k p (x ∷ xs)
]

unfoldable pub reluctant : (ℕ → Bool) → Option ℕ → Text → Next → Found
reluctant c p [] k = k p []
reluctant c p (x ∷ xs) k = elim (k p (x ∷ xs)) [
  | some m ↦ some m
  | none ↦ elim (c x) [ true ↦ push x (reluctant c (some x) xs k) | false ↦ none ]
]

abbrev pub one : (ℕ → Bool) → Text → Next → Found
one c [] k = none
one c (x ∷ xs) k = if c x then push x (k (some x) xs) else none

unfoldable pub run : Regex → Option ℕ → Text → Next → Found
unfolding greedy reluctant
run eps p xs k = k p xs
run (cls c) p xs k = one c xs k
run (seq a b) p xs k = run a p xs (λ q ys. run b q ys k)
run (alt a b) p xs k = or_else (run a p xs k) (run b p xs k)
run (many c) p xs k = greedy c p xs k
run (lazy c) p xs k = reluctant c p xs k
run boundary p xs k = if at_boundary p xs then k p xs else none
run (not_behind c) p xs k = if holds c p then none else k p xs
run (not_ahead c) p xs k = if holds c (head xs) then none else k p xs

-- The end of a pattern: nothing more to match.
abbrev pub done : Next
done q ys = some ([], ys)

unfoldable pub match_at : Regex → Option ℕ → Text → Found
unfolding run
match_at r p xs = run r p xs done
