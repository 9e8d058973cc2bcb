-- ===== src/Re/Language.antt =====
-- What a pattern of `re` means, apart from the matcher: `Matches r p u v` says that `r` matches
-- the text `u`, which stands after the character `p` and before the text `v`.
use insightkit.Prelude.{ℕ, true, false, Option, some, [], ◌∷◌, ◌++◌, ◌≡◌, refl, ◌⊎◌, Text, all}
use insightkit.Re.Syntax.{
  Regex, eps, cls, seq, alt, many, lazy, boundary, not_behind, not_ahead, holds, head, at_boundary,
}

-- The character before the end of `u`.
abbrev pub last_of : Option ℕ → Text → Option ℕ
last_of p [] = p
last_of p (x ∷ u) = last_of (some x) u

abbrev pub Matches : Regex → Option ℕ → Text → Text → Type 0
Matches eps p u v = u ≡ []
Matches (cls c) p u v = (x : ℕ) × (u ≡ x ∷ []) × (c x ≡ true)
Matches (seq a b) p u v =
    (s : Text) × (t : Text) × (u ≡ s ++ t) × Matches a p s (t ++ v) × Matches b (last_of p s) t v
Matches (alt a b) p u v = Matches a p u v ⊎ Matches b p u v
Matches (many c) p u v = all c u ≡ true
Matches (lazy c) p u v = all c u ≡ true
Matches boundary p u v = (u ≡ []) × (at_boundary p v ≡ true)
Matches (not_behind c) p u v = (u ≡ []) × (holds c p ≡ false)
Matches (not_ahead c) p u v = (u ≡ []) × (holds c (head v) ≡ false)

pub last_of-append : (p : Option ℕ) (u v : Text) → last_of p (u ++ v) ≡ last_of (last_of p u) v
last_of-append p [] v = refl
last_of-append p (x ∷ u) v = last_of-append (some x) u v
