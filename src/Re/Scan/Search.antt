-- ===== src/Re/Scan/Search.antt =====
-- `search` finds a match exactly where the pattern matches a part of the text.
use insightkit.Prelude.{
  ℕ, true, none, some, Option, [], ◌∷◌, ◌++◌, ◌≡◌, ◌↔◌, inl, inr, Text, arith, ap, Option-cases,
}
use insightkit.Re.Syntax.{Regex}
use insightkit.Re.Matcher.{match_at}
use insightkit.Re.Language.{last_of, Matches}
use insightkit.Re.Sound.{match_at_sound}
use insightkit.Re.Complete.{match_at_complete}
use insightkit.Re.Scan.{search, search_from}

-- The text is `pre ++ u ++ post`, and the pattern matches `u` there.
abbrev pub Occurs : Regex → Option ℕ → Text → Type 0
Occurs r p xs =
    (pre : Text) × (u : Text) × (post : Text) × (xs ≡ pre ++ (u ++ post))
    × Matches r (last_of p pre) u post

search_from_sound :
    (r : Regex) (p : Option ℕ) (xs : Text) → search_from r p xs ≡ true → Occurs r p xs
unfolding search_from
search_from_sound r p [] h = elim (Option-cases (match_at r p [])) [
  | inl e ↦ absurd (ground arith)
  | inr ((u, v), e) ↦ let (e', m) = match_at_sound r p [] u v e in ([], u, v, e', m)
]
search_from_sound r p (x ∷ xs) h = elim (Option-cases (match_at r p (x ∷ xs))) [
  | inr ((u, v), e) ↦ let (e', m) = match_at_sound r p (x ∷ xs) u v e in ([], u, v, e', m)
  | inl e ↦
      let (pre, u, post, e', m) = search_from_sound r (some x) xs (ground arith) in
      (x ∷ pre, u, post, ap (◌∷◌ x) e', m)
]

search_from_here :
    (r : Regex) (p : Option ℕ) (xs : Text)
    → (m : Text × Text) × (match_at r p xs ≡ some m)
    → search_from r p xs ≡ true
unfolding search_from
search_from_here r p [] (m, e) = rw e
search_from_here r p (x ∷ xs) (m, e) = rw (e, search_from)

search_from_complete :
    (r : Regex) (p : Option ℕ) (pre u post : Text)
    → Matches r (last_of p pre) u post
    → search_from r p (pre ++ (u ++ post)) ≡ true
unfolding search_from
search_from_complete r p [] u post m =
    search_from_here r p (u ++ post) (match_at_complete r p u post m)
search_from_complete r p (x ∷ pre) u post m =
    elim (Option-cases (match_at r p (x ∷ pre ++ (u ++ post)))) [
      | inl e ↦ rw (e, search_from) (search_from_complete r (some x) pre u post m)
      | inr (f, e) ↦ rw (e, search_from)
    ]

-- `re.search` succeeds exactly when the pattern matches some part of the text, in its context.
pub search_iff : (r : Regex) (xs : Text) → (search r xs ≡ true) ↔ Occurs r none xs
unfolding search
search_iff r xs = (
  search_from_sound r none xs,
  λ (pre, u, post, e, m). rw e (search_from_complete r none pre u post m),
)
