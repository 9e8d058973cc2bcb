-- ===== src/Re/Scan/Iterate.antt =====
-- Every match that `finditer` returns splits the text, and the pattern matches it where it stands.
use insightkit.Prelude.{
  ℕ, zero, suc, none, some, Option, [], ◌∷◌, ◌++◌, ◌≡◌, refl, sym, ◌∙◌, ap, inl, inr, Text, All,
  length, append_assoc, Option-cases,
}
use insightkit.Re.Syntax.{Regex}
use insightkit.Re.Matcher.{match_at}
use insightkit.Re.Language.{last_of, Matches, last_of-append}
use insightkit.Re.Sound.{match_at_sound}
use insightkit.Re.Scan.{Match, finditer, finditer_from}

pub record IsMatchOf (r : Regex) (whole : Text) (m : Match) : Type 0 where
  pub splits : whole ≡ m.before ++ (m.group ++ m.after)
  pub matches : Matches r (last_of none m.before) m.group m.after

module _ (r : Regex) (whole : Text) where
  All-finditer_from :
      (k : ℕ) (seen : Text) (p : Option ℕ) (xs : Text)
      → whole ≡ seen ++ xs
      → p ≡ last_of none seen
      → All (IsMatchOf r whole) (finditer_from r k seen p xs)
  unfolding finditer_from
  All-finditer_from zero seen p [] e q = tt
  All-finditer_from (suc k) seen p [] e q = tt
  All-finditer_from (suc k) seen p (x ∷ xs) e q =
      All-finditer_from k (seen ++ x ∷ []) (some x) xs (rw append_assoc e)
        (sym (last_of-append none seen (x ∷ [])))
  All-finditer_from zero seen p (x ∷ xs) e q =
      let rest = λ (k : ℕ).
        All-finditer_from k (seen ++ x ∷ []) (some x) xs (rw append_assoc e)
          (sym (last_of-append none seen (x ∷ []))) in
      elim (Option-cases (match_at r p (x ∷ xs))) [
        | inl f ↦ rw (f, finditer_from) (rest zero)
        | inr (([], v), f) ↦ rw (f, finditer_from) (rest zero)
        | inr ((y ∷ u, v), f) ↦
            let (e', m) = match_at_sound r p (x ∷ xs) (y ∷ u) v f in
            rw (f, finditer_from)
              (record { splits = e ∙ ap (◌++◌ seen) e'; matches = rw q at m }, rest (length u))
      ]

-- Each match found lies in the text, and matches the pattern there.
pub All-finditer : (r : Regex) (xs : Text) → All (IsMatchOf r xs) (finditer r xs)
unfolding finditer
All-finditer r xs = All-finditer_from r xs zero [] none xs refl refl
