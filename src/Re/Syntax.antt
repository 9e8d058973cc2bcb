-- ===== src/Re/Syntax.antt =====
-- The patterns of Python's `re` that the program uses: stars stand over character classes.
use insightkit.Prelude.{
  ℕ, zero, suc, Bool, true, false, not, Option, none, some, [], ◌∷◌, Text, ◌==◌, is_word, fold,
}

pub data Regex : Type 0 where
  eps : Regex
  cls : (ℕ → Bool) → Regex
  seq alt : Regex → Regex → Regex
  -- `[c]*` and `[c]*?`
  many lazy : (ℕ → Bool) → Regex
  -- `\b`, `(?<![c])` and `(?![c])`
  boundary : Regex
  not_behind not_ahead : (ℕ → Bool) → Regex

abbrev pub holds : (ℕ → Bool) → Option ℕ → Bool
holds c none = false
holds c (some x) = c x

abbrev pub head : Text → Option ℕ
head [] = none
head (x ∷ xs) = some x

abbrev pub differ : Bool → Bool → Bool
differ true b = not b
differ false b = b

abbrev pub at_boundary : Option ℕ → Text → Bool
at_boundary p xs = differ (holds is_word p) (holds is_word (head xs))

-- Derived forms.
abbrev pub chr : ℕ → Regex
chr x = cls (λ c. c == x)

-- A letter, digit or underscore of ASCII under IGNORECASE.
abbrev pub chr_ci : ℕ → Regex
chr_ci x = cls (λ c. fold c == x)

abbrev pub literal : Text → Regex
literal [] = eps
literal (x ∷ xs) = seq (chr x) (literal xs)

abbrev pub literal_ci : Text → Regex
literal_ci [] = eps
literal_ci (x ∷ xs) = seq (chr_ci x) (literal_ci xs)

-- `r?`
abbrev pub optional : Regex → Regex
optional r = alt r eps

-- `[c]+`
abbrev pub some_of : (ℕ → Bool) → Regex
some_of c = seq (cls c) (many c)

-- `r{0,n}`
abbrev pub up_to : ℕ → Regex → Regex
up_to zero r = eps
up_to (suc n) r = optional (seq r (up_to n r))

-- `r{m,m+n}`
abbrev pub between : ℕ → ℕ → Regex → Regex
between zero n r = up_to n r
between (suc m) n r = seq r (between m n r)

-- `\b r \b`
abbrev pub whole_word : Regex → Regex
whole_word r = seq boundary (seq r boundary)
