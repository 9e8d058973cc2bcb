-- ===== src/Re/Scan.antt =====
-- `re.search`, `re.sub` and `re.finditer`. Each scans from left to right and jumps over what it
-- matched.
pub mod Search
pub mod Iterate
use insightkit.Prelude.{
  ℕ, zero, suc, ◌-◌, Bool, true, false, Option, none, some, List, [], ◌∷◌, ◌++◌, Text, length,
}
use insightkit.Re.Syntax.{Regex}
use insightkit.Re.Matcher.{Found, match_at}

-- One match of a text: what stands before it, the match, and what follows.
pub record Match : Type 0 where
  pub before : Text
  pub group : Text
  pub after : Text

abbrev pub is_found : Found → Bool
is_found none = false
is_found (some m) = true

-- `bool(re.search(r, xs))`, from a position after the character `p`.
unfoldable pub search_from : Regex → Option ℕ → Text → Bool
search_from r p [] = is_found (match_at r p [])
search_from r p (x ∷ xs) = elim (match_at r p (x ∷ xs)) [
  | some m ↦ true
  | none ↦ search_from r (some x) xs
]

unfoldable pub search : Regex → Text → Bool
search r xs = search_from r none xs

abbrev pub behind : ℕ → Option Match → Option Match
behind x none = none
behind x (some m) = some (record m { before = x ∷ m.before })

-- `re.search(r, xs)`: the first match.
unfoldable pub find_from : Regex → Option ℕ → Text → Option Match
find_from r p [] = elim (match_at r p []) [
  | some (u, v) ↦ some (record { before = []; group = u; after = v })
  | none ↦ none
]
find_from r p (x ∷ xs) = elim (match_at r p (x ∷ xs)) [
  | some (u, v) ↦ some (record { before = []; group = u; after = v })
  | none ↦ behind x (find_from r (some x) xs)
]

unfoldable pub find : Regex → Text → Option Match
find r xs = find_from r none xs

-- `skip` characters of the last match are still to be passed.
unfoldable pub sub_from : Regex → Text → ℕ → Option ℕ → Text → Text
sub_from r rep zero p [] = elim (match_at r p []) [ some m ↦ rep | none ↦ [] ]
sub_from r rep (suc k) p [] = []
sub_from r rep (suc k) p (x ∷ xs) = sub_from r rep k (some x) xs
sub_from r rep zero p (x ∷ xs) = elim (match_at r p (x ∷ xs)) [
  | none ↦ x ∷ sub_from r rep zero (some x) xs
  | some ([], v) ↦ rep ++ (x ∷ sub_from r rep zero (some x) xs)
  | some (y ∷ u, v) ↦ rep ++ sub_from r rep (length u) (some x) xs
]

-- `re.sub(r, rep, xs)`
unfoldable pub sub : Regex → Text → Text → Text
sub r rep xs = sub_from r rep zero none xs

-- `seen` is the text before the position.
unfoldable pub finditer_from : Regex → ℕ → Text → Option ℕ → Text → List Match
finditer_from r k seen p [] = []
finditer_from r (suc k) seen p (x ∷ xs) = finditer_from r k (seen ++ x ∷ []) (some x) xs
finditer_from r zero seen p (x ∷ xs) = elim (match_at r p (x ∷ xs)) [
  | none ↦ finditer_from r zero (seen ++ x ∷ []) (some x) xs
  | some ([], v) ↦ finditer_from r zero (seen ++ x ∷ []) (some x) xs
  | some (y ∷ u, v) ↦
      record { before = seen; group = y ∷ u; after = v }
      ∷ finditer_from r (length u) (seen ++ x ∷ []) (some x) xs
]

-- `re.finditer(r, xs)`, for a pattern that matches no empty text.
unfoldable pub finditer : Regex → Text → List Match
finditer r xs = finditer_from r zero [] none xs
