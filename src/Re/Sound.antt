-- ===== src/Re/Sound.antt =====
-- The matcher finds only what the pattern matches.
use insightkit.Prelude.{
  ℕ, Bool, true, Option, none, some, [], ◌∷◌, ◌++◌, ◌≡◌, refl, ap, sym, ◌∙◌, ◌⊎◌, inl, inr, Text,
  all, arith, Bool-cases, Option-cases, append_assoc, append-nil,
}
use mathlib.Core.Path.{subst}
use insightkit.Re.Syntax.{
  Regex, eps, cls, seq, alt, many, lazy, boundary, not_behind, not_ahead, holds, head, at_boundary,
}
use insightkit.Re.Matcher.{Next, Found, push, or_else, greedy, reluctant, run, match_at, done}
use insightkit.Re.Language.{last_of, Matches, last_of-append}

-- The parts of a success: what the pattern took, and what the continuation found.
abbrev Split : (Text → Text → Type 0) → Option ℕ → Text → Next → Text → Text → Type 0
Split M p xs k w rest =
    (u : Text) × (v : Text) × (z : Text) × (xs ≡ u ++ v)
    × M u v
    × (k (last_of p u) v ≡ some (z, rest))
    × (w ≡ u ++ z)

push-eq_some :
    (x : ℕ) (f : Found) (w rest : Text)
    → push x f ≡ some (w, rest)
    → (w' : Text) × (f ≡ some (w', rest)) × (w ≡ x ∷ w')
push-eq_some x none w rest h = absurd (ground arith)
push-eq_some x (some (u, v)) w rest h = (u, ground arith, ground arith)

or_else-eq_some :
    (f g : Found) (w rest : Text)
    → or_else f g ≡ some (w, rest)
    → (f ≡ some (w, rest)) ⊎ (g ≡ some (w, rest))
or_else-eq_some none g w rest h = inr h
or_else-eq_some (some m) g w rest h = inl h

-- One more character of the class before a run of it.
Split-cons :
    (c : ℕ → Bool) (x : ℕ) (p : Option ℕ) (xs : Text) (k : Next) (w rest : Text)
    → c x ≡ true
    → Split (λ u v. all c u ≡ true) (some x) xs k w rest
    → Split (λ u v. all c u ≡ true) p (x ∷ xs) k (x ∷ w) rest
Split-cons c x p xs k w rest cx (u, v, z, e, m, h, ew) =
    (x ∷ u, v, z, ap (◌∷◌ x) e, ground arith, h, ap (◌∷◌ x) ew)

greedy_sound :
    (c : ℕ → Bool) (p : Option ℕ) (xs : Text) (k : Next) (w rest : Text)
    → greedy c p xs k ≡ some (w, rest)
    → Split (λ u v. all c u ≡ true) p xs k w rest
unfolding greedy
greedy_sound c p [] k w rest h = ([], [], w, refl, refl, h, refl)
greedy_sound c p (x ∷ xs) k w rest h = elim (Bool-cases (c x)) [
  | inr no' ↦ ([], x ∷ xs, w, refl, refl, ground arith, refl)
  | inl yes' ↦
      elim (or_else-eq_some (push x (greedy c (some x) xs k)) (k p (x ∷ xs)) w rest
        (ground arith)) [
          | inr stop ↦ ([], x ∷ xs, w, refl, refl, stop, refl)
          | inl more ↦
              let (w', e, ew) = push-eq_some x (greedy c (some x) xs k) w rest more in
              rw ew (Split-cons c x p xs k w' rest yes' (greedy_sound c (some x) xs k w' rest e))
        ]
]

reluctant_sound :
    (c : ℕ → Bool) (p : Option ℕ) (xs : Text) (k : Next) (w rest : Text)
    → reluctant c p xs k ≡ some (w, rest)
    → Split (λ u v. all c u ≡ true) p xs k w rest
unfolding reluctant
reluctant_sound c p [] k w rest h = ([], [], w, refl, refl, h, refl)
reluctant_sound c p (x ∷ xs) k w rest h = elim (Option-cases (k p (x ∷ xs))) [
  | inr (m, e) ↦ ([], x ∷ xs, w, refl, refl, ground arith, refl)
  | inl e ↦ elim (Bool-cases (c x)) [
    | inr no' ↦ absurd (ground arith)
    | inl yes' ↦
        let (w', e', ew) = push-eq_some x (reluctant c (some x) xs k) w rest (ground arith) in
        rw ew (Split-cons c x p xs k w' rest yes' (reluctant_sound c (some x) xs k w' rest e'))
  ]
]

run_sound :
    (r : Regex) (p : Option ℕ) (xs : Text) (k : Next) (w rest : Text)
    → run r p xs k ≡ some (w, rest)
    → Split (Matches r p) p xs k w rest
unfolding run
run_sound eps p xs k w rest h = ([], xs, w, refl, refl, h, refl)
run_sound (cls c) p [] k w rest h = absurd (ground arith)
run_sound (cls c) p (x ∷ xs) k w rest h = elim (Bool-cases (c x)) [
  | inr no' ↦ absurd (ground arith)
  | inl yes' ↦
      let (w', e, ew) = push-eq_some x (k (some x) xs) w rest (ground arith) in
      (x ∷ [], xs, w', refl, (x, refl, yes'), e, ew)
]
run_sound (seq a b) p xs k w rest h =
    let (u, v, z, e, m, h', ew) = run_sound a p xs (λ q ys. run b q ys k) w rest h in
    let (u', v', z', e', m', h'', ew') = run_sound b (last_of p u) v k z rest h' in
    (
      u ++ u',
      v',
      z',
      e ∙ ap (◌++◌ u) e' ∙ sym (append_assoc u u' v'),
      (u, u', refl, rw e' at m, m'),
      rw last_of-append h'',
      ew ∙ ap (◌++◌ u) ew' ∙ sym (append_assoc u u' z'),
    )
run_sound (alt a b) p xs k w rest h =
    elim (or_else-eq_some (run a p xs k) (run b p xs k) w rest h) [
      | inl l ↦
          let (u, v, z, e, m, h', ew) = run_sound a p xs k w rest l in (u, v, z, e, inl m, h', ew)
      | inr r ↦
          let (u, v, z, e, m, h', ew) = run_sound b p xs k w rest r in (u, v, z, e, inr m, h', ew)
    ]
run_sound (many c) p xs k w rest h = greedy_sound c p xs k w rest h
run_sound (lazy c) p xs k w rest h = reluctant_sound c p xs k w rest h
run_sound boundary p xs k w rest h = elim (Bool-cases (at_boundary p xs)) [
  | inl e ↦ ([], xs, w, refl, (refl, e), ground arith, refl)
  | inr e ↦ absurd (ground arith)
]
run_sound (not_behind c) p xs k w rest h = elim (Bool-cases (holds c p)) [
  | inl e ↦ absurd (ground arith)
  | inr e ↦ ([], xs, w, refl, (refl, e), ground arith, refl)
]
run_sound (not_ahead c) p xs k w rest h = elim (Bool-cases (holds c (head xs))) [
  | inl e ↦ absurd (ground arith)
  | inr e ↦ ([], xs, w, refl, (refl, e), ground arith, refl)
]

-- A match splits the text, and the pattern matches the first part where it stands.
pub match_at_sound :
    (r : Regex) (p : Option ℕ) (xs u v : Text)
    → match_at r p xs ≡ some (u, v)
    → (xs ≡ u ++ v) × Matches r p u v
unfolding match_at
match_at_sound r p xs w rest h =
    let (u, v, z, e, m, h', ew) = run_sound r p xs done w rest h in
    let ez : z ≡ [] = ground arith in
    let ev : v ≡ rest = ground arith in
    let ewu : w ≡ u = ew ∙ ap (◌++◌ u) ez ∙ append-nil u in
    (rw ewu (subst (λ y. xs ≡ u ++ y) ev e), rw ewu (subst (λ y. Matches r p u y) ev m))
