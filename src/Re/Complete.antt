-- ===== src/Re/Complete.antt =====
-- The matcher fails only where the pattern matches nothing.
use insightkit.Prelude.{
  ℕ, Bool, true, none, some, Option, [], ◌∷◌, ◌++◌, ◌≡◌, refl, inl, inr, Text, all, arith,
  Bool-cases, Option-cases, append_assoc,
}
use insightkit.Re.Syntax.{Regex, eps, cls, seq, alt, many, lazy, boundary, not_behind, not_ahead}
use insightkit.Re.Matcher.{Next, Found, push, or_else, greedy, reluctant, run, match_at, done}
use insightkit.Re.Language.{last_of, Matches, last_of-append}

abbrev Succeeds : Found → Type 0
Succeeds f = (m : Text × Text) × (f ≡ some m)

Succeeds-push : (x : ℕ) (f : Found) → Succeeds f → Succeeds (push x f)
Succeeds-push x none (m, h) = absurd (cc)
Succeeds-push x (some (u, v)) h = ((x ∷ u, v), refl)

Succeeds-or_else_right : (f g : Found) → Succeeds g → Succeeds (or_else f g)
Succeeds-or_else_right none g h = h
Succeeds-or_else_right (some m) g h = (m, refl)

Succeeds-or_else_left : (f g : Found) → Succeeds f → Succeeds (or_else f g)
Succeeds-or_else_left none g (m, h) = absurd (cc)
Succeeds-or_else_left (some m) g h = (m, refl)

greedy_complete :
    (c : ℕ → Bool) (p : Option ℕ) (u v : Text) (k : Next)
    → all c u ≡ true
    → Succeeds (k (last_of p u) v)
    → Succeeds (greedy c p (u ++ v) k)
unfolding greedy
greedy_complete c p [] [] k a h = h
greedy_complete c p [] (x ∷ v) k a h = elim (Bool-cases (c x)) [
  | inl e ↦ rw e (Succeeds-or_else_right (push x (greedy c (some x) v k)) (k p (x ∷ v)) h)
  | inr e ↦ rw e h
]
greedy_complete c p (x ∷ u) v k a h =
    let e : c x ≡ true = ground arith in
    rw e (
      Succeeds-or_else_left (push x (greedy c (some x) (u ++ v) k)) (k p (x ∷ u ++ v)) (
        Succeeds-push x (greedy c (some x) (u ++ v) k)
          (greedy_complete c (some x) u v k (ground arith) h)))

reluctant_complete :
    (c : ℕ → Bool) (p : Option ℕ) (u v : Text) (k : Next)
    → all c u ≡ true
    → Succeeds (k (last_of p u) v)
    → Succeeds (reluctant c p (u ++ v) k)
unfolding reluctant
reluctant_complete c p [] [] k a h = h
reluctant_complete c p [] (x ∷ v) k a (m, h) = (m, rw h)
reluctant_complete c p (x ∷ u) v k a h = elim (Option-cases (k p (x ∷ u ++ v))) [
  | inr (m, e) ↦ (m, rw e)
  | inl e ↦
      let e' : c x ≡ true = ground arith in
      rw (e, e')
        (Succeeds-push x (reluctant c (some x) (u ++ v) k)
          (reluctant_complete c (some x) u v k (ground arith) h))
]

run_complete :
    (r : Regex) (p : Option ℕ) (u v : Text) (k : Next)
    → Matches r p u v
    → Succeeds (k (last_of p u) v)
    → Succeeds (run r p (u ++ v) k)
unfolding run
run_complete eps p u v k e h = rw e (rw e at h)
run_complete (cls c) p u v k (x, e, cx) h = rw (e, cx) (Succeeds-push x (k (some x) v) (rw e at h))
run_complete (seq a b) p u v k (s, t, e, ma, mb) h =
    rw (e, append_assoc)
      (run_complete a p s (t ++ v) (λ q ys. run b q ys k) ma
        (run_complete b (last_of p s) t v k mb (rw (← last_of-append p s t) (rw e at h))))
run_complete (alt a b) p u v k (inl m) h =
    Succeeds-or_else_left (run a p (u ++ v) k) (run b p (u ++ v) k) (run_complete a p u v k m h)
run_complete (alt a b) p u v k (inr m) h =
    Succeeds-or_else_right (run a p (u ++ v) k) (run b p (u ++ v) k) (run_complete b p u v k m h)
run_complete (many c) p u v k m h = greedy_complete c p u v k m h
run_complete (lazy c) p u v k m h = reluctant_complete c p u v k m h
run_complete boundary p u v k (e, m) h = rw (e, m) (rw e at h)
run_complete (not_behind c) p u v k (e, m) h = rw (e, m) (rw e at h)
run_complete (not_ahead c) p u v k (e, m) h = rw (e, m) (rw e at h)

-- Where the pattern matches a first part of the text, the matcher succeeds.
pub match_at_complete :
    (r : Regex) (p : Option ℕ) (u v : Text)
    → Matches r p u v
    → (m : Text × Text) × (match_at r p (u ++ v) ≡ some m)
unfolding match_at
match_at_complete r p u v m = run_complete r p u v done m (([], v), refl)
