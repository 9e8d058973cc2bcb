-- ===== src/Guard/Statement.antt =====
-- `_statements` of security/guard.py: the parts hold no semicolon, so an accepted text is one
-- statement.
use insightkit.Prelude.{
  ℕ, true, List, [], ◌∷◌, ◌++◌, ◌≡◌, refl, ◌&&◌, Bool, Text, not, all, All, arith, Bool-cases, inl,
  inr, is_empty, map, keep, split_on, split_cons, strip, strip-append, ◌==◌, all-append,
}
use mathlib.Core.Path.{subst}
use insightkit.Prelude.Result.{ok}
use insightkit.Guard.Sql.{statements, strip_comments, check_read_only, is_semicolon}
use insightkit.Guard.ReadOnly.{check_read_only_iff}

abbrev pub LacksSemicolon : Text → Type 0
LacksSemicolon s = all (λ c. not (is_semicolon c)) s ≡ true

All-split_cons :
    (x : ℕ) (ws : List Text) → All LacksSemicolon ws → All LacksSemicolon (split_cons b';' x ws)
unfolding split_cons
All-split_cons x [] h = elim (Bool-cases (x == b';')) [
  | inl e ↦ rw e (refl, (refl, tt))
  | inr e ↦ rw e (rw e, tt)
]
All-split_cons x (w ∷ ws) h = elim (Bool-cases (x == b';')) [
  | inl e ↦ rw e (refl, h)
  | inr e ↦ rw e (rw e h.0, h.1)
]

All-split_on : (s : Text) → All LacksSemicolon (split_on b';' s)
unfolding split_on
All-split_on [] = (refl, tt)
All-split_on (x ∷ xs) = All-split_cons x (split_on b';' xs) (All-split_on xs)

all-strip : (p : ℕ → Bool) (s : Text) → all p s ≡ true → all p (strip s) ≡ true
all-strip p s h =
    let (a, b, e, _, _) = strip-append s in
    let split : all p a && (all p (strip s) && all p b) ≡ true =
      rw (← all-append p (strip s) b, ← all-append p a (strip s ++ b), ← e) h in
    ground arith

All-keep-strip :
    (ws : List Text)
    → All LacksSemicolon ws
    → All LacksSemicolon (keep (λ p. not (is_empty p)) (map (λ p. strip p) ws))
All-keep-strip [] h = tt
All-keep-strip (w ∷ ws) h =
    let ih = All-keep-strip ws h.1 in
    elim (Bool-cases (not (is_empty (strip w)))) [
      | inl e ↦ rw e (all-strip (λ c. not (is_semicolon c)) w h.0, ih)
      | inr e ↦ rw e ih
    ]

All-statements : (sql : Text) → All LacksSemicolon (statements sql)
unfolding statements
All-statements sql =
    All-keep-strip (split_on b';' (strip_comments sql)) (All-split_on (strip_comments sql))

-- Whatever the input, a statement that `check_read_only` returns holds no semicolon: no second
-- statement can follow in it.
pub check_read_only-LacksSemicolon :
    (sql stmt : Text) → check_read_only sql ≡ ok stmt → LacksSemicolon stmt
check_read_only-LacksSemicolon sql stmt h =
    let (e, _) = (check_read_only_iff sql stmt).0 h in
    let parts : All LacksSemicolon (stmt ∷ []) =
      subst (All LacksSemicolon) e (All-statements sql) in
    parts.0
