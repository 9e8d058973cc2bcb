-- ===== src/Guard/ReadOnly.antt =====
-- `check_read_only` of security/guard.py: what it accepts, and what the accepted text cannot hold.
use insightkit.Prelude.{
  true, false, List, [], ◌∷◌, ◌≡◌, ap, ◌↔◌, inl, inr, Text, arith, Option-cases, is_empty, is_space,
  lower, lstrip_by, until_space, text_mem,
}
use mathlib.Core.Path.{subst}
use insightkit.Prelude.Result.{ok}
use insightkit.Guard.Sql.{
  statements, check_statement, only_statement, check_read_only, contains_forbidden, allowed_starts,
  forbidden_words,
}
use insightkit.Guard.Keywords.{LacksWords, contains_forbidden_iff}

-- A single read-only statement: it is not blank, its first word is one of the six, and none of
-- the forbidden keywords stands in it as a whole word, whatever the case.
pub record IsReadOnly (stmt : Text) : Type 0 where
  pub not_blank : is_empty (lstrip_by is_space stmt) ≡ false
  pub starts : text_mem (lower (until_space (lstrip_by is_space stmt))) allowed_starts ≡ true
  pub lacks : LacksWords forbidden_words (lower stmt)

check_statement-IsReadOnly :
    (stmt out : Text) → check_statement stmt ≡ ok out → (stmt ≡ out) × IsReadOnly stmt
unfolding check_statement
check_statement-IsReadOnly stmt out h = elim (Option-cases (contains_forbidden (lower stmt))) [
  | inr (w, e) ↦ absurd (ground arith)
  | inl e ↦ (
    ground arith,
    record {
      not_blank = ground arith;
      starts = ground arith;
      lacks = (contains_forbidden_iff (lower stmt)).0 e;
    },
  )
]

IsReadOnly-check_statement : (stmt : Text) → IsReadOnly stmt → check_statement stmt ≡ ok stmt
unfolding check_statement
IsReadOnly-check_statement stmt r =
    rw (r.not_blank, r.starts, (contains_forbidden_iff (lower stmt)).1 r.lacks)

only_statement_iff :
    (stmts : List Text) (stmt : Text)
    → (only_statement stmts ≡ ok stmt) ↔ ((stmts ≡ stmt ∷ []) × IsReadOnly stmt)
unfolding only_statement
only_statement_iff [] stmt = (λ h. absurd (cc), λ h. absurd (cc (h.0)))
only_statement_iff (s ∷ []) stmt = (
  λ h. let (e, r) = check_statement-IsReadOnly s stmt h in (ap (λ x. x ∷ []) e, rw (← e) r),
  λ h.
      let e : s ≡ stmt = cc (h.0) in
      subst (λ x. check_statement s ≡ ok x) e (IsReadOnly-check_statement s (rw e h.1)),
)
only_statement_iff (s ∷ t ∷ more) stmt = (λ h. absurd (cc), λ h. absurd (cc (h.0)))

-- `check_read_only` returns a statement exactly when it is the only one of the text and is
-- read-only; on every other text it raises.
pub check_read_only_iff :
    (sql stmt : Text)
    → (check_read_only sql ≡ ok stmt) ↔ ((statements sql ≡ stmt ∷ []) × IsReadOnly stmt)
unfolding check_read_only
check_read_only_iff sql stmt = only_statement_iff (statements sql) stmt
