-- ===== src/Guard/Validate.antt =====
-- `validate` of security/guard.py: the three checks together.
use insightkit.Prelude.{ℕ, List, [], ◌∷◌, ◌≡◌, Text, none, inl, inr, arith, lower}
use mathlib.Core.Path.{subst}
use insightkit.Prelude.Result.{ok, >>=-eq-ok}
use insightkit.Guard.Sql.{
  statements, check_read_only, check_forbidden_tables, enforce_row_limit, validate, first_mentioned,
  strip_comments,
}
use insightkit.Guard.ReadOnly.{IsReadOnly, check_read_only_iff}
use insightkit.Guard.Statement.{LacksSemicolon, check_read_only-LacksSemicolon}
use insightkit.Guard.LimitClause.{EndsWithLimit}
use insightkit.Guard.RowLimit.{enforce_row_limit-EndsWithLimit}

-- What stands behind an accepted query: the one statement of the input, which is read-only and
-- holds no semicolon, in which the table check finds no blocked table, and the query run, which
-- is that statement under a row limit.
pub record IsSafe (sql : Text) (limit : ℕ) (forbidden : List Text) (out : Text) : Type 0 where
  pub stmt : Text
  pub only : statements sql ≡ stmt ∷ []
  pub read_only : IsReadOnly stmt
  pub single : LacksSemicolon stmt
  pub unblocked : first_mentioned (lower (strip_comments stmt)) forbidden ≡ none
  pub limited : EndsWithLimit out limit
  pub from_stmt : enforce_row_limit stmt limit ≡ ok out

check_forbidden_tables-eq_ok :
    (sql out : Text) (forbidden : List Text)
    → check_forbidden_tables sql forbidden ≡ ok out
    → (out ≡ sql) × (first_mentioned (lower (strip_comments sql)) forbidden ≡ none)
unfolding check_forbidden_tables
check_forbidden_tables-eq_ok sql out forbidden h = ground arith

enforced :
    (sql out : Text) (limit : ℕ) → enforce_row_limit sql limit ≡ ok out → EndsWithLimit out limit
enforced sql out limit h = elim (enforce_row_limit-EndsWithLimit sql limit) [
  | inl (e, raised) ↦ absurd (cc)
  | inr (out', e, l) ↦ subst (λ x. EndsWithLimit x limit) (cc) l
]

pub validate-IsSafe :
    (sql : Text) (limit : ℕ) (forbidden : List Text) (out : Text)
    → validate sql limit forbidden ≡ ok out
    → IsSafe sql limit forbidden out
unfolding validate
validate-IsSafe sql limit forbidden out h =
    let (stmt, e, h') = >>=-eq-ok (check_read_only sql) _ h in
    let (stmt', e', h'') = >>=-eq-ok (check_forbidden_tables stmt forbidden) _ h' in
    let (same, clear) = check_forbidden_tables-eq_ok stmt stmt' forbidden e' in
    let parts = (check_read_only_iff sql stmt).0 e in
    let run : enforce_row_limit stmt limit ≡ ok out = rw (← same) h'' in
    record {
      stmt = stmt;
      only = parts.0;
      read_only = parts.1;
      single = check_read_only-LacksSemicolon sql stmt e;
      unblocked = clear;
      limited = enforced stmt out limit run;
      from_stmt = run;
    }
