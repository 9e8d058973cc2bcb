-- ===== src/Audit/Newest.antt =====
-- The order of `AuditLog.query` of audit.py.
use insightkit.Prelude.{
  ℕ, suc, Bool, true, false, ◌&&◌, Option, List, [], ◌∷◌, ◌++◌, ◌≡◌, refl, ◌∙◌, ap, keep, take,
  if◌then◌else◌, Bool-cases, inl, inr, Text,
}
use mathlib.Core.List.{reverse, reverse-append}
use insightkit.Audit.{AuditRow, append_row, user_is, ts_from, query}

keep-snoc :
    (p : AuditRow → Bool) (rows : List AuditRow) (row : AuditRow)
    → keep p (rows ++ row ∷ []) ≡ keep p rows ++ (if p row then row ∷ [] else [])
keep-snoc p [] row = refl
keep-snoc p (r ∷ rows) row = elim (Bool-cases (p r)) [
  | inl held ↦ rw held (ap (◌∷◌ r) (keep-snoc p rows row))
  | inr failed ↦ rw failed (keep-snoc p rows row)
]

newest_first :
    (b : Bool) (row : AuditRow) (rows : List AuditRow) (limit : ℕ)
    → take (suc limit) (reverse (rows ++ (if b then row ∷ [] else [])))
      ≡ (if b then row ∷ take limit (reverse rows) else take (suc limit) (reverse rows))
newest_first true row rows limit = ap (take (suc limit)) (reverse-append rows (row ∷ []))
newest_first false row rows limit = ap (take (suc limit)) (reverse-append rows [])

-- After a row is recorded, a query with room for a row returns it first, where the user and the
-- time match, and then what a query for one row less returned before; where they do not match, it
-- returns what it returned before.
pub query-append_row :
    (user since : Option Text) (limit : ℕ) (row : AuditRow) (rows : List AuditRow)
    → query user since (suc limit) (append_row row rows) ≡ (
        if user_is user row && ts_from since row
        then row ∷ query user since limit rows
        else query user since (suc limit) rows)
unfolding query append_row
query-append_row user since limit row rows =
    let p : AuditRow → Bool = λ r. user_is user r && ts_from since r in
    ap (λ rs. take (suc limit) (reverse rs)) (keep-snoc p rows row)
    ∙ newest_first (p row) row (keep p rows) limit
