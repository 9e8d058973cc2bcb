-- ===== src/Audit.antt =====
-- audit.py: the append-only audit log.
pub mod Newest
use insightkit.Prelude.{
  ℕ, Bool, true, false, ◌&&◌, Option, none, some, List, [], ◌∷◌, ◌++◌, Text, text_eq, if◌then◌else◌,
  keep, take, ltb, ◌==◌,
}
use mathlib.Core.List.{reverse}

pub data Status : Type 0 where
  ok_status no_data_status error_status : Status

-- A row of `audit_log`; the rows stand in the order of their ids.
pub record AuditRow : Type 0 where
  pub ts : Text
  pub user : Text
  pub role : Text
  pub question : Text
  pub sql : Option Text
  pub result_summary : Option Text
  pub latency_ms : ℕ
  pub tokens : ℕ
  pub model : Text
  pub status : Status
  pub error : Option Text

-- `AuditLog.record`: one INSERT.
unfoldable pub append_row : AuditRow → List AuditRow → List AuditRow
append_row row rows = rows ++ row ∷ []

-- `a <= b` on texts
unfoldable pub text_le : Text → Text → Bool
text_le [] t = true
text_le (x ∷ s) [] = false
text_le (x ∷ s) (y ∷ t) = let rest = text_le s t in if x == y then rest else ltb x y

-- `if user:` and `if since:` add a condition each.
abbrev pub user_is : Option Text → AuditRow → Bool
user_is none r = true
user_is (some []) r = true
user_is (some (c ∷ u)) r = text_eq r.user (c ∷ u)

abbrev pub ts_from : Option Text → AuditRow → Bool
ts_from none r = true
ts_from (some []) r = true
ts_from (some (c ∷ t)) r = text_le (c ∷ t) r.ts

-- `AuditLog.query`: the newest rows first.
unfoldable pub query : Option Text → Option Text → ℕ → List AuditRow → List AuditRow
query user since limit rows =
    take limit (reverse (keep (λ r. user_is user r && ts_from since r) rows))
