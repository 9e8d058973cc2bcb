-- ===== src/Executor.antt =====
-- db/executor.py: a guarded query on the driver, and what its errors become. The driver is a
-- parameter: a function of the statement that sets the timeout and of the query. Timeouts are whole
-- milliseconds.
pub mod Errors
use insightkit.Prelude.{
  ℕ, zero, suc, max, Bool, true, false, Option, none, some, List, [], ◌∷◌, ◌++◌, map, Text, text,
  text_eq, text_mem, any, take, is_empty, strip, rstrip_by, lower, contains, ◌==◌, if◌then◌else◌,
}
use insightkit.Prelude.Decimal.{show}
use insightkit.Prelude.Dict.{Dict, put}
use insightkit.Guard.Sql.{is_semicolon}
use insightkit.Pipeline.Types.{Cell, Frame, Outcome, frame, table_not_found, db_error, crash}

-- What the driver does: the columns and all rows of the result, a timeout, an exception of
-- SQLAlchemy with its text, or any other exception.
pub data Driver : Type 0 where
  result : List Text → List (List Cell) → Driver
  timed_out : Driver
  sql_error other_error : Text → Driver

abbrev pub max_fetch_rows : ℕ
max_fetch_rows = 10_000

abbrev pub missing_table_hints : List Text
missing_table_hints =
    text "no such table"
    ∷ text "no such column"
    ∷ text "does not exist"
    ∷ text "undefined table"
    ∷ text "unknown table"
    ∷ text "doesn't exist"
    ∷ []

-- `_is_missing_table`
unfoldable pub is_missing_table : Text → Bool
is_missing_table message = any (λ hint. contains hint (lower message)) missing_table_hints

-- `_statement_timeout_sql`, for a timeout in milliseconds
unfoldable pub statement_timeout_sql : Text → ℕ → Option Text
statement_timeout_sql scheme timeout_ms =
    if text_eq scheme (text "postgresql")
    then some (text "SET LOCAL statement_timeout = " ++ show (max 1 timeout_ms))
    else if text_eq scheme (text "mysql")
    then some (text "SET SESSION max_execution_time = " ++ show (max 1 timeout_ms))
    else none

-- `sql.strip().rstrip(";").strip()`
unfoldable pub cleaned : Text → Text
cleaned sql = strip (rstrip_by is_semicolon (strip sql))

-- A row of the `DataFrame` built from `{c: [r[i] …] …}`: of two columns with one name, the later
-- gives the value.
unfoldable pub put_cells : List Text → List Cell → Dict Cell → Dict Cell
put_cells [] cells d = d
put_cells (c ∷ cs) [] d = d
put_cells (c ∷ cs) (x ∷ xs) d = put_cells cs xs (put c x d)

-- The keys of that dictionary.
unfoldable pub distinct : List Text → List Text → List Text
distinct seen [] = []
distinct seen (c ∷ cs) =
    let rest = distinct (c ∷ seen) cs in if text_mem c seen then rest else c ∷ rest

-- `numeric` finds the columns of a number type, and `seconds` is the text of the timeout.
module _ (numeric : List Text → List (List (Text × Cell)) → List Text) (seconds : ℕ → Text) where
  -- Without columns the frame is empty, and without rows it has the columns as they are.
  unfoldable pub fetched : List Text → List (List Cell) → Frame
  fetched [] rows = record { columns = []; numeric = []; rows = [] }
  fetched (c ∷ cs) [] = record { columns = c ∷ cs; numeric = []; rows = [] }
  fetched (c ∷ cs) (row ∷ more) =
      let kept = map (λ r. put_cells (c ∷ cs) r []) (take max_fetch_rows (row ∷ more)) in
      record { columns = distinct [] (c ∷ cs); numeric = numeric (c ∷ cs) kept; rows = kept }

  -- The `except` clauses.
  unfoldable pub outcome_of : ℕ → Driver → Outcome
  outcome_of timeout_ms (result columns rows) = frame (fetched columns rows)
  outcome_of timeout_ms timed_out =
      db_error (text "Query timed out after " ++ (seconds timeout_ms ++ text "s"))
  outcome_of timeout_ms (sql_error e) =
      if is_missing_table e then table_not_found e else db_error (text "Query execution failed")
  outcome_of timeout_ms (other_error e) = crash e

  -- `execute_query`
  unfoldable pub execute_query : (Option Text → Text → Driver) → Text → Text → ℕ → Outcome
  execute_query driver scheme sql timeout_ms =
      if is_empty (cleaned sql)
      then db_error (text "Empty SQL statement")
      else if timeout_ms == 0
      then db_error (text "timeout_s must be positive")
      else outcome_of timeout_ms (driver (statement_timeout_sql scheme timeout_ms) (cleaned sql))
