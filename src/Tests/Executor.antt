-- ===== src/Tests/Executor.antt =====
-- `execute_query` of db/executor.py at concrete inputs.
use insightkit.Prelude.{
  ℕ, ◌≡◌, refl, List, [], ◌∷◌, Text, text, Option, strip, lstrip_by, rstrip_by, lower,
}
use insightkit.Prelude.Decimal.{show, show_fuel}
use insightkit.Prelude.Dict.{put}
use insightkit.Pipeline.Types.{Cell, num, Frame, frame, table_not_found}
use insightkit.Executor.{
  Driver, result, sql_error, is_missing_table, statement_timeout_sql, cleaned, put_cells, distinct,
  fetched, outcome_of, execute_query,
}

program : Unit {0}
unfolding execute_query outcome_of fetched distinct put_cells put cleaned statement_timeout_sql
    is_missing_table strip lstrip_by rstrip_by lower show show_fuel
program = tt

abbrev numeric : List Text → List (List (Text × Cell)) → List Text
numeric columns rows = []

abbrev seconds : ℕ → Text
seconds ms = text "30.0"

abbrev two_columns : Option Text → Text → Driver
two_columns limit sql =
    result (text "a" ∷ text "a" ∷ []) ((num (text "1") ∷ num (text "2") ∷ []) ∷ [])

abbrev one_column : Frame
one_column = record {
  columns = text "a" ∷ [];
  numeric = [];
  rows = ((text "a", num (text "2")) ∷ []) ∷ [];
}

abbrev missing : Option Text → Text → Driver
missing limit sql = sql_error (text "No such table: t")

later_column_wins :
    execute_query numeric seconds two_columns (text "sqlite") (text " select 1 ; ") 30_000
    ≡ frame one_column
unfolding program
later_column_wins = refl

table_is_missing :
    execute_query numeric seconds missing (text "mysql") (text "select 1") 30_000
    ≡ table_not_found (text "No such table: t")
unfolding program
table_is_missing = refl
