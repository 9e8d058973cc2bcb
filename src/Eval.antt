-- ===== src/Eval.antt =====
-- eval.py: the scoring of the pipeline against a golden set. YAML, and the printing and the rounding
-- of values, are parameters.
pub mod Scores
use insightkit.Prelude.{
  ℕ, ◌+◌, Bool, true, false, ◌&&◌, ◌||◌, not, Option, none, some, List, [], ◌∷◌, ◌++◌, map, Text,
  text, text_eq, ltb, all, contains, length, is_empty, is_space, is_decimal, ◌==◌, lower, strip,
  rstrip_by, if◌then◌else◌,
}
use insightkit.Prelude.Result.{Result, ok, err}
use insightkit.Prelude.Action.{pure, from_result, ◌>>=◌}
use insightkit.Re.Syntax.{Regex, seq, not_ahead, some_of, literal_ci}
use insightkit.Re.Scan.{sub}
use insightkit.Json.{Json, Items, Fields}
use insightkit.Audit.{Status, ok_status}
use insightkit.Pipeline.Types.{Cell, Frame, AskResult, Config, Failure, Outcome}
use insightkit.Pipeline.Kit.{Kit, State, M, execute, get_schema}
use insightkit.Pipeline.Ask.{ask}

-- `\s+limit\s+\d+$`, on a text that ends in no newline
abbrev pub trailing_limit_re : Regex
trailing_limit_re = seq (some_of is_space) (
    seq (literal_ci (text "limit"))
      (seq (some_of is_space) (seq (some_of is_decimal) (not_ahead (λ c. true)))))

-- `normalize_sql`
unfoldable pub normalize_sql : Text → Text
normalize_sql sql =
    sub (some_of is_space) (text " ")
      (lower (rstrip_by (λ c. c == b';') (sub trailing_limit_re [] (strip sql))))

-- A value as `_norm_value` gives it; Python's True and False compare as 1.0 and 0.0.
pub data Norm : Type 0 where
  nothing : Norm
  number word : Text → Norm

-- `<` on texts, which goes by code points
unfoldable pub text_lt : Text → Text → Bool
text_lt s [] = false
text_lt [] (y ∷ ys) = true
text_lt (x ∷ xs) (y ∷ ys) =
    let rest = text_lt xs ys in if ltb x y then true else if ltb y x then false else rest

-- `num_eq` and `num_lt` are Python's `==` and `<` on the floats of these numerals.
module _ (num_eq num_lt : Text → Text → Bool) where
  unfoldable pub norm_eq : Norm → Norm → Bool
  norm_eq nothing nothing = true
  norm_eq (number a) (number b) = num_eq a b
  norm_eq (word a) (word b) = text_eq a b
  norm_eq a b = false

  -- `<` on values that can be compared
  unfoldable pub norm_lt : Norm → Norm → Bool
  norm_lt (number a) (number b) = num_lt a b
  norm_lt (word a) (word b) = text_lt a b
  norm_lt a b = false

  -- `==` and `<` on tuples: the first values that differ decide.
  unfoldable pub row_eq : List Norm → List Norm → Bool
  row_eq [] [] = true
  row_eq (a ∷ r) (b ∷ q) = norm_eq a b && row_eq r q
  row_eq r q = false

  unfoldable pub row_lt : List Norm → List Norm → Bool
  row_lt r [] = false
  row_lt [] (b ∷ q) = true
  row_lt (a ∷ r) (b ∷ q) = let rest = row_lt r q in if norm_eq a b then rest else norm_lt a b

  -- `sorted`, which keeps the order of rows that are not below one another
  unfoldable pub insert_row : List Norm → List (List Norm) → List (List Norm)
  insert_row r [] = r ∷ []
  insert_row r (q ∷ qs) =
      let rest = insert_row r qs in if row_lt q r then q ∷ rest else r ∷ (q ∷ qs)

  unfoldable pub sort_rows : List (List Norm) → List (List Norm)
  sort_rows [] = []
  sort_rows (r ∷ rs) = insert_row r (sort_rows rs)

  unfoldable pub rows_eq : List (List Norm) → List (List Norm) → Bool
  rows_eq [] [] = true
  rows_eq (r ∷ rs) (q ∷ qs) = row_eq r q && rows_eq rs qs
  rows_eq rs qs = false

  -- `_rows(df_gen) == _rows(df_exp)`, for the rows before they are sorted
  unfoldable pub same_rows : List (List Norm) → List (List Norm) → Bool
  same_rows rs qs = rows_eq (sort_rows rs) (sort_rows qs)

pub record GoldenCase : Type 0 where
  pub question : Text
  pub sql_expected : Option Text
  pub result_keywords : List Text

pub record EvalResult : Type 0 where
  pub total : ℕ
  pub correct : ℕ
  -- the questions of the failures
  pub failures : List Text

-- `round6` rounds and `print` prints as Python; `sortable` says whether `sorted` can order the rows
-- of a frame, or raises a TypeError.
module _ (round6 : Text → Text) (print : Cell → Text) (num_eq num_lt : Text → Text → Bool)
    (sortable : Frame → Bool) where
  unfoldable pub norm_value : Cell → Norm
  norm_value Cell.null = nothing
  norm_value (Cell.bool b) = number (if b then text "1.0" else text "0.0")
  norm_value (Cell.num n) = number (round6 n)
  norm_value c = word (print c)

  -- The rows of `_rows`, before they are sorted.
  unfoldable pub norm_rows : Frame → List (List Norm)
  norm_rows df = map (λ row. map (λ entry. norm_value entry.1) row) df.rows

  -- The end of `_compare_sql`, for two frames.
  unfoldable pub compare_frames : Frame → Frame → Result Failure Bool
  compare_frames got expected =
      if not (length got.rows == length expected.rows)
      then ok false
      else if sortable got && sortable expected
      then ok (same_rows num_eq num_lt (norm_rows got) (norm_rows expected))
      else err (Failure.crashed (text "TypeError"))

  module _ (kit : Kit) (cfg : Config) where
    -- `except Exception`: the texts are compared.
    abbrev pub by_text : Text → Text → M kit Bool
    by_text generated expected = pure (text_eq (normalize_sql generated) (normalize_sql expected))

    unfoldable pub compare_second : Text → Text → Frame → Outcome → M kit Bool
    compare_second generated expected got (Outcome.frame df) = from_result (compare_frames got df)
    compare_second generated expected got o = by_text generated expected

    unfoldable pub compare_first : Text → Text → Outcome → M kit Bool
    compare_first generated expected (Outcome.frame df) = do
      o ← execute kit expected
      compare_second generated expected df o
    compare_first generated expected o = by_text generated expected

    -- `_compare_sql`
    unfoldable pub compare_sql : Text → Text → M kit Bool
    compare_sql generated expected =
        if is_empty generated
        then pure false
        else do o ← execute kit generated; compare_first generated expected o

    abbrev pub is_ok : Status → Bool
    is_ok ok_status = true
    is_ok s = false

    -- Without expected SQL, the keywords decide, and without any, the status.
    unfoldable pub by_keywords : List Text → AskResult → Bool
    by_keywords [] r = is_ok r.status
    by_keywords (w ∷ ws) r = all (λ kw. contains kw (lower r.insight)) (w ∷ ws)

    unfoldable pub judge : Option Text → GoldenCase → AskResult → M kit Bool
    judge none c r = pure (by_keywords c.result_keywords r)
    judge (some []) c r = pure (by_keywords c.result_keywords r)
    judge (some (x ∷ sql)) c r = compare_sql r.sql (x ∷ sql)

    abbrev pub failed : GoldenCase → EvalResult → EvalResult
    failed c e = record e { failures = e.failures ++ c.question ∷ [] }

    unfoldable pub scored : GoldenCase → EvalResult → Bool → EvalResult
    scored c e good = if good then record e { correct = e.correct + 1 } else failed c e

    -- An `ask` that raises is a failure of the case.
    unfoldable pub after_ask :
        GoldenCase
        → EvalResult
        → Result Failure AskResult × State kit
        → Result Failure EvalResult × State kit
    after_ask c e (err x, s) = (ok (failed c e), s)
    after_ask c e (ok r, s) = (judge c.sql_expected c r >>= λ good. pure (scored c e good)) s

    unfoldable pub run_case : GoldenCase → EvalResult → M kit EvalResult
    run_case c e s =
        after_ask c e (ask kit cfg c.question (text "eval") (text "analyst") false none s)

    unfoldable pub run_cases : List GoldenCase → EvalResult → M kit EvalResult
    run_cases [] e = pure e
    run_cases (c ∷ cs) e = run_case c e >>= λ e'. run_cases cs e'

    -- `run_eval`, on the kit that it builds
    unfoldable pub run_eval : List GoldenCase → M kit EvalResult
    run_eval golden = do
      schema ← get_schema kit
      run_cases golden (record { total = length golden; correct = 0; failures = [] })
