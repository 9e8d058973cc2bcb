-- ===== src/Tests/Examples.antt =====
-- fewshot.py and eval.py at concrete inputs.
use insightkit.Prelude.{
  text_eq, ◌≡◌, min, refl, true, false, [], ◌∷◌, ◌++◌, Text, text, List, map, is_empty, lower,
  strip, lstrip_by, rstrip_by, arith,
}
use insightkit.Prelude.Result.{ok}
use insightkit.Re.Matcher.{match_at, greedy, reluctant, run}
use insightkit.Re.Scan.{finditer, finditer_from, sub, sub_from}
use insightkit.FewShot.{
  FewShot, distinct, long_tokens, overlap, insert_by, sort_by, pair_of, ranked, search,
  insert_or_ignore, added, add_stripped, add, count,
}
use insightkit.FewShot.Best.{at_least, search_best}
use insightkit.Eval.{
  Norm, word, normalize_sql, text_lt, norm_eq, norm_lt, row_eq, row_lt, insert_row, sort_rows,
  rows_eq, same_rows,
}

program : Unit {0}
unfolding distinct long_tokens overlap insert_by sort_by ranked search insert_or_ignore added
    add_stripped add count at_least normalize_sql text_lt norm_eq norm_lt row_eq row_lt insert_row
    sort_rows rows_eq same_rows match_at greedy reluctant run finditer finditer_from sub sub_from
    lower strip lstrip_by rstrip_by
program = tt

abbrev example : Text → Text → FewShot
example question sql = record {
  question_hash = question;
  question = question;
  sql = sql;
  tags = [];
  source = text "manual";
  created_at = text "2026";
}

abbrev stored : List FewShot
stored =
    example (text "total sales") (text "select 1")
    ∷ example (text "sales per region") (text "select 2")
    ∷ example (text "users") (text "select 3")
    ∷ []

best_first :
    search (text "Sales by region") 2 stored
    ≡ (text "sales per region", text "select 2") ∷ (text "total sales", text "select 1") ∷ []
unfolding program
best_first = refl

search_best_example :
    at_least
      (overlap (long_tokens (text "Sales by region")))
      1
      (search (text "Sales by region") 2 stored)
    ≡ min 2 (at_least (overlap (long_tokens (text "Sales by region"))) 1 (map pair_of stored))
search_best_example = search_best (text "Sales by region") 2 1 stored (omega arith)

abbrev with_orders : List FewShot
with_orders =
    stored ++ record (example (text "orders") (text "select 4")) { created_at = text "2027" } ∷ []

inserts :
    add (λ t. t) (text "2027") [] (text "manual") (text " orders ") (text "select 4") stored
    ≡ (ok true, with_orders)
unfolding program
inserts = refl

not_blank : is_empty (strip (text "select 5")) ≡ false
unfolding program
not_blank = refl

-- The LIMIT that the guard adds does not count, but one before a semicolon does.
limit_dropped : normalize_sql (text "SELECT  a\nFROM t LIMIT 10") ≡ text "select a from t"
unfolding program
limit_dropped = refl

limit_kept : normalize_sql (text "select a from t limit 10;") ≡ text "select a from t limit 10"
unfolding program
limit_kept = refl

abbrev two_rows : List (List Norm)
two_rows = (word (text "b") ∷ []) ∷ (word (text "a") ∷ []) ∷ []

abbrev turned : List (List Norm)
turned = (word (text "a") ∷ []) ∷ (word (text "b") ∷ []) ∷ []

-- The order of the rows does not count.
turned_same : same_rows text_eq (λ a b. false) two_rows turned ≡ true
unfolding program
turned_same = refl
