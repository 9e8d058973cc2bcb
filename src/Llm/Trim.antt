-- ===== src/Llm/Trim.antt =====
-- The token estimate of llm/prompt.py and `_trim_schema`, which cuts the schema down to a budget.
pub mod Cuts
pub mod Exits
use insightkit.Prelude.{
  ℕ, zero, suc, ◌+◌, ◌/◌, max, Bool, ◌&&◌, List, [], ◌∷◌, ◌++◌, Text, if◌then◌else◌, map, length,
  ltb, leb, any,
}
use insightkit.Schema.{TableMeta}
use insightkit.Schema.Render.{render, max_tables, max_cols_per_table}

-- `estimate_tokens`
unfoldable pub estimate_tokens : Text → ℕ
estimate_tokens s = max 1 (length s / 4)

-- `t.columns.pop()`
unfoldable pub drop_last : {A : Type 0} → List A → List A
drop_last [] = []
drop_last (x ∷ []) = []
drop_last (x ∷ y ∷ xs) = x ∷ drop_last (y ∷ xs)

abbrev pub pop_column : TableMeta → TableMeta
pop_column t = record t { columns = drop_last t.columns }

abbrev pub without_samples : TableMeta → TableMeta
without_samples t = record t { sample = [] }

-- `any(len(t.columns) > 1 for t in slim.tables)`
abbrev pub has_wide : List TableMeta → Bool
has_wide ts = any (λ t. ltb 1 (length t.columns)) ts

unfoldable pub count_columns : List TableMeta → ℕ
count_columns [] = 0
count_columns (t ∷ ts) = length t.columns + count_columns ts

module _ (repr : List Text → Text) (budget : ℕ) where
  abbrev pub over : Text → Bool
  over s = ltb budget (estimate_tokens s)

  -- The innermost loop, on the table after those of `before`: the fuel is the number of its columns.
  unfoldable pub pop_columns :
      ℕ → List TableMeta → TableMeta → List TableMeta → Text → TableMeta × Text
  pop_columns zero before t rest s = (t, s)
  pop_columns (suc f) before t rest s =
      let t' = pop_column t in
      let ts = before ++ t' ∷ rest in
      let popped = pop_columns f before t' rest (render repr (length ts) (length t'.columns) ts) in
      if ltb 1 (length t.columns) && over s then popped else (t, s)

  -- The `for` loop over the tables, with those that it has passed.
  unfoldable pub pop_tables : List TableMeta → List TableMeta → Text → List TableMeta
  pop_tables before [] s = before
  pop_tables before (t ∷ ts) s =
      let (t', s') = pop_columns (length t.columns) before t ts s in
      pop_tables (before ++ t' ∷ []) ts s'

  -- The first `while` loop; every pass takes a column.
  unfoldable pub narrow : ℕ → List TableMeta → Text → List TableMeta × Text
  narrow zero ts s = (ts, s)
  narrow (suc f) ts s =
      let ts' = pop_tables [] ts s in
      let rest = narrow f ts' (render repr max_tables max_cols_per_table ts') in
      if over s && has_wide ts then rest else (ts, s)

  -- The second `while` loop; every pass takes a table.
  unfoldable pub shorten : ℕ → List TableMeta → Text → List TableMeta × Text
  shorten zero ts s = (ts, s)
  shorten (suc f) ts s =
      let ts' = drop_last ts in
      let rest = shorten f ts' (render repr max_tables max_cols_per_table ts') in
      if over s && ltb 1 (length ts) then rest else (ts, s)

  -- The text of the last `return`
  abbrev pub fitting : Text → Text
  fitting s = if over s then [] else s

  -- From the second `while` on
  unfoldable pub shortened : List TableMeta × Text → Text
  shortened (ts, s) = fitting (shorten (length ts) ts s).1

  unfoldable pub trim_tables : List TableMeta → Text → Text
  trim_tables slim s = if over s then shortened (narrow (count_columns slim) slim s) else s

-- `_trim_schema`
unfoldable pub trim_schema : (List Text → Text) → List TableMeta → ℕ → Text
trim_schema repr tables budget =
    let slim = map without_samples tables in
    if leb budget 0 then [] else trim_tables repr budget slim (render repr (length slim) 10 slim)
