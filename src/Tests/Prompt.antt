-- ===== src/Tests/Prompt.antt =====
-- The prompts of llm/prompt.py at concrete inputs.
use insightkit.Prelude.{
  ◌≡◌, ◌≤◌, ◌⊎◌, ◌&&◌, refl, true, false, [], ◌∷◌, ◌++◌, some, none, Text, text, List, ltb, length,
  is_empty,
}
use insightkit.Schema.{ColumnMeta, TableMeta, SchemaMetadata}
use insightkit.Schema.Render.{
  join, render_column, sample_parts, render_table, render_tables, render,
}
use insightkit.Llm.Trim.{
  estimate_tokens, drop_last, count_columns, has_wide, over, pop_columns, pop_tables, narrow,
  shorten, shortened, trim_tables, trim_schema,
}
use insightkit.Llm.Trim.Cuts.{Fits, trim_schema-Fits}
use insightkit.Llm.Trim.Exits.{trim_loops_end}
use insightkit.Llm.Prompt.{
  lang_hint, shot, header, schema_budget, fit_schema, schema_text, or_least, build_prompt,
  with_question,
}
use insightkit.Llm.Prompt.Budget.{build_prompt-Fits}

program : Unit {0}
unfolding join render_column sample_parts render_table render_tables render estimate_tokens
    drop_last count_columns pop_columns pop_tables narrow shorten shortened trim_tables trim_schema
    lang_hint shot header schema_budget fit_schema schema_text or_least build_prompt
program = tt

abbrev column : Text → ColumnMeta
column name = record {
  name = name;
  data_type = text "INT";
  nullable = false;
  is_pk = false;
  fk_ref = none;
}

abbrev orders : TableMeta
orders = record {
  name = text "orders";
  columns =
      record (column (text "id")) { is_pk = true }
      ∷ column (text "total")
      ∷ column (text "day")
      ∷ [];
  row_count = none;
  sample = (text "id", text "1" ∷ text "2" ∷ []) ∷ [];
}

abbrev items : TableMeta
items = record orders { name = text "items"; sample = [] }

-- A stand-in for the printing of a list.
abbrev repr : List Text → Text
repr vals = text "[" ++ (join (text ", ") vals ++ text "]")

whole_text :
    render repr 200 40 (orders ∷ [])
    ≡ text "TABLE orders (id INT PK, total INT, day INT)\n  samples: id=[1, 2]"
unfolding program
whole_text = refl

-- A budget of 15 tokens costs the first table two of its columns.
trimmed_text :
    trim_schema repr (orders ∷ items ∷ []) 15
    ≡ text "TABLE orders (id INT PK)\nTABLE items (id INT PK, total INT)"
unfolding program
trimmed_text = refl

trim_schema-Fits_example :
    (trim_schema repr (orders ∷ items ∷ []) 15 ≡ [])
    ⊎ Fits repr 15 (orders ∷ items ∷ []) (trim_schema repr (orders ∷ items ∷ []) 15)
trim_schema-Fits_example = trim_schema-Fits repr 15 (orders ∷ items ∷ [])

trim_loops_end_example :
    (ltb 1 (
          length
            (pop_columns repr 15
              (length orders.columns)
              []
              orders
              (items ∷ [])
              (text "long")).0.columns)
        && over repr 15
            (pop_columns repr 15 (length orders.columns) [] orders (items ∷ []) (text "long")).1
      ≡ false)
    × (over repr 15
            (narrow repr 15
              (count_columns (orders ∷ items ∷ []))
              (orders ∷ items ∷ [])
              (text "long")).1
          && has_wide
              (narrow repr 15
                (count_columns (orders ∷ items ∷ []))
                (orders ∷ items ∷ [])
                (text "long")).0
        ≡ false)
    × (over repr 15
            (shorten repr 15 (length (orders ∷ items ∷ [])) (orders ∷ items ∷ []) (text "long")).1
          && ltb 1 (
              length
                (shorten repr 15
                  (length (orders ∷ items ∷ []))
                  (orders ∷ items ∷ [])
                  (text "long")).0)
        ≡ false)
trim_loops_end_example =
    trim_loops_end repr 15 [] (items ∷ []) orders (orders ∷ items ∷ []) (text "long")

abbrev shop : SchemaMetadata
shop = record {
  db_key = text "k";
  dialect = text "sqlite";
  tables = orders ∷ items ∷ [];
  extracted_at = text "2026";
}

abbrev head : Text
head = header [] [] (text "en")

abbrev part : Text
part = schema_text repr (schema_budget 3000 head (text "How many?")) (some shop)

part_shown : is_empty part ≡ false
unfolding program
part_shown = refl

abbrev prompt : Text
prompt = build_prompt repr (text "How many?") (some shop) [] [] (text "en") 3000

build_prompt-Fits_example :
    (prompt ≡ with_question (head ++ (text "\n\nDATABASE SCHEMA:\n" ++ part)) (text "How many?"))
    × (estimate_tokens prompt ≤ 3000)
build_prompt-Fits_example =
    build_prompt-Fits repr (text "How many?") (some shop) [] [] (text "en") 3000 part_shown
