-- ===== src/Tests/Tables.antt =====
-- `relevant_tables` of llm/prompt.py on a small schema.
use insightkit.Prelude.{
  ◌≡◌, refl, true, false, List, [], ◌∷◌, Text, text, map, none, some, lower, split_on, split_cons,
}
use insightkit.Re.Matcher.{match_at, greedy, run}
use insightkit.Re.Scan.{finditer, finditer_from}
use insightkit.Schema.{ColumnMeta, TableMeta, SchemaMetadata, table, find_table}
use insightkit.Llm.Tables.{
  tokens, overlap, column_score, score, insert_by, sort_by, pick, ref_of, visit_ref, visit_columns,
  visit_tables, close, refs, column_refs, relevant_tables,
}
use insightkit.Llm.Tables.Closure.{AreClosed, relevant_tables-AreClosed}

abbrev plain_column : Text → ColumnMeta
plain_column name = record {
  name = name;
  data_type = text "int";
  nullable = true;
  is_pk = false;
  fk_ref = none;
}

abbrev foreign_column : Text → Text → ColumnMeta
foreign_column name ref = record (plain_column name) { fk_ref = some ref }

abbrev bare_table : Text → List ColumnMeta → TableMeta
bare_table name columns = record { name = name; columns = columns; row_count = none; sample = [] }

abbrev shop : SchemaMetadata
shop = record {
  db_key = text "k";
  dialect = text "sqlite";
  tables =
      bare_table (text "users") (plain_column (text "id") ∷ [])
      ∷ bare_table (text "logs") (plain_column (text "line") ∷ [])
      ∷ bare_table (text "orders") (foreign_column (text "buyer") (text "Users.id") ∷ [])
      ∷ [];
  extracted_at = text "2026-01-01";
}

follows_the_key :
    map (λ t. t.name) (relevant_tables shop (text "How many orders?") 1).tables
    ≡ text "orders" ∷ text "users" ∷ []
unfolding relevant_tables tokens overlap column_score score insert_by sort_by pick ref_of visit_ref
    visit_columns visit_tables close refs column_refs table find_table finditer finditer_from
    match_at greedy run lower split_on split_cons
follows_the_key = refl

-- A key in another case brings in a table that is picked already.
keeps_a_table_twice :
    map (λ t. t.name) (relevant_tables shop (text "orders of users") 2).tables
    ≡ text "users" ∷ text "orders" ∷ text "users" ∷ []
unfolding relevant_tables tokens overlap column_score score insert_by sort_by pick ref_of visit_ref
    visit_columns visit_tables close refs column_refs table find_table finditer finditer_from
    match_at greedy run lower split_on split_cons
keeps_a_table_twice = refl

relevant_tables-AreClosed_example :
    AreClosed shop (relevant_tables shop (text "How many orders?") 1).tables
relevant_tables-AreClosed_example = relevant_tables-AreClosed shop (text "How many orders?") 1
