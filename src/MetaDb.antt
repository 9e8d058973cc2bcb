-- ===== src/MetaDb.antt =====
-- db/cache.py: the schema in the meta database. The JSON of the samples and the ISO form of a time
-- are parameters.
pub mod Rows
pub mod Columns
pub mod RoundTrip
pub mod Others
use insightkit.Prelude.{
  ℕ, Bool, true, false, ◌&&◌, not, Option, none, some, List, [], ◌∷◌, ◌++◌, Text, text_eq, keep,
  map, is_empty, if◌then◌else◌,
}
use insightkit.Prelude.Dict.{Dict, get, put}
use insightkit.Schema.{ColumnMeta, TableMeta, SchemaMetadata}
use insightkit.Audit.{text_le}

-- A row of `schema_meta`, whose primary key is made of the first three columns.
pub record MetaRow : Type 0 where
  pub db_key : Text
  pub table_name : Text
  pub column_name : Text
  pub data_type : Text
  pub nullable : Bool
  pub is_pk : Bool
  pub fk_ref : Option Text
  pub sample_values : Text
  pub row_count : Option ℕ

-- The two tables; of `meta_info` the row of 'schema_extracted_at'.
pub record MetaDb : Type 0 where
  pub rows : List MetaRow
  pub extracted_at : Option Text

-- `t.sample.get(c.name, [])`
abbrev pub or_no_sample : Option (List Text) → List Text
or_no_sample none = []
or_no_sample (some vals) = vals

module _ (dumps : List Text → Text) where
  unfoldable pub row_of : Text → TableMeta → ColumnMeta → MetaRow
  row_of db_key t c = record {
    db_key = db_key;
    table_name = t.name;
    column_name = c.name;
    data_type = c.data_type;
    nullable = c.nullable;
    is_pk = c.is_pk;
    fk_ref = c.fk_ref;
    sample_values = dumps (or_no_sample (get c.name t.sample));
    row_count = t.row_count;
  }

  -- The list `rows`
  unfoldable pub rows_of : Text → List TableMeta → List MetaRow
  rows_of db_key [] = []
  rows_of db_key (t ∷ ts) = map (row_of db_key t) t.columns ++ rows_of db_key ts

abbrev pub same_key : MetaRow → MetaRow → Bool
same_key r q =
    text_eq r.db_key q.db_key
    && text_eq r.table_name q.table_name
    && text_eq r.column_name q.column_name

-- `INSERT OR REPLACE`
unfoldable pub replace_row : MetaRow → List MetaRow → List MetaRow
replace_row r rows = keep (λ q. not (same_key r q)) rows ++ r ∷ []

unfoldable pub replace_rows : List MetaRow → List MetaRow → List MetaRow
replace_rows [] rows = rows
replace_rows (r ∷ rs) rows = replace_rows rs (replace_row r rows)

-- `save_schema`
unfoldable pub save_schema : (List Text → Text) → SchemaMetadata → MetaDb → MetaDb
save_schema dumps meta db = record {
  rows =
      replace_rows (rows_of dumps meta.db_key meta.tables)
        (keep (λ r. not (text_eq r.db_key meta.db_key)) db.rows);
  extracted_at = some meta.extracted_at;
}

-- `ORDER BY table_name, column_name`
unfoldable pub row_le : MetaRow → MetaRow → Bool
row_le r q =
    if text_eq r.table_name q.table_name
    then text_le r.column_name q.column_name
    else text_le r.table_name q.table_name

unfoldable pub insert_row : MetaRow → List MetaRow → List MetaRow
insert_row r [] = r ∷ []
insert_row r (q ∷ qs) = let rest = insert_row r qs in if row_le r q then r ∷ q ∷ qs else q ∷ rest

unfoldable pub sort_rows : List MetaRow → List MetaRow
sort_rows [] = []
sort_rows (r ∷ rs) = insert_row r (sort_rows rs)

unfoldable pub column_of : MetaRow → ColumnMeta
column_of r = record {
  name = r.column_name;
  data_type = r.data_type;
  nullable = r.nullable;
  is_pk = r.is_pk;
  fk_ref = r.fk_ref;
}

-- `loads` gives the strings of a JSON list, and none for a text that is no list.
module _ (loads : Text → Option (List Text)) where
  abbrev pub with_parsed : Text → Option (List Text) → Dict (List Text) → Dict (List Text)
  with_parsed column none d = d
  with_parsed column (some vals) d = put column vals d

  abbrev pub with_sample : MetaRow → Dict (List Text) → Dict (List Text)
  with_sample r d =
      if is_empty r.sample_values then d else with_parsed r.column_name (loads r.sample_values) d

  -- A column more for a table of the dictionary `tables`, whose keys are the names of the tables.
  unfoldable pub add_row : MetaRow → List TableMeta → List TableMeta
  add_row r [] =
      record {
        name = r.table_name;
        columns = column_of r ∷ [];
        row_count = r.row_count;
        sample = with_sample r [];
      }
      ∷ []
  add_row r (t ∷ ts) =
      if text_eq t.name r.table_name
      then record t { columns = t.columns ++ column_of r ∷ []; sample = with_sample r t.sample }
        ∷ ts
      else t ∷ add_row r ts

  unfoldable pub add_rows : List MetaRow → List TableMeta → List TableMeta
  add_rows [] ts = ts
  add_rows (r ∷ rs) ts = add_rows rs (add_row r ts)

  -- The rest of `load_schema`; `from_iso` reads the time, or takes the present one.
  unfoldable pub schema_from :
      (Option Text → Text) → Text → Option Text → List MetaRow → Option SchemaMetadata
  schema_from from_iso db_key extracted [] = none
  schema_from from_iso db_key extracted (r ∷ rs) = some (record {
    db_key = db_key;
    dialect = [];
    tables = add_rows (r ∷ rs) [];
    extracted_at = from_iso extracted;
  })

  -- `load_schema`
  unfoldable pub load_schema : (Option Text → Text) → Text → MetaDb → Option SchemaMetadata
  load_schema from_iso db_key db =
      schema_from from_iso db_key db.extracted_at
        (sort_rows (keep (λ r. text_eq r.db_key db_key) db.rows))
