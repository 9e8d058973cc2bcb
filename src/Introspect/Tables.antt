-- ===== src/Introspect/Tables.antt =====
-- `introspect` of db/introspect.py, and the samples that it adds.
use insightkit.Prelude.{
  ℕ, Bool, ◌||◌, Option, none, some, List, [], ◌∷◌, map, Text, text, text_eq, text_mem, lower,
  starts_with, if◌then◌else◌,
}
use insightkit.Prelude.Dict.{Dict, get, put}
use insightkit.Prelude.Result.{Result, ok, err, ◌>>=◌}
use insightkit.Schema.{ColumnMeta, TableMeta, SchemaMetadata}
use insightkit.Introspect.{
  Catalogue, IntrospectError, not_implemented, or_nil, grouped, pg_column, mysql_column,
  columns_sqlite, fks_from, fks_sqlite, counts_pg, counts_mysql, counts_sqlite, apply_fks,
}

abbrev pub numeric_types : List Text
numeric_types =
    text "int"
    ∷ text "integer"
    ∷ text "bigint"
    ∷ text "smallint"
    ∷ text "tinyint"
    ∷ text "real"
    ∷ text "double"
    ∷ text "float"
    ∷ text "numeric"
    ∷ text "decimal"
    ∷ text "number"
    ∷ text "money"
    ∷ []

abbrev pub date_types : List Text
date_types = text "date" ∷ text "datetime" ∷ text "timestamp" ∷ text "time" ∷ []

-- A column of numbers, dates or truth values is not sampled.
unfoldable pub is_plain : Text → Bool
is_plain data_type =
    let base = lower data_type in
    text_mem base numeric_types || text_mem base date_types || starts_with base (text "bool")

-- `[str(r[0]) for r in rows if r[0] is not None]`
unfoldable pub present : List (Option Text) → List Text
present [] = []
present (none ∷ vs) = present vs
present (some v ∷ vs) = v ∷ present vs

abbrev pub store_sample : Text → List Text → Dict (List Text) → Dict (List Text)
store_sample column [] d = d
store_sample column (v ∷ vs) d = put column (v ∷ vs) d

-- `one`: a query that fails leaves no sample.
abbrev pub sampled : Text → Option (List (Option Text)) → Dict (List Text) → Dict (List Text)
sampled column none d = d
sampled column (some vs) d = store_sample column (present vs) d

unfoldable pub samples_of :
    (Text → Text → Option (List (Option Text)))
    → Text
    → List ColumnMeta
    → Dict (List Text)
    → Dict (List Text)
samples_of query table [] d = d
samples_of query table (c ∷ cs) d =
    samples_of query table cs
      (if is_plain c.data_type then d else sampled c.name (query table c.name) d)

-- `_samples`, on a table; its queries end in the order of the columns.
unfoldable pub with_samples : (Text → Text → Option (List (Option Text))) → TableMeta → TableMeta
with_samples query t = record t { sample = samples_of query t.name t.columns t.sample }

-- `TableMeta(name=n, columns=cols.get(n, []), row_count=counts.get(n))`
unfoldable pub base_table : Dict (List ColumnMeta) → Dict ℕ → Text → TableMeta
base_table cols counts n = record {
  name = n;
  columns = or_nil (get n cols);
  row_count = get n counts;
  sample = [];
}

module _ (cat : Catalogue) (db_key dialect extracted_at : Text) where
  -- The end of `introspect`
  unfoldable pub assembled : Dict (List ColumnMeta) → Dict (Dict Text) → Dict ℕ → SchemaMetadata
  assembled cols fks counts = record {
    db_key = db_key;
    dialect = dialect;
    tables =
        map (λ n. with_samples cat.distinct (apply_fks fks (base_table cols counts n))) cat.names;
    extracted_at = extracted_at;
  }

  unfoldable pub introspect_pg : SchemaMetadata
  introspect_pg =
      assembled (grouped pg_column cat.columns []) (fks_from cat.fks [])
        (counts_pg cat.estimates [])

  unfoldable pub introspect_mysql : Result IntrospectError SchemaMetadata
  introspect_mysql = do
    counts ← counts_mysql cat.table_rows []
    ok (assembled (grouped mysql_column cat.columns []) (fks_from cat.fks []) counts)

  unfoldable pub introspect_sqlite : SchemaMetadata
  introspect_sqlite =
      assembled (columns_sqlite cat.table_info cat.names [])
        (fks_sqlite cat.foreign_key_list cat.names []) (counts_sqlite cat.count_rows cat.names [])

  -- `introspect`
  unfoldable pub introspect : Result IntrospectError SchemaMetadata
  introspect =
      if text_eq dialect (text "postgresql")
      then ok introspect_pg
      else if text_eq dialect (text "mysql")
      then introspect_mysql
      else if text_eq dialect (text "sqlite")
      then ok introspect_sqlite
      else err (not_implemented dialect)
