-- ===== src/Introspect.antt =====
-- db/introspect.py: the schema of a database from its catalogue. What the catalogue queries return
-- is a parameter, the record Catalogue.
pub mod Tables
pub mod Columns
pub mod Views
use insightkit.Prelude.{
  ℕ, Bool, true, false, ◌||◌, not, Option, none, some, List, [], ◌∷◌, ◌++◌, map, Text, text,
  text_eq, text_mem, lower, starts_with, is_empty, if◌then◌else◌,
}
use insightkit.Prelude.Integers.{ℤ, pos, negsuc}
use insightkit.Prelude.Dict.{Dict, get, put}
use insightkit.Prelude.Result.{Result, ok, err, ◌>>=◌}
use insightkit.Schema.{ColumnMeta, TableMeta, SchemaMetadata}

-- A row of `information_schema.columns`; PostgreSQL's query leaves the key out.
pub record ColumnRow : Type 0 where
  pub table_name : Text
  pub column_name : Text
  pub data_type : Text
  pub is_nullable : Text
  pub column_key : Text

pub record FkRow : Type 0 where
  pub table_name : Text
  pub column_name : Text
  pub ref_table : Text
  pub ref_column : Text

-- A row of SQLite's `PRAGMA table_info`
pub record PragmaColumn : Type 0 where
  pub name : Text
  pub ctype : Text
  pub notnull : Bool
  pub pk : Bool

-- The columns table, from and to of a row of `PRAGMA foreign_key_list`
pub record PragmaFk : Type 0 where
  pub ref_table : Text
  pub from_column : Text
  pub to_column : Option Text

-- The two exceptions of `introspect`: an unknown dialect, and `int(None)`.
pub data IntrospectError : Type 0 where
  not_implemented : Text → IntrospectError
  no_count : IntrospectError

pub record Catalogue : Type 0 where
  pub names : List Text
  pub columns : List ColumnRow
  pub fks : List FkRow
  -- `reltuples` of PostgreSQL, which is -1 where it is not known
  pub estimates : List (Text × ℤ)
  -- `table_rows` of MySQL, which is NULL for a view
  pub table_rows : List (Text × Option ℕ)
  pub table_info : Text → List PragmaColumn
  pub foreign_key_list : Text → List PragmaFk
  pub count_rows : Text → ℕ
  -- the sampled values of a column, where the query does not fail
  pub distinct : Text → Text → Option (List (Option Text))

abbrev pub or_nil {ℓ} : {A : Type ℓ} → Option (List A) → List A
or_nil none = []
or_nil (some xs) = xs

-- `out.setdefault(k, []).append(v)`
unfoldable pub append_to : Text → ColumnMeta → Dict (List ColumnMeta) → Dict (List ColumnMeta)
append_to k v d = put k (or_nil (get k d) ++ v ∷ []) d

unfoldable pub grouped :
    (ColumnRow → ColumnMeta) → List ColumnRow → Dict (List ColumnMeta) → Dict (List ColumnMeta)
grouped column [] d = d
grouped column (r ∷ rs) d = grouped column rs (append_to r.table_name (column r) d)

unfoldable pub pg_column : ColumnRow → ColumnMeta
pg_column r = record {
  name = r.column_name;
  data_type = r.data_type;
  nullable = text_eq r.is_nullable (text "YES");
  is_pk = false;
  fk_ref = none;
}

unfoldable pub mysql_column : ColumnRow → ColumnMeta
mysql_column r = record {
  name = r.column_name;
  data_type = r.data_type;
  nullable = text_eq r.is_nullable (text "YES");
  is_pk = text_eq r.column_key (text "PRI");
  fk_ref = none;
}

unfoldable pub sqlite_column : PragmaColumn → ColumnMeta
sqlite_column p = record {
  name = p.name;
  data_type = if is_empty p.ctype then text "TEXT" else p.ctype;
  nullable = not p.notnull;
  is_pk = p.pk;
  fk_ref = none;
}

-- `_columns_sqlite`
unfoldable pub columns_sqlite :
    (Text → List PragmaColumn) → List Text → Dict (List ColumnMeta) → Dict (List ColumnMeta)
columns_sqlite table_info [] d = d
columns_sqlite table_info (t ∷ ts) d =
    columns_sqlite table_info ts (put t (map sqlite_column (table_info t)) d)

-- `f"{ref_table}.{ref_column}"`
abbrev pub dotted : Text → Text → Text
dotted table column = table ++ (text "." ++ column)

-- `out.setdefault(table_name, {})[column_name] = …`
unfoldable pub fks_from : List FkRow → Dict (Dict Text) → Dict (Dict Text)
fks_from [] d = d
fks_from (r ∷ rs) d = fks_from rs (
    put r.table_name
      (put r.column_name (dotted r.ref_table r.ref_column) (or_nil (get r.table_name d))) d)

-- `row[4] or 'id'`
abbrev pub or_id : Option Text → Text
or_id none = text "id"
or_id (some []) = text "id"
or_id (some (c ∷ name)) = c ∷ name

unfoldable pub pragma_refs : List PragmaFk → Dict Text → Dict Text
pragma_refs [] d = d
pragma_refs (p ∷ ps) d =
    pragma_refs ps (put p.from_column (dotted p.ref_table (or_id p.to_column)) d)

-- `_fks_sqlite`
unfoldable pub fks_sqlite : (Text → List PragmaFk) → List Text → Dict (Dict Text) → Dict (Dict Text)
fks_sqlite fk_list [] d = d
fks_sqlite fk_list (t ∷ ts) d =
    let refs = pragma_refs (fk_list t) [] in
    fks_sqlite fk_list ts (if is_empty refs then d else put t refs d)

-- `_row_counts_pg`: a dictionary from the rows, without what is not known.
unfoldable pub counts_pg : List (Text × ℤ) → Dict ℕ → Dict ℕ
counts_pg [] d = d
counts_pg ((name, pos n) ∷ rows) d = counts_pg rows (put name n d)
counts_pg ((name, negsuc n) ∷ rows) d = counts_pg rows d

-- `_row_counts_mysql`
unfoldable pub counts_mysql : List (Text × Option ℕ) → Dict ℕ → Result IntrospectError (Dict ℕ)
counts_mysql [] d = ok d
counts_mysql ((name, none) ∷ rows) d = err no_count
counts_mysql ((name, some n) ∷ rows) d = counts_mysql rows (put name n d)

-- `_row_counts_sqlite`
unfoldable pub counts_sqlite : (Text → ℕ) → List Text → Dict ℕ → Dict ℕ
counts_sqlite count_rows [] d = d
counts_sqlite count_rows (t ∷ ts) d = counts_sqlite count_rows ts (put t (count_rows t) d)

abbrev pub with_ref : ColumnMeta → Option Text → ColumnMeta
with_ref c none = c
with_ref c (some ref) = record c { fk_ref = some ref }

-- `_apply_fks`, on a table
unfoldable pub apply_fks : Dict (Dict Text) → TableMeta → TableMeta
apply_fks fks t =
    let refs = or_nil (get t.name fks) in
    record t { columns = map (λ c. with_ref c (get c.name refs)) t.columns }
