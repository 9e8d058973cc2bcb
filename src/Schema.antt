-- ===== src/Schema.antt =====
-- db/schema.py: the schema metadata.
pub mod Render
use insightkit.Prelude.{
  ℕ, Bool, Option, none, some, List, [], ◌∷◌, Text, text_eq, lower, if◌then◌else◌,
}
use insightkit.Prelude.Dict.{Dict}

pub record ColumnMeta : Type 0 where
  pub name : Text
  pub data_type : Text
  pub nullable : Bool
  pub is_pk : Bool
  -- "table.column"
  pub fk_ref : Option Text

pub record TableMeta : Type 0 where
  pub name : Text
  pub columns : List ColumnMeta
  pub row_count : Option ℕ
  pub sample : Dict (List Text)

pub record SchemaMetadata : Type 0 where
  pub db_key : Text
  pub dialect : Text
  pub tables : List TableMeta
  -- `extracted_at.isoformat()`
  pub extracted_at : Text

-- The first table with the name, whatever the case.
unfoldable pub find_table : List TableMeta → Text → Option TableMeta
find_table [] name = none
find_table (t ∷ ts) name =
    if text_eq (lower t.name) (lower name) then some t else find_table ts name

-- `SchemaMetadata.table`
unfoldable pub table : SchemaMetadata → Text → Option TableMeta
table s name = find_table s.tables name

unfoldable pub find_column : List ColumnMeta → Text → Option ColumnMeta
find_column [] name = none
find_column (c ∷ cs) name =
    if text_eq (lower c.name) (lower name) then some c else find_column cs name

-- `TableMeta.column`
unfoldable pub column : TableMeta → Text → Option ColumnMeta
column t name = find_column t.columns name
