-- ===== src/Tests/Stores.antt =====
-- config.py and db/cache.py at concrete inputs.
use insightkit.Prelude.{
  all, ◌≡◌, refl, true, false, [], ◌∷◌, some, none, Option, Text, text, List, lower,
}
use insightkit.Prelude.Dict
use insightkit.Json.{Json, Fields, str, num, obj, end, field}
use insightkit.Json
use insightkit.Schema.{ColumnMeta, TableMeta, SchemaMetadata}
use insightkit.Config.{
  split_sections, set_path, parts_of, overrides_from, env_overrides, merge_value, deep_merge,
  layers,
}
use insightkit.Config.Paths.{at_path, apart}
use insightkit.Config.EnvWins.{leaves, env_wins}
use insightkit.MetaDb.{
  MetaDb, row_of, rows_of, replace_row, replace_rows, save_schema, row_le, insert_row, sort_rows,
  column_of, add_row, add_rows, schema_from, load_schema,
}
use insightkit.MetaDb.Columns.{column_at, found_column, last_column}
use insightkit.MetaDb.RoundTrip.{load-save_schema}
use insightkit.MetaDb.Others.{load-save_schema_other}
use insightkit.Audit.{text_le}

program : Unit {0}
unfolding split_sections set_path parts_of overrides_from env_overrides merge_value deep_merge
    layers at_path Json.get Json.put lower row_of rows_of replace_row replace_rows save_schema
    row_le insert_row sort_rows column_of add_row add_rows schema_from load_schema column_at
    last_column text_le Dict.get Dict.put
program = tt

-- The file names the model and the attempts, the environment another model.
abbrev yaml : Fields
yaml =
    field (text "llm")
      (obj (
        field (text "model") (str (text "small"))
          (field (text "max_retries") (num (text "2")) end)))
      end

abbrev environ : List (Text × Text)
environ = (text "INSIGHTKIT_LLM__MODEL", text "big") ∷ (text "INSIGHTKIT_API__HOST", text "::") ∷ []

abbrev merged : Fields
merged =
    field (text "llm")
      (obj
        (field (text "model") (str (text "big")) (field (text "max_retries") (num (text "2")) end)))
      (field (text "api") (obj (field (text "host") (str (text "::")) end)) end)

both_layers : layers (some yaml) (env_overrides environ) ≡ some merged
unfolding program
both_layers = refl

-- A value where a section is wanted makes the walk raise.
section_is_text :
    env_overrides
      ((text "INSIGHTKIT_LLM", text "x") ∷ (text "INSIGHTKIT_LLM__MODEL", text "y") ∷ [])
    ≡ none
unfolding program
section_is_text = refl

elsewhere :
    all
      (leaves (parts_of (text "INSIGHTKIT_LLM__MODEL")))
      ((text "INSIGHTKIT_API__HOST", text "::") ∷ [])
    ≡ true
unfolding program apart
elsewhere = refl

env_wins_example :
    at_path (parts_of (text "INSIGHTKIT_LLM__MODEL")) (obj merged) ≡ some (str (text "big"))
env_wins_example =
    env_wins (some yaml) [] ((text "INSIGHTKIT_API__HOST", text "::") ∷ [])
      (text "INSIGHTKIT_LLM__MODEL") (text "big") merged both_layers refl elsewhere

abbrev id_column : ColumnMeta
id_column = record {
  name = text "id";
  data_type = text "INT";
  nullable = false;
  is_pk = true;
  fk_ref = none;
}

abbrev total_column : ColumnMeta
total_column = record id_column { name = text "total"; is_pk = false }

abbrev orders : TableMeta
orders = record {
  name = text "orders";
  columns = total_column ∷ id_column ∷ [];
  row_count = some 2;
  sample = (text "id", text "1" ∷ []) ∷ [];
}

abbrev shop : SchemaMetadata
shop = record {
  db_key = text "shop";
  dialect = text "sqlite";
  tables = orders ∷ [];
  extracted_at = text "2026";
}

-- A stand-in for the JSON of a list of samples.
abbrev dumps : List Text → Text
dumps [] = text "[]"
dumps (s ∷ ss) = s

abbrev loads : Text → Option (List Text)
loads s = some (s ∷ [])

abbrev from_iso : Option Text → Text
from_iso none = text "now"
from_iso (some t) = t

abbrev empty : MetaDb
empty = record { rows = []; extracted_at = none }

-- The columns come back in the order of their names, and the dialect does not.
loaded :
    load_schema loads from_iso (text "shop") (save_schema dumps shop empty)
    ≡ some (record shop {
      dialect = [];
      tables =
          record orders {
            columns = id_column ∷ total_column ∷ [];
            sample = (text "id", text "1" ∷ []) ∷ (text "total", text "[]" ∷ []) ∷ [];
          }
          ∷ [];
    })
unfolding program
loaded = refl

load-save_schema_example :
    found_column
      (load_schema loads from_iso (text "shop") (save_schema dumps shop empty))
      (text "orders")
      (text "total")
    ≡ column_at (orders ∷ []) (text "orders") (text "total")
load-save_schema_example =
    load-save_schema dumps loads from_iso shop empty (text "orders") (text "total") refl

load-save_schema_other_example :
    load_schema loads from_iso (text "other") (save_schema dumps shop empty)
    ≡ load_schema loads from_iso (text "other") (record empty { extracted_at = some (text "2026") })
load-save_schema_other_example =
    load-save_schema_other dumps loads from_iso shop (text "other") empty refl
