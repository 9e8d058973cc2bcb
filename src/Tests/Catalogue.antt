-- ===== src/Tests/Catalogue.antt =====
-- db/introspect.py at concrete inputs.
use insightkit.Prelude.{◌≡◌, refl, [], ◌∷◌, some, none, Text, text, map, lower}
use insightkit.Prelude.Integers.{pos, negsuc}
use insightkit.Prelude.Dict
use insightkit.Prelude.Result.{err}
use insightkit.Introspect.{
  Catalogue, ColumnRow, no_count, append_to, grouped, pg_column, mysql_column, fks_from, apply_fks,
  counts_pg, counts_mysql,
}
use insightkit.Introspect.Tables.{
  is_plain, present, samples_of, with_samples, base_table, assembled, introspect_pg,
  introspect_mysql, introspect,
}
use insightkit.Introspect.Columns.{last_ref, outline, columns_for, introspect_pg-outline}
use insightkit.Introspect.Views.{introspect_mysql_view}

program : Unit {0}
unfolding append_to grouped pg_column mysql_column fks_from apply_fks counts_pg counts_mysql
    is_plain present samples_of with_samples base_table assembled introspect_pg introspect_mysql
    introspect last_ref Dict.get Dict.put lower
program = tt

abbrev row : Text → Text → Text → ColumnRow
row table column type = record {
  table_name = table;
  column_name = column;
  data_type = type;
  is_nullable = text "NO";
  column_key = [];
}

abbrev catalogue : Catalogue
catalogue = record {
  names = text "orders" ∷ text "users" ∷ [];
  columns =
      row (text "orders") (text "user_id") (text "integer")
      ∷ row (text "users") (text "id") (text "integer")
      ∷ row (text "users") (text "city") (text "text")
      ∷ [];
  fks =
      record {
        table_name = text "orders";
        column_name = text "user_id";
        ref_table = text "users";
        ref_column = text "id";
      }
      ∷ [];
  estimates = (text "orders", pos 7) ∷ (text "users", negsuc 0) ∷ [];
  table_rows = (text "orders", some 7) ∷ (text "recent", none) ∷ [];
  table_info = λ t. [];
  foreign_key_list = λ t. [];
  count_rows = λ t. 0;
  distinct = λ t c. some (some (text "Oslo") ∷ none ∷ []);
}

-- Only the city is sampled, and the users have no row count.
found_users :
    (introspect_pg catalogue (text "k") (text "postgresql") (text "2026")).tables
    ≡ record {
      name = text "orders";
      columns =
          record (pg_column (row (text "orders") (text "user_id") (text "integer"))) {
            fk_ref = some (text "users.id");
          }
          ∷ [];
      row_count = some 7;
      sample = [];
    }
      ∷ record {
        name = text "users";
        columns =
            pg_column (row (text "users") (text "id") (text "integer"))
            ∷ pg_column (row (text "users") (text "city") (text "text"))
            ∷ [];
        row_count = none;
        sample = (text "city", text "Oslo" ∷ []) ∷ [];
      }
      ∷ []
unfolding program
found_users = refl

introspect_pg-outline_example :
    map outline (introspect_pg catalogue (text "k") (text "postgresql") (text "2026")).tables
    ≡ map (λ n. (n, columns_for pg_column catalogue n)) catalogue.names
introspect_pg-outline_example =
    introspect_pg-outline catalogue (text "k") (text "postgresql") (text "2026")

introspect_mysql_view_example :
    introspect catalogue (text "k") (text "mysql") (text "2026") ≡ err no_count
introspect_mysql_view_example = introspect_mysql_view catalogue (text "k") (text "2026") refl
