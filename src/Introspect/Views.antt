-- ===== src/Introspect/Views.antt =====
-- The row counts of MySQL in db/introspect.py.
use insightkit.Prelude.{
  ℕ, Bool, true, false, Option, none, some, List, [], ◌∷◌, ◌≡◌, refl, ap, Text, text, any,
}
use insightkit.Prelude.Dict.{Dict, put}
use insightkit.Prelude.Result.{ok, err, ◌>>=◌}
use insightkit.Introspect.{Catalogue, no_count, counts_mysql, grouped, mysql_column, fks_from}
use insightkit.Introspect.Tables.{introspect, introspect_mysql, assembled}

-- A table whose number of rows is NULL.
abbrev pub uncounted : Text × Option ℕ → Bool
uncounted (name, none) = true
uncounted (name, some n) = false

counts_mysql_fails :
    (rows : List (Text × Option ℕ)) (d : Dict ℕ)
    → any uncounted rows ≡ true
    → counts_mysql rows d ≡ err no_count
unfolding counts_mysql
counts_mysql_fails [] d h = absurd (cc)
counts_mysql_fails ((name, none) ∷ rows) d h = refl
counts_mysql_fails ((name, some n) ∷ rows) d h = counts_mysql_fails rows (put name n d) h

-- One table of a MySQL database without a number of rows, as a view is, makes the introspection fail.
pub introspect_mysql_view :
    (cat : Catalogue) (db_key extracted_at : Text)
    → any uncounted cat.table_rows ≡ true
    → introspect cat db_key (text "mysql") extracted_at ≡ err no_count
unfolding introspect introspect_mysql
introspect_mysql_view cat db_key extracted_at h =
    ap
      (λ counts. counts >>= λ c. ok (
        assembled cat db_key (text "mysql") extracted_at (grouped mysql_column cat.columns [])
          (fks_from cat.fks []) c))
      (counts_mysql_fails cat.table_rows [] h)
