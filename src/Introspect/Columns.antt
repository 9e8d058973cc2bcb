-- ===== src/Introspect/Columns.antt =====
-- The tables and columns that db/introspect.py finds.
use insightkit.Prelude.{
  ℕ, Option, none, some, List, [], ◌∷◌, ◌++◌, ◌≡◌, refl, sym, ap, ◌∙◌, map, Text, text_eq,
  text_eq_iff, keep, if◌then◌else◌, Bool-cases, inl, inr, append_assoc, append-nil,
}
use mathlib.Core.Path.{ap₂}
use insightkit.Prelude.Dict.{Dict, get, put, get-put}
use insightkit.Schema.{ColumnMeta, TableMeta}
use insightkit.Introspect.{
  Catalogue, ColumnRow, FkRow, or_nil, append_to, grouped, pg_column, dotted, fks_from, with_ref,
  apply_fks, counts_pg,
}
use insightkit.Introspect.Tables.{base_table, with_samples, assembled, introspect_pg}

-- The rows of a table, in the order of the catalogue.
abbrev pub rows_for : Text → List ColumnRow → List ColumnRow
rows_for table rows = keep (λ r. text_eq r.table_name table) rows

abbrev pub or_later : Option Text → Option Text → Option Text
or_later none b = b
or_later (some a) b = some a

-- The reference of the last foreign key of a column.
unfoldable pub last_ref : List FkRow → Text → Text → Option Text
last_ref [] table column = none
last_ref (r ∷ rs) table column = or_later (last_ref rs table column) (
    if text_eq r.table_name table
    then if text_eq r.column_name column then some (dotted r.ref_table r.ref_column) else none
    else none)

module _ (column : ColumnRow → ColumnMeta) (table : Text) where
  get-append_to :
      (k : Text) (c : ColumnMeta) (d : Dict (List ColumnMeta))
      → or_nil (get table (append_to k c d))
        ≡ (if text_eq k table then or_nil (get table d) ++ c ∷ [] else or_nil (get table d))
  unfolding append_to
  get-append_to k c d = elim (Bool-cases (text_eq k table)) [
    | inr other ↦ rw (other, get-put k table (or_nil (get k d) ++ c ∷ []) d, other) refl
    | inl same ↦
        rw (same, get-put k table (or_nil (get k d) ++ c ∷ []) d, same)
          (ap (λ n. or_nil (get n d) ++ c ∷ []) ((text_eq_iff k table).0 same))
  ]

  get-grouped :
      (rows : List ColumnRow) (d : Dict (List ColumnMeta))
      → or_nil (get table (grouped column rows d))
        ≡ or_nil (get table d) ++ map column (rows_for table rows)
  unfolding grouped
  get-grouped [] d = sym (append-nil (or_nil (get table d)))
  get-grouped (r ∷ rows) d =
      get-grouped rows (append_to r.table_name (column r) d)
      ∙ ap (λ l. l ++ map column (rows_for table rows)) (get-append_to r.table_name (column r) d)
      ∙ elim (Bool-cases (text_eq r.table_name table)) [
        | inl same ↦
            rw same (
              append_assoc (or_nil (get table d)) (column r ∷ [])
                (map column (rows_for table rows)))
        | inr other ↦ rw other refl
      ]

module _ (table column : Text) where
  -- What the dictionary of the foreign keys says of the column.
  abbrev ref_at : Dict (Dict Text) → Option Text
  ref_at d = get column (or_nil (get table d))

  fk_hit : FkRow → Option Text
  fk_hit r =
      if text_eq r.table_name table
      then if text_eq r.column_name column then some (dotted r.ref_table r.ref_column) else none
      else none

  ref_at-put :
      (r : FkRow) (d : Dict (Dict Text))
      → ref_at (
          put r.table_name
            (put r.column_name (dotted r.ref_table r.ref_column) (or_nil (get r.table_name d)))
            d)
        ≡ or_later (fk_hit r) (ref_at d)
  unfolding fk_hit
  ref_at-put r d =
      let inner =
        put r.column_name (dotted r.ref_table r.ref_column) (or_nil (get r.table_name d)) in
      elim (Bool-cases (text_eq r.table_name table)) [
        | inr other ↦ rw (other, get-put r.table_name table inner d, other) refl
        | inl same ↦
            let e = (text_eq_iff r.table_name table).0 same in
            rw (same, get-put r.table_name table inner d, same)
              (get-put r.column_name column (dotted r.ref_table r.ref_column)
                  (or_nil (get r.table_name d))
                ∙ elim (Bool-cases (text_eq r.column_name column)) [
                  | inl here ↦ rw here refl
                  | inr there ↦ rw there (ap (λ n. get column (or_nil (get n d))) e)
                ])
      ]

  or_later_assoc : (a b c : Option Text) → or_later (or_later a b) c ≡ or_later a (or_later b c)
  or_later_assoc none b c = refl
  or_later_assoc (some a) b c = refl

  ref_at-fks_from :
      (rows : List FkRow) (d : Dict (Dict Text))
      → ref_at (fks_from rows d) ≡ or_later (last_ref rows table column) (ref_at d)
  unfolding fks_from last_ref fk_hit
  ref_at-fks_from [] d = refl
  ref_at-fks_from (r ∷ rows) d =
      ref_at-fks_from rows (
        put r.table_name
          (put r.column_name (dotted r.ref_table r.ref_column) (or_nil (get r.table_name d))) d)
      ∙ ap (or_later (last_ref rows table column)) (ref_at-put r d)
      ∙ sym (or_later_assoc (last_ref rows table column) (fk_hit r) (ref_at d))

or_later-none : (o : Option Text) → or_later o none ≡ o
or_later-none none = refl
or_later-none (some s) = refl

-- The columns that the catalogue has for a table, each with the last of its foreign keys.
abbrev pub columns_for : (ColumnRow → ColumnMeta) → Catalogue → Text → List ColumnMeta
columns_for column cat table =
    map (λ r. with_ref (column r) (last_ref cat.fks table (column r).name))
      (rows_for table cat.columns)

apply_all :
    (column : ColumnRow → ColumnMeta) (table : Text) (fks : List FkRow) (rows : List ColumnRow)
    → map (λ c. with_ref c (get c.name (or_nil (get table (fks_from fks []))))) (map column rows)
      ≡ map (λ r. with_ref (column r) (last_ref fks table (column r).name)) rows
unfolding get
apply_all column table fks [] = refl
apply_all column table fks (r ∷ rows) =
    ap₂ ◌∷◌
      (ap (with_ref (column r)) (
        ref_at-fks_from table (column r).name fks []
        ∙ or_later-none (last_ref fks table (column r).name)))
      (apply_all column table fks rows)

-- A table of the schema: its name and its columns.
abbrev pub outline : TableMeta → Text × List ColumnMeta
outline t = (t.name, t.columns)

module _ (cat : Catalogue) (db_key dialect extracted_at : Text) where
  outlines :
      (column : ColumnRow → ColumnMeta) (counts : Dict ℕ) (names : List Text)
      → map outline (
          map
            (λ n. with_samples cat.distinct (
              apply_fks
                (fks_from cat.fks [])
                (base_table (grouped column cat.columns []) counts n)))
            names)
        ≡ map (λ n. (n, columns_for column cat n)) names
  unfolding with_samples apply_fks base_table get
  outlines column counts [] = refl
  outlines column counts (n ∷ names) =
      ap₂ ◌∷◌
        (ap (λ l. (n, l))
          (ap (map (λ c. with_ref c (get c.name (or_nil (get n (fks_from cat.fks []))))))
              (get-grouped column n cat.columns [])
            ∙ apply_all column n cat.fks (rows_for n cat.columns)))
        (outlines column counts names)

  -- Of a PostgreSQL database, the schema has the base tables in their order, and each has the columns
  -- that the catalogue lists for it, in that order, each with the reference of the last of its
  -- foreign keys.
  pub introspect_pg-outline :
      map outline (introspect_pg cat db_key dialect extracted_at).tables
      ≡ map (λ n. (n, columns_for pg_column cat n)) cat.names
  unfolding introspect_pg assembled
  introspect_pg-outline = outlines pg_column (counts_pg cat.estimates []) cat.names
