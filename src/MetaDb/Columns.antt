-- ===== src/MetaDb/Columns.antt =====
-- The columns that the rows of db/cache.py stand for.
use insightkit.Prelude.{
  Bool, true, false, ◌&&◌, not, Option, none, some, List, [], ◌∷◌, ◌++◌, ◌≡◌, refl, sym, ap, ◌∙◌,
  Text, text_eq, text_eq_iff, text_eq_refl, text_mem, all, if◌then◌else◌, Bool-cases, inl, inr,
  arith, and_parts, or_parts, not_parts, map,
}
use insightkit.Schema.{ColumnMeta, TableMeta, SchemaMetadata}
use insightkit.MetaDb.{MetaRow, row_of, rows_of, column_of, add_row, add_rows}
use insightkit.MetaDb.Rows.{or_else, at_row, last_at, last_at-append, or_else-none, or_else_assoc}

-- The last column of a table with a name.
unfoldable pub last_column : List ColumnMeta → Text → Option ColumnMeta
last_column [] name = none
last_column (c ∷ cs) name =
    or_else (last_column cs name) (if text_eq c.name name then some c else none)

-- The column of the table with the name, both to the letter.
unfoldable pub column_at : List TableMeta → Text → Text → Option ColumnMeta
column_at [] table column = none
column_at (t ∷ ts) table column =
    if text_eq t.name table then last_column t.columns column else column_at ts table column

abbrev pub found_column : Option SchemaMetadata → Text → Text → Option ColumnMeta
found_column none table column = none
found_column (some s) table column = column_at s.tables table column

-- No two tables have the same name.
abbrev pub distinct_names : List TableMeta → Bool
distinct_names [] = true
distinct_names (t ∷ ts) = not (text_mem t.name (map (λ u. u.name) ts)) && distinct_names ts

last_column-append :
    (cs : List ColumnMeta) (c : ColumnMeta) (name : Text)
    → last_column (cs ++ c ∷ []) name
      ≡ or_else (if text_eq c.name name then some c else none) (last_column cs name)
unfolding last_column
last_column-append [] c name = sym (or_else-none _)
last_column-append (d ∷ cs) c name = rw (last_column-append cs c name) (
    or_else_assoc (if text_eq c.name name then some c else none) (last_column cs name)
      (if text_eq d.name name then some d else none))

abbrev pub column_of_row : Option MetaRow → Option ColumnMeta
column_of_row none = none
column_of_row (some r) = some (column_of r)

module _ (table column : Text) where
  -- What a row says of the column.
  abbrev hit : MetaRow → Option ColumnMeta
  hit r =
      if text_eq r.table_name table
      then if text_eq r.column_name column then some (column_of r) else none
      else none

  elsewhere :
      (other name : Text)
      → text_eq name other ≡ false
      → text_eq name table ≡ true
      → text_eq other table ≡ false
  elsewhere other name differs here = elim (Bool-cases (text_eq other table)) [
    | inr no' ↦ no'
    | inl yes' ↦
        ground (arith, text_eq_iff name other, text_eq_iff name table, text_eq_iff other table)
  ]

  column_of_row-or_else :
      (a b : Option MetaRow)
      → column_of_row (or_else a b) ≡ or_else (column_of_row a) (column_of_row b)
  column_of_row-or_else none b = refl
  column_of_row-or_else (some a) b = refl

  -- Among the rows of one database, what a row says is what its key says.
  at_row-hit :
      (k : Text) (r : MetaRow)
      → text_eq r.db_key k ≡ true
      → column_of_row (at_row k table column r) ≡ hit r
  at_row-hit k r h = rw h (elim (Bool-cases (text_eq r.table_name table)) [
    | inr there ↦ rw there refl
    | inl here ↦ rw here (elim (Bool-cases (text_eq r.column_name column)) [
      | inl same ↦ rw same refl
      | inr other ↦ rw other refl
    ])
  ])

  module _ (loads : Text → Option (List Text)) where
    column_at-add_row :
        (r : MetaRow) (ts : List TableMeta)
        → column_at (add_row loads r ts) table column ≡ or_else (hit r) (column_at ts table column)
    unfolding column_at add_row last_column column_of
    column_at-add_row r [] = rw (or_else-none (hit r)) refl
    column_at-add_row r (t ∷ ts) = elim (Bool-cases (text_eq t.name r.table_name)) [
      | inl same ↦
          rw (same, (text_eq_iff t.name r.table_name).0 same)
            (elim (Bool-cases (text_eq r.table_name table)) [
              | inl here ↦ rw here (last_column-append t.columns (column_of r) column)
              | inr there ↦ rw there refl
            ])
      | inr other ↦ rw other (elim (Bool-cases (text_eq t.name table)) [
        | inl here ↦ rw (here, elsewhere r.table_name t.name other here) refl
        | inr there ↦ rw there (column_at-add_row r ts)
      ])
    ]

    pub column_at-add_rows :
        (k : Text) (rows : List MetaRow) (ts : List TableMeta)
        → all (λ r. text_eq r.db_key k) rows ≡ true
        → column_at (add_rows loads rows ts) table column
          ≡ or_else (column_of_row (last_at k table column rows)) (column_at ts table column)
    unfolding add_rows last_at
    column_at-add_rows k [] ts h = refl
    column_at-add_rows k (r ∷ rows) ts h =
        let (mine, rest) = and_parts (text_eq r.db_key k) (all (λ q. text_eq q.db_key k) rows) h in
        let before = column_at ts table column in
        let later = last_at k table column rows in
        column_at-add_rows k rows (add_row loads r ts) rest
        ∙ ap (or_else (column_of_row later)) (column_at-add_row r ts)
        ∙ ap (λ o. or_else (column_of_row later) (or_else o before)) (sym (at_row-hit k r mine))
        ∙ sym (or_else_assoc (column_of_row later) (column_of_row (at_row k table column r)) before)
        ∙ ap (λ o. or_else o before) (sym (column_of_row-or_else later (at_row k table column r)))

  module _ (dumps : List Text → Text) (k : Text) where
    last_at-map :
        (t : TableMeta) (cs : List ColumnMeta)
        → column_of_row (last_at k table column (map (row_of dumps k t) cs))
          ≡ (if text_eq t.name table then last_column cs column else none)
    unfolding last_at last_column row_of column_of
    last_at-map t [] = elim (Bool-cases (text_eq t.name table)) [
      | inl h ↦ rw h refl
      | inr h ↦ rw h refl
    ]
    last_at-map t (c ∷ cs) =
        column_of_row-or_else (last_at k table column (map (row_of dumps k t) cs))
          (at_row k table column (row_of dumps k t c))
        ∙ ap (λ o. or_else o (column_of_row (at_row k table column (row_of dumps k t c))))
            (last_at-map t cs)
        ∙ ap (or_else (if text_eq t.name table then last_column cs column else none))
            (at_row-hit k (row_of dumps k t c) (text_eq_refl k))
        ∙ elim (Bool-cases (text_eq t.name table)) [ inl h ↦ rw h refl | inr h ↦ rw h refl ]

    column_at_absent :
        (name : Text) (ts : List TableMeta)
        → text_eq name table ≡ true
        → text_mem name (map (λ u. u.name) ts) ≡ false
        → column_at ts table column ≡ none
    unfolding column_at
    column_at_absent name [] e h = refl
    column_at_absent name (t ∷ ts) e h = elim (Bool-cases (text_eq t.name table)) [
      | inr there ↦ rw there (
          column_at_absent name ts e
            (or_parts (text_eq name t.name) (text_mem name (map (λ u. u.name) ts)) h).1)
      | inl here ↦
          let (other, _) =
            or_parts (text_eq name t.name) (text_mem name (map (λ u. u.name) ts)) h in
          absurd (
            cc (
              other,
              (text_eq_iff name t.name).1
                  ((text_eq_iff name table).0 e ∙ sym ((text_eq_iff t.name table).0 here)),
            ))
    ]

    -- The last row of a column is the column, where no two tables have the same name.
    pub last_at-rows_of :
        (ts : List TableMeta)
        → distinct_names ts ≡ true
        → column_of_row (last_at k table column (rows_of dumps k ts)) ≡ column_at ts table column
    unfolding rows_of column_at last_at
    last_at-rows_of [] h = refl
    last_at-rows_of (t ∷ ts) h =
        let (fresh, rest) =
          and_parts (not (text_mem t.name (map (λ u. u.name) ts))) (distinct_names ts) h in
        let own = if text_eq t.name table then last_column t.columns column else none in
        ap column_of_row
          (last_at-append k table column (map (row_of dumps k t) t.columns) (rows_of dumps k ts))
        ∙ column_of_row-or_else (last_at k table column (rows_of dumps k ts))
            (last_at k table column (map (row_of dumps k t) t.columns))
        ∙ ap
            (λ o.
              or_else o (column_of_row (last_at k table column (map (row_of dumps k t) t.columns))))
            (last_at-rows_of ts rest)
        ∙ ap (or_else (column_at ts table column)) (last_at-map t t.columns)
        ∙ elim (Bool-cases (text_eq t.name table)) [
          | inl here ↦ rw (here, column_at_absent t.name ts here (not_parts _ fresh)) refl
          | inr there ↦ rw there (or_else-none (column_at ts table column))
        ]
