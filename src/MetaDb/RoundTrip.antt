-- ===== src/MetaDb/RoundTrip.antt =====
-- A schema saved by db/cache.py and loaded again.
use insightkit.Prelude.{
  Bool, true, false, ◌&&◌, not, Option, none, some, List, [], ◌∷◌, ◌≡◌, refl, sym, ap, ◌∙◌, Text,
  text_eq, keep, all, all-keep, if◌then◌else◌, Bool-cases, inl, inr, and_false,
}
use insightkit.Schema.{SchemaMetadata}
use insightkit.MetaDb.{
  MetaDb, MetaRow, rows_of, save_schema, row_le, insert_row, sort_rows, add_rows, schema_from,
  load_schema, replace_rows,
}
use insightkit.MetaDb.Rows.{
  or_else, at_row, last_at, last_at-replace_rows, last_at-sort_rows, or_else-none,
}
use insightkit.MetaDb.Columns.{
  column_at, found_column, distinct_names, column_of_row, column_at-add_rows, last_at-rows_of,
}

module _ (k table column : Text) where
  at_row-other : (r : MetaRow) → text_eq r.db_key k ≡ false → at_row k table column r ≡ none
  at_row-other r h = rw h refl

  -- Selecting the rows of a database keeps those of its keys, and deleting them leaves none.
  last_at-selected :
      (rows : List MetaRow)
      → last_at k table column (keep (λ r. text_eq r.db_key k) rows) ≡ last_at k table column rows
  unfolding last_at
  last_at-selected [] = refl
  last_at-selected (r ∷ rows) =
      let rest = keep (λ r. text_eq r.db_key k) rows in
      elim (Bool-cases (text_eq r.db_key k)) [
        | inl mine ↦
            ap (λ b. last_at k table column (if b then r ∷ rest else rest)) mine
            ∙ ap (λ o. or_else o (at_row k table column r)) (last_at-selected rows)
        | inr other ↦
            ap (λ b. last_at k table column (if b then r ∷ rest else rest)) other
            ∙ last_at-selected rows
            ∙ sym (or_else-none (last_at k table column rows))
            ∙ ap (or_else (last_at k table column rows)) (sym (at_row-other r other))
      ]

  last_at-deleted :
      (rows : List MetaRow)
      → last_at k table column (keep (λ r. not (text_eq r.db_key k)) rows) ≡ none
  unfolding last_at
  last_at-deleted [] = refl
  last_at-deleted (r ∷ rows) =
      let rest = keep (λ r. not (text_eq r.db_key k)) rows in
      elim (Bool-cases (text_eq r.db_key k)) [
        | inl mine ↦
            ap (λ b. last_at k table column (if not b then r ∷ rest else rest)) mine
            ∙ last_at-deleted rows
        | inr other ↦
            ap (λ b. last_at k table column (if not b then r ∷ rest else rest)) other
            ∙ ap (λ o. or_else o (at_row k table column r)) (last_at-deleted rows)
            ∙ at_row-other r other
      ]

  found-schema_from :
      (loads : Text → Option (List Text)) (from_iso : Option Text → Text) (extracted : Option Text)
      (rows : List MetaRow)
      → found_column (schema_from loads from_iso k extracted rows) table column
        ≡ column_at (add_rows loads rows []) table column
  unfolding schema_from add_rows column_at
  found-schema_from loads from_iso extracted [] = refl
  found-schema_from loads from_iso extracted (r ∷ rows) = refl

all-insert_row :
    (p : MetaRow → Bool) (r : MetaRow) (rows : List MetaRow)
    → all p (insert_row r rows) ≡ all p (r ∷ rows)
unfolding insert_row
all-insert_row p r [] = refl
all-insert_row p r (q ∷ rows) = elim (Bool-cases (row_le r q)) [
  | inl le ↦ rw le refl
  | inr gt ↦ rw (gt, all-insert_row p r rows) (swap_all (p r) (p q) (all p rows))
]
  where
    swap_all : (a b c : Bool) → b && (a && c) ≡ a && (b && c)
    swap_all true b c = refl
    swap_all false b c = and_false b

all-sort_rows : (p : MetaRow → Bool) (rows : List MetaRow) → all p (sort_rows rows) ≡ all p rows
unfolding sort_rows
all-sort_rows p [] = refl
all-sort_rows p (r ∷ rows) =
    all-insert_row p r (sort_rows rows) ∙ ap (λ b. p r && b) (all-sort_rows p rows)

-- Where no two tables have the same name, the schema that is loaded after a save has the columns of
-- the one that was saved: under every pair of names, the column that the tables have, with its type,
-- its keys and whether it may be null, or none.
pub load-save_schema :
    (dumps : List Text → Text) (loads : Text → Option (List Text)) (from_iso : Option Text → Text)
    (meta : SchemaMetadata) (db : MetaDb) (table column : Text)
    → distinct_names meta.tables ≡ true
    → found_column (load_schema loads from_iso meta.db_key (save_schema dumps meta db)) table column
      ≡ column_at meta.tables table column
unfolding load_schema save_schema column_at
load-save_schema dumps loads from_iso meta db table column h =
    let k = meta.db_key in
    let new = rows_of dumps k meta.tables in
    let old = keep (λ r. not (text_eq r.db_key k)) db.rows in
    let selected = keep (λ r. text_eq r.db_key k) (replace_rows new old) in
    found-schema_from k table column loads from_iso (some meta.extracted_at) (sort_rows selected)
    ∙ column_at-add_rows table column loads k (sort_rows selected) [] (
        all-sort_rows (λ r. text_eq r.db_key k) selected
        ∙ all-keep (λ r. text_eq r.db_key k) (replace_rows new old))
    ∙ or_else-none (column_of_row (last_at k table column (sort_rows selected)))
    ∙ ap column_of_row (
        last_at-sort_rows k table column selected
        ∙ last_at-selected k table column (replace_rows new old)
        ∙ last_at-replace_rows k table column new old
        ∙ ap (or_else (last_at k table column new)) (last_at-deleted k table column db.rows)
        ∙ or_else-none (last_at k table column new))
    ∙ last_at-rows_of table column dumps k meta.tables h
