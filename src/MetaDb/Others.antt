-- ===== src/MetaDb/Others.antt =====
-- What a save by db/cache.py does to the schema of another database.
use insightkit.Prelude.{
  Bool, true, false, not, Option, some, List, [], ◌∷◌, ◌++◌, ◌≡◌, refl, ap, ◌∙◌, Text, text_eq,
  text_eq_iff, text_eq_refl, keep, all, all-append, if◌then◌else◌, Bool-cases, inl, inr, and_parts,
  map,
}
use insightkit.Schema.{ColumnMeta, TableMeta, SchemaMetadata}
use insightkit.MetaDb.{
  MetaDb, MetaRow, same_key, row_of, rows_of, replace_row, replace_rows, save_schema, sort_rows,
  schema_from, load_schema,
}
use insightkit.MetaDb.Rows.{same_key-eq}

module _ (k : Text) where
  abbrev is_of : MetaRow → Bool
  is_of r = text_eq r.db_key k

  keep-append :
      (rows : List MetaRow) (r : MetaRow)
      → is_of r ≡ false
      → keep is_of (rows ++ r ∷ []) ≡ keep is_of rows
  keep-append [] r h = rw h refl
  keep-append (q ∷ rows) r h =
      ap (λ rest. if is_of q then q ∷ rest else rest) (keep-append rows r h)

  -- A row that replaces rows of another database.
  keep-other :
      (p : MetaRow → Bool) (rows : List MetaRow)
      → ((q : MetaRow) → is_of q ≡ true → p q ≡ true)
      → keep is_of (keep p rows) ≡ keep is_of rows
  keep-other p [] f = refl
  keep-other p (q ∷ rows) f = elim (Bool-cases (is_of q)) [
    | inl mine ↦ rw (f q mine, mine) (ap (◌∷◌ q) (keep-other p rows f))
    | inr other ↦ elim (Bool-cases (p q)) [
      | inl kept ↦ rw (kept, other) (keep-other p rows f)
      | inr gone ↦ rw (gone, other) (keep-other p rows f)
    ]
  ]

  differs : (a b : Text) → text_eq a k ≡ false → text_eq b k ≡ true → text_eq b a ≡ false
  differs a b h g = elim (Bool-cases (text_eq b a)) [
    | inr no' ↦ no'
    | inl yes' ↦ absurd (cc (h, ap (λ w. text_eq w k) ((text_eq_iff b a).0 yes'), g))
  ]

  other_key : (r q : MetaRow) → is_of r ≡ false → is_of q ≡ true → not (same_key r q) ≡ true
  other_key r q h g = elim (Bool-cases (same_key r q)) [
    | inr other ↦ rw other refl
    | inl same ↦ absurd (cc (h, ap (λ w. text_eq w k) ((same_key-eq r q same).0), g))
  ]

  keep-replace_rows :
      (m : Text) (rs rows : List MetaRow)
      → text_eq m k ≡ false
      → all (λ r. text_eq r.db_key m) rs ≡ true
      → keep is_of (replace_rows rs rows) ≡ keep is_of rows
  unfolding replace_rows replace_row
  keep-replace_rows m [] rows h a = refl
  keep-replace_rows m (r ∷ rs) rows h a =
      let (mine, rest) = and_parts (text_eq r.db_key m) (all (λ q. text_eq q.db_key m) rs) a in
      let other : is_of r ≡ false = rw ((text_eq_iff r.db_key m).0 mine) h in
      keep-replace_rows m rs (replace_row r rows) h rest
      ∙ keep-append (keep (λ q. not (same_key r q)) rows) r other
      ∙ keep-other (λ q. not (same_key r q)) rows (λ q. other_key r q other)

module _ (dumps : List Text → Text) (m : Text) where
  all-row_of :
      (t : TableMeta) (cs : List ColumnMeta)
      → all (λ r. text_eq r.db_key m) (map (row_of dumps m t) cs) ≡ true
  unfolding row_of
  all-row_of t [] = refl
  all-row_of t (c ∷ cs) = rw (text_eq_refl m, all-row_of t cs) refl

  all-rows_of : (ts : List TableMeta) → all (λ r. text_eq r.db_key m) (rows_of dumps m ts) ≡ true
  unfolding rows_of
  all-rows_of [] = refl
  all-rows_of (t ∷ ts) =
      rw
        (
          all-append (λ r. text_eq r.db_key m) (map (row_of dumps m t) t.columns)
              (rows_of dumps m ts),
          all-row_of t t.columns,
          all-rows_of ts,
        )
        refl

-- Saving the schema of a database leaves that of another as it was, but for the time of its
-- extraction, which becomes the time of the schema that was saved.
pub load-save_schema_other :
    (dumps : List Text → Text) (loads : Text → Option (List Text)) (from_iso : Option Text → Text)
    (meta : SchemaMetadata) (k : Text) (db : MetaDb)
    → text_eq meta.db_key k ≡ false
    → load_schema loads from_iso k (save_schema dumps meta db)
      ≡ load_schema loads from_iso k (record db { extracted_at = some meta.extracted_at })
unfolding load_schema save_schema
load-save_schema_other dumps loads from_iso meta k db h =
    ap (λ rows. schema_from loads from_iso k (some meta.extracted_at) (sort_rows rows))
      (keep-replace_rows k meta.db_key (rows_of dumps meta.db_key meta.tables)
          (keep (λ r. not (text_eq r.db_key meta.db_key)) db.rows) h
          (all-rows_of dumps meta.db_key meta.tables)
        ∙ keep-other k (λ r. not (text_eq r.db_key meta.db_key)) db.rows
            (λ q mine. rw (differs k meta.db_key q.db_key h mine) refl))
