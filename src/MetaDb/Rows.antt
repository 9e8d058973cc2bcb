-- ===== src/MetaDb/Rows.antt =====
-- The row of a column among the rows of db/cache.py: what the statements of `save_schema` and
-- `load_schema` do to it.
use insightkit.Prelude.{
  Bool, true, false, ◌&&◌, not, Option, none, some, List, [], ◌∷◌, ◌++◌, ◌≡◌, refl, sym, ap, ◌∙◌,
  Text, text_eq, text_eq_iff, text_eq_refl, keep, if◌then◌else◌, Bool-cases, inl, inr, arith,
  and_parts,
}
use insightkit.Audit.{text_le}
use insightkit.MetaDb.{MetaRow, same_key, replace_row, replace_rows, row_le, insert_row, sort_rows}

module _ {A : Type 0} where
  abbrev pub or_else : Option A → Option A → Option A
  or_else none b = b
  or_else (some a) b = some a

  pub or_else-none : (a : Option A) → or_else a none ≡ a
  or_else-none none = refl
  or_else-none (some a) = refl

  pub or_else_assoc : (a b c : Option A) → or_else (or_else a b) c ≡ or_else a (or_else b c)
  or_else_assoc none b c = refl
  or_else_assoc (some a) b c = refl

pub same_key-eq :
    (r q : MetaRow)
    → same_key r q ≡ true
    → (r.db_key ≡ q.db_key) × (r.table_name ≡ q.table_name) × (r.column_name ≡ q.column_name)
same_key-eq r q h =
    let (rest, c) =
      and_parts (text_eq r.db_key q.db_key && text_eq r.table_name q.table_name)
        (text_eq r.column_name q.column_name) h in
    let (d, n) = and_parts (text_eq r.db_key q.db_key) (text_eq r.table_name q.table_name) rest in
    (
      (text_eq_iff r.db_key q.db_key).0 d,
      (text_eq_iff r.table_name q.table_name).0 n,
      (text_eq_iff r.column_name q.column_name).0 c,
    )

text_le_refl : (s : Text) → text_le s s ≡ true
unfolding text_le
text_le_refl [] = refl
text_le_refl (x ∷ s) = ground (arith, text_le_refl s)

not_le-differs : (r q : MetaRow) → row_le r q ≡ false → same_key r q ≡ false
unfolding row_le
not_le-differs r q h = elim (Bool-cases (same_key r q)) [
  | inr other ↦ other
  | inl same ↦
      let (d, n, c) = same_key-eq r q same in
      absurd (cc (rw (n, text_eq_refl q.table_name, c, text_le_refl q.column_name) at h))
]

module _ (k t c : Text) where
  abbrev pub is_at : MetaRow → Bool
  is_at r = text_eq r.db_key k && text_eq r.table_name t && text_eq r.column_name c

  abbrev pub at_row : MetaRow → Option MetaRow
  at_row r = if is_at r then some r else none

  -- The last row with the key.
  unfoldable pub last_at : List MetaRow → Option MetaRow
  last_at [] = none
  last_at (r ∷ rs) = or_else (last_at rs) (at_row r)

  pub last_at-append :
      (rs qs : List MetaRow) → last_at (rs ++ qs) ≡ or_else (last_at qs) (last_at rs)
  unfolding last_at
  last_at-append [] qs = sym (or_else-none (last_at qs))
  last_at-append (r ∷ rs) qs =
      rw (last_at-append rs qs) (or_else_assoc (last_at qs) (last_at rs) (at_row r))

  -- Rows of the same key are found by the same key.
  same_key-is_at : (r q : MetaRow) → same_key r q ≡ true → is_at q ≡ is_at r
  same_key-is_at r q h = let (d, n, c') = same_key-eq r q h in rw (d, n, c') refl

  is_at-same_key : (r q : MetaRow) → is_at r ≡ true → is_at q ≡ true → same_key r q ≡ true
  is_at-same_key r q h g = ground (
    arith,
    text_eq_iff r.db_key k,
    text_eq_iff q.db_key k,
    text_eq_iff r.table_name t,
    text_eq_iff q.table_name t,
    text_eq_iff r.column_name c,
    text_eq_iff q.column_name c,
    text_eq_iff r.db_key q.db_key,
    text_eq_iff r.table_name q.table_name,
    text_eq_iff r.column_name q.column_name,
  )

  last_at-keep :
      (r : MetaRow) (rows : List MetaRow)
      → is_at r ≡ false
      → last_at (keep (λ q. not (same_key r q)) rows) ≡ last_at rows
  unfolding last_at
  last_at-keep r [] h = refl
  last_at-keep r (q ∷ rows) h = elim (Bool-cases (same_key r q)) [
    | inl same ↦
        rw (same, same_key-is_at r q same, h, or_else-none (last_at rows)) (last_at-keep r rows h)
    | inr other ↦ rw other (ap (λ o. or_else o (at_row q)) (last_at-keep r rows h))
  ]

  -- `INSERT OR REPLACE`
  last_at-replace_row :
      (r : MetaRow) (rows : List MetaRow)
      → last_at (replace_row r rows) ≡ or_else (at_row r) (last_at rows)
  unfolding replace_row last_at
  last_at-replace_row r rows =
      last_at-append (keep (λ q. not (same_key r q)) rows) (r ∷ []) ∙ elim (Bool-cases (is_at r)) [
        | inl here ↦ rw here refl
        | inr there ↦ rw there (last_at-keep r rows there)
      ]

  pub last_at-replace_rows :
      (rs rows : List MetaRow)
      → last_at (replace_rows rs rows) ≡ or_else (last_at rs) (last_at rows)
  unfolding replace_rows last_at
  last_at-replace_rows [] rows = refl
  last_at-replace_rows (r ∷ rs) rows =
      rw (last_at-replace_rows rs (replace_row r rows), last_at-replace_row r rows)
        (sym (or_else_assoc (last_at rs) (at_row r) (last_at rows)))

  -- A row of another key goes before or after.
  or_else-swap :
      (r q : MetaRow) (o : Option MetaRow)
      → same_key r q ≡ false
      → or_else (or_else o (at_row r)) (at_row q) ≡ or_else (or_else o (at_row q)) (at_row r)
  or_else-swap r q o h = elim (Bool-cases (is_at r)) [
    | inr nr ↦ rw (nr, or_else-none o, or_else-none (or_else o (at_row q))) refl
    | inl yr ↦ elim (Bool-cases (is_at q)) [
      | inr nq ↦ rw (nq, or_else-none o, or_else-none (or_else o (at_row r))) refl
      | inl yq ↦ absurd (cc (h, is_at-same_key r q yr yq))
    ]
  ]

  last_at-insert_row :
      (r : MetaRow) (rows : List MetaRow) → last_at (insert_row r rows) ≡ last_at (r ∷ rows)
  unfolding insert_row last_at
  last_at-insert_row r [] = refl
  last_at-insert_row r (q ∷ rows) = elim (Bool-cases (row_le r q)) [
    | inl le ↦ rw le refl
    | inr gt ↦ rw gt (
        ap (λ o. or_else o (at_row q)) (last_at-insert_row r rows)
        ∙ or_else-swap r q (last_at rows) (not_le-differs r q gt))
  ]

  -- `ORDER BY`
  pub last_at-sort_rows : (rows : List MetaRow) → last_at (sort_rows rows) ≡ last_at rows
  unfolding sort_rows last_at
  last_at-sort_rows [] = refl
  last_at-sort_rows (r ∷ rows) =
      last_at-insert_row r (sort_rows rows)
      ∙ ap (λ o. or_else o (at_row r)) (last_at-sort_rows rows)
