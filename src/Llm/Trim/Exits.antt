-- ===== src/Llm/Trim/Exits.antt =====
-- That the loops of `_trim_schema` in llm/prompt.py end.
use insightkit.Prelude.{
  ℕ, zero, suc, ◌+◌, ◌-◌, ◌≤◌, ◌<◌, true, false, ◌&&◌, List, [], ◌∷◌, ◌++◌, ◌≡◌, refl, Text, length,
  ltb, if-cases, and_false, and_parts, lt→ltb, Bool-cases, inl, inr, arith, ltb→lt,
}
use insightkit.Schema.{TableMeta}
use insightkit.Llm.Trim.{
  drop_last, pop_column, has_wide, count_columns, over, pop_columns, pop_tables, narrow, shorten,
}

length-drop_last : {A : Type 0} (xs : List A) → length (drop_last xs) ≡ length xs - 1
unfolding drop_last
length-drop_last [] = refl
length-drop_last (x ∷ []) = refl
length-drop_last (x ∷ y ∷ xs) = omega (arith, length-drop_last (y ∷ xs))

count_columns-append :
    (xs ys : List TableMeta) → count_columns (xs ++ ys) ≡ count_columns xs + count_columns ys
unfolding count_columns
count_columns-append [] ys = omega arith
count_columns-append (x ∷ xs) ys = omega (arith, count_columns-append xs ys)

no_wide : (ts : List TableMeta) → count_columns ts ≤ 0 → has_wide ts ≡ false
unfolding count_columns
no_wide [] h = refl
no_wide (t ∷ ts) h = ground (arith, no_wide ts (omega arith))

short_ltb : {A : Type 0} (ts : List A) → length ts ≤ 0 → ltb 1 (length ts) ≡ false
short_ltb ts h = ground arith

module _ (repr : List Text → Text) (budget : ℕ) where
  pop_columns-le :
      (f : ℕ) (before rest : List TableMeta) (t : TableMeta) (s : Text)
      → length (pop_columns repr budget f before t rest s).0.columns ≤ length t.columns
  unfolding pop_columns
  pop_columns-le zero before rest t s = omega arith
  pop_columns-le (suc f) before rest t s =
      elim (Bool-cases (ltb 1 (length t.columns) && over repr budget s)) [
        | inl b ↦ rw b (
            omega
              (arith, length-drop_last t.columns, pop_columns-le f before rest (pop_column t) _))
        | inr b ↦ rw b (omega arith)
      ]

  -- A table that is wide loses a column where the text is too long.
  pop_columns-lt :
      (f : ℕ) (before rest : List TableMeta) (t : TableMeta) (s : Text)
      → over repr budget s ≡ true
      → 1 < length t.columns
      → 0 < f
      → length (pop_columns repr budget f before t rest s).0.columns < length t.columns
  unfolding pop_columns
  pop_columns-lt zero before rest t s o w h = absurd (omega arith)
  pop_columns-lt (suc f) before rest t s o w h =
      rw (lt→ltb 1 (length t.columns) w, o)
        (omega (arith, length-drop_last t.columns, pop_columns-le f before rest (pop_column t) _))

  pop_columns-narrow :
      (f : ℕ) (before rest : List TableMeta) (t : TableMeta) (s : Text)
      → ltb 1 (length t.columns) ≡ false
      → pop_columns repr budget f before t rest s ≡ (t, s)
  unfolding pop_columns
  pop_columns-narrow zero before rest t s w = refl
  pop_columns-narrow (suc f) before rest t s w = rw w refl

  pop_tables-le :
      (before ts : List TableMeta) (s : Text)
      → count_columns (pop_tables repr budget before ts s) ≤ count_columns before + count_columns ts
  unfolding pop_tables count_columns
  pop_tables-le before [] s = omega arith
  pop_tables-le before (t ∷ ts) s =
      let (t', s') = pop_columns repr budget (length t.columns) before t ts s in
      omega (
        arith,
        count_columns-append before (t' ∷ []),
        pop_columns-le (length t.columns) before ts t s,
        pop_tables-le (before ++ t' ∷ []) ts s',
      )

  pop_tables-lt :
      (before ts : List TableMeta) (s : Text)
      → over repr budget s ≡ true
      → has_wide ts ≡ true
      → count_columns (pop_tables repr budget before ts s) < count_columns before + count_columns ts
  unfolding pop_tables count_columns
  pop_tables-lt before [] s o w = absurd (cc)
  pop_tables-lt before (t ∷ ts) s o w = elim (Bool-cases (ltb 1 (length t.columns))) [
    | inl wide ↦
        let (t', s') = pop_columns repr budget (length t.columns) before t ts s in
        let two = ltb→lt 1 (length t.columns) wide in
        omega (
          arith,
          count_columns-append before (t' ∷ []),
          pop_columns-lt (length t.columns) before ts t s o two (omega (arith, two)),
          pop_tables-le (before ++ t' ∷ []) ts s',
        )
    | inr slim ↦ rw (pop_columns-narrow (length t.columns) before ts t s slim) (
        omega (
          arith,
          count_columns-append before (t ∷ []),
          pop_tables-lt (before ++ t ∷ []) ts s o (rw slim at w),
        ))
  ]

  narrow-Exits :
      (f : ℕ) (ts : List TableMeta) (s : Text)
      → count_columns ts ≤ f
      → over repr budget (narrow repr budget f ts s).1 && has_wide (narrow repr budget f ts s).0
        ≡ false
  unfolding narrow count_columns
  narrow-Exits zero ts s h = rw (no_wide ts h) (and_false (over repr budget s))
  narrow-Exits (suc f) ts s h =
      let ts' = pop_tables repr budget [] ts s in
      if-cases (λ (r : List TableMeta × Text). over repr budget r.1 && has_wide r.0 ≡ false)
        (over repr budget s && has_wide ts) _ (ts, s)
        (λ b.
          let (o, w) = and_parts _ _ b in
          narrow-Exits f ts' _ (omega (arith, pop_tables-lt [] ts s o w)))
        (λ b. b)

  shorten-Exits :
      (f : ℕ) (ts : List TableMeta) (s : Text)
      → length ts ≤ f
      → over repr budget (shorten repr budget f ts s).1
          && ltb 1 (length (shorten repr budget f ts s).0)
        ≡ false
  unfolding shorten
  shorten-Exits zero ts s h = rw (short_ltb ts h) (and_false (over repr budget s))
  shorten-Exits (suc f) ts s h =
      if-cases (λ (r : List TableMeta × Text). over repr budget r.1 && ltb 1 (length r.0) ≡ false)
        (over repr budget s && ltb 1 (length ts)) _ (ts, s)
        (λ b. shorten-Exits f (drop_last ts) _ (omega (arith, length-drop_last ts))) (λ b. b)

  pop_columns-Exits :
      (f : ℕ) (before rest : List TableMeta) (t : TableMeta) (s : Text)
      → length t.columns ≤ f
      → ltb 1 (length (pop_columns repr budget f before t rest s).0.columns)
          && over repr budget (pop_columns repr budget f before t rest s).1
        ≡ false
  unfolding pop_columns
  pop_columns-Exits zero before rest t s h = rw (short_ltb t.columns h) refl
  pop_columns-Exits (suc f) before rest t s h =
      if-cases
        (λ (r : TableMeta × Text). ltb 1 (length r.0.columns) && over repr budget r.1 ≡ false)
        (ltb 1 (length t.columns) && over repr budget s) _ (t, s)
        (λ b.
          pop_columns-Exits f before rest (pop_column t) _
            (omega (arith, length-drop_last t.columns)))
        (λ b. b)

  -- The fuel of the three loops of `_trim_schema` is enough: the condition of each is false where
  -- it ends. The loop on a table has its number of columns, the first loop on all of the tables the
  -- number of columns of the schema, and the last the number of tables.
  pub trim_loops_end :
      (before rest : List TableMeta) (t : TableMeta) (ts : List TableMeta) (s : Text)
      → (ltb 1 (length (pop_columns repr budget (length t.columns) before t rest s).0.columns)
            && over repr budget (pop_columns repr budget (length t.columns) before t rest s).1
          ≡ false)
        × (over repr budget (narrow repr budget (count_columns ts) ts s).1
              && has_wide (narrow repr budget (count_columns ts) ts s).0
            ≡ false)
        × (over repr budget (shorten repr budget (length ts) ts s).1
              && ltb 1 (length (shorten repr budget (length ts) ts s).0)
            ≡ false)
  trim_loops_end before rest t ts s = (
    pop_columns-Exits (length t.columns) before rest t s (omega arith),
    narrow-Exits (count_columns ts) ts s (omega arith),
    shorten-Exits (length ts) ts s (omega arith),
  )
