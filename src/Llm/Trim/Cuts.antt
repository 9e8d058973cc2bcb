-- ===== src/Llm/Trim/Cuts.antt =====
-- What `_trim_schema` of llm/prompt.py leaves of the schema.
use insightkit.Prelude.{
  ℕ, zero, suc, ◌≤◌, ◌&&◌, List, [], ◌∷◌, ◌++◌, ◌≡◌, ◌⊎◌, refl, ◌∙◌, ap, Text, length, ltb, leb,
  map, if-cases, Bool-cases, inl, inr, arith, append_assoc, append-nil, sym,
}
use insightkit.Schema.{TableMeta}
use insightkit.Schema.Render.{render, max_tables, max_cols_per_table}
use insightkit.Llm.Trim.{
  drop_last, pop_column, without_samples, count_columns, estimate_tokens, over, pop_columns,
  pop_tables, narrow, shorten, fitting, shortened, trim_tables, trim_schema,
}

abbrev pub IsPrefix : {A : Type 0} → List A → List A → Type 0
IsPrefix {A} xs ys = (rest : List A) × (xs ++ rest ≡ ys)

-- A table with some of its first columns.
pub record CutTable (t' t : TableMeta) : Type 0 where
  pub name : t'.name ≡ t.name
  pub columns : IsPrefix t'.columns t.columns

-- Some of the first tables, each cut.
pub data Cut : List TableMeta → List TableMeta → Type 0 where
  stop : (ts : List TableMeta) → Cut [] ts
  keep :
      {t' t : TableMeta} {ts' ts : List TableMeta}
      → CutTable t' t
      → Cut ts' ts
      → Cut (t' ∷ ts') (t ∷ ts)

drop_last-IsPrefix : {A : Type 0} (xs : List A) → IsPrefix (drop_last xs) xs
unfolding drop_last
drop_last-IsPrefix [] = ([], refl)
drop_last-IsPrefix (x ∷ []) = (x ∷ [], refl)
drop_last-IsPrefix (x ∷ y ∷ xs) =
    let (rest, e) = drop_last-IsPrefix (y ∷ xs) in (rest, ap (◌∷◌ x) e)

CutTable-refl : (t : TableMeta) → CutTable t t
CutTable-refl t = record { name = refl; columns = ([], append-nil t.columns) }

CutTable-trans : (t u v : TableMeta) → CutTable t u → CutTable u v → CutTable t v
CutTable-trans t u v c d =
    let (r, e) = c.columns in
    let (q, f) = d.columns in
    record {
      name = c.name ∙ d.name;
      columns = (r ++ q, sym (append_assoc t.columns r q) ∙ (ap (λ w. w ++ q) e ∙ f));
    }

Cut-refl : (ts : List TableMeta) → Cut ts ts
Cut-refl [] = stop []
Cut-refl (t ∷ ts) = keep (CutTable-refl t) (Cut-refl ts)

Cut-trans : {ts us vs : List TableMeta} → Cut ts us → Cut us vs → Cut ts vs
Cut-trans {vs = vs} (stop us) d = stop vs
Cut-trans (keep c cs) (keep d ds) = keep (CutTable-trans _ _ _ c d) (Cut-trans cs ds)

Cut-drop_last : (ts : List TableMeta) → Cut (drop_last ts) ts
unfolding drop_last
Cut-drop_last [] = stop []
Cut-drop_last (t ∷ []) = stop (t ∷ [])
Cut-drop_last (t ∷ u ∷ ts) = keep (CutTable-refl t) (Cut-drop_last (u ∷ ts))

Cut-without_samples : (ts : List TableMeta) → Cut (map without_samples ts) ts
Cut-without_samples [] = stop []
Cut-without_samples (t ∷ ts) =
    keep (record { name = refl; columns = ([], append-nil t.columns) }) (Cut-without_samples ts)

Cut-after : (xs : List TableMeta) {ys zs : List TableMeta} → Cut ys zs → Cut (xs ++ ys) (xs ++ zs)
Cut-after [] c = c
Cut-after (x ∷ xs) c = keep (CutTable-refl x) (Cut-after xs c)

module _ (repr : List Text → Text) (budget : ℕ) where
  pop_columns-CutTable :
      (f : ℕ) (before rest : List TableMeta) (t : TableMeta) (s : Text)
      → CutTable (pop_columns repr budget f before t rest s).0 t
  unfolding pop_columns
  pop_columns-CutTable zero before rest t s = CutTable-refl t
  pop_columns-CutTable (suc f) before rest t s =
      elim (Bool-cases (ltb 1 (length t.columns) && over repr budget s)) [
        | inl b ↦ rw b (
            CutTable-trans _ (pop_column t) t (pop_columns-CutTable f before rest (pop_column t) _)
              (record { name = refl; columns = drop_last-IsPrefix t.columns }))
        | inr b ↦ rw b (CutTable-refl t)
      ]

  pop_tables-Cut :
      (before ts : List TableMeta) (s : Text)
      → Cut (pop_tables repr budget before ts s) (before ++ ts)
  unfolding pop_tables
  pop_tables-Cut before [] s = rw (append-nil before) (Cut-refl before)
  pop_tables-Cut before (t ∷ ts) s =
      let (t', s') = pop_columns repr budget (length t.columns) before t ts s in
      Cut-trans (rw⁻¹ (append_assoc before (t' ∷ []) ts) (pop_tables-Cut (before ++ t' ∷ []) ts s'))
        (Cut-after before
          (keep (pop_columns-CutTable (length t.columns) before ts t s) (Cut-refl ts)))

  -- The state of the loops: the tables are a cut, and the text renders them.
  record Holds (tables ts : List TableMeta) (s : Text) : Type 0 where
    cut : Cut ts tables
    most_tables : ℕ
    most_columns : ℕ
    rendered : s ≡ render repr most_tables most_columns ts

  Holds-later :
      (tables ts ts' : List TableMeta)
      → Cut ts tables
      → Cut ts' ts
      → Holds tables ts' (render repr max_tables max_cols_per_table ts')
  Holds-later tables ts ts' c d = record {
    cut = Cut-trans d c;
    most_tables = max_tables;
    most_columns = max_cols_per_table;
    rendered = refl;
  }

  narrow-Holds :
      (tables : List TableMeta) (f : ℕ) (ts : List TableMeta) (s : Text)
      → Holds tables ts s
      → Holds tables (narrow repr budget f ts s).0 (narrow repr budget f ts s).1
  unfolding narrow
  narrow-Holds tables zero ts s h = h
  narrow-Holds tables (suc f) ts s h =
      if-cases (λ (r : List TableMeta × Text). Holds tables r.0 r.1) _ _ (ts, s)
        (λ b.
          narrow-Holds tables f (pop_tables repr budget [] ts s) _
            (Holds-later tables ts (pop_tables repr budget [] ts s) h.cut (pop_tables-Cut [] ts s)))
        (λ b. h)

  shorten-Holds :
      (tables : List TableMeta) (f : ℕ) (ts : List TableMeta) (s : Text)
      → Holds tables ts s
      → Holds tables (shorten repr budget f ts s).0 (shorten repr budget f ts s).1
  unfolding shorten
  shorten-Holds tables zero ts s h = h
  shorten-Holds tables (suc f) ts s h =
      if-cases (λ (r : List TableMeta × Text). Holds tables r.0 r.1) _ _ (ts, s)
        (λ b.
          shorten-Holds tables f (drop_last ts) _
            (Holds-later tables ts (drop_last ts) h.cut (Cut-drop_last ts)))
        (λ b. h)

-- A text that renders the first tables of a schema, each with its first columns, in a budget.
pub record Fits (repr : List Text → Text) (budget : ℕ) (tables : List TableMeta) (s : Text)
    : Type 0 where
  pub kept : List TableMeta
  pub cut : Cut kept tables
  pub most_tables : ℕ
  pub most_columns : ℕ
  pub rendered : s ≡ render repr most_tables most_columns kept
  pub small : estimate_tokens s ≤ budget

module _ (repr : List Text → Text) (budget : ℕ) (tables : List TableMeta) where
  fitting-Fits :
      (ts : List TableMeta) (s : Text)
      → Holds repr budget tables ts s
      → (fitting repr budget s ≡ []) ⊎ Fits repr budget tables (fitting repr budget s)
  fitting-Fits ts s h = elim (Bool-cases (over repr budget s)) [
    | inl long ↦ inl (rw long refl)
    | inr short ↦ inr (
        rw short (record {
          kept = ts;
          cut = h.cut;
          most_tables = h.most_tables;
          most_columns = h.most_columns;
          rendered = h.rendered;
          small = ground arith;
        }))
  ]

  shortened-Fits :
      (r : List TableMeta × Text)
      → Holds repr budget tables r.0 r.1
      → (shortened repr budget r ≡ []) ⊎ Fits repr budget tables (shortened repr budget r)
  unfolding shortened
  shortened-Fits (ts, s) h = fitting-Fits _ _ (shorten-Holds repr budget tables (length ts) ts s h)

  trim_tables-Fits :
      (slim : List TableMeta) (s : Text)
      → Holds repr budget tables slim s
      → (trim_tables repr budget slim s ≡ [])
        ⊎ Fits repr budget tables (trim_tables repr budget slim s)
  unfolding trim_tables
  trim_tables-Fits slim s h = elim (Bool-cases (over repr budget s)) [
    | inl long ↦ rw long (
        shortened-Fits (narrow repr budget (count_columns slim) slim s)
          (narrow-Holds repr budget tables (count_columns slim) slim s h))
    | inr short ↦ rw short (
        inr (record {
          kept = slim;
          cut = h.cut;
          most_tables = h.most_tables;
          most_columns = h.most_columns;
          rendered = h.rendered;
          small = ground arith;
        }))
  ]

  -- What `_trim_schema` returns is empty, or it renders the first tables of the schema, each with
  -- its first columns, and counts for no more tokens than the budget.
  pub trim_schema-Fits :
      (trim_schema repr tables budget ≡ [])
      ⊎ Fits repr budget tables (trim_schema repr tables budget)
  unfolding trim_schema
  trim_schema-Fits =
      let slim = map without_samples tables in
      if-cases (λ (s : Text). (s ≡ []) ⊎ Fits repr budget tables s) (leb budget 0) []
        (trim_tables repr budget slim (render repr (length slim) 10 slim)) (λ b. inl refl)
        (λ b. trim_tables-Fits slim (render repr (length slim) 10 slim) (record {
          cut = Cut-without_samples tables;
          most_tables = length slim;
          most_columns = 10;
          rendered = refl;
        }))
