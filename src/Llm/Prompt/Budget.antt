-- ===== src/Llm/Prompt/Budget.antt =====
-- The token budget of `build_prompt` in llm/prompt.py.
use insightkit.Prelude.{
  ℕ, ◌≤◌, false, Option, none, some, List, [], ◌∷◌, ◌++◌, ◌≡◌, refl, inl, inr, Text, text, is_empty,
  length-append, ltb, Bool-cases, if-cases, arith,
}
use insightkit.Schema.{SchemaMetadata, TableMeta}
use insightkit.Schema.Render.{render, max_tables, max_cols_per_table}
use insightkit.Llm.Trim.{estimate_tokens, over, fitting, trim_schema}
use insightkit.Llm.Prompt.{
  header, schema_budget, fit_schema, schema_text, with_schema, with_question, or_least,
  build_prompt,
}

short_enough : (m n : ℕ) → ltb m n ≡ false → n ≤ m
short_enough m n h = ground arith

not_over : (n m : ℕ) → n ≤ m → ltb m n ≡ false
not_over n m h = ground arith

with_schema-eq :
    (head part : Text)
    → is_empty part ≡ false
    → with_schema head part ≡ head ++ (text "\n\nDATABASE SCHEMA:\n" ++ part)
with_schema-eq head [] h = absurd (cc)
with_schema-eq head (c ∷ cs) h = refl

module _ (repr : List Text → Text) (budget : ℕ) where
  fitting-le :
      (s : Text)
      → is_empty (fitting repr budget s) ≡ false
      → estimate_tokens (fitting repr budget s) ≤ budget
  fitting-le s = elim (Bool-cases (over repr budget s)) [
    | inl long ↦ rw long (λ h. absurd (cc))
    | inr short ↦ rw short (λ h. ground arith)
  ]

  fit_schema-le :
      (tables : List TableMeta) (whole : Text)
      → is_empty (fit_schema repr budget tables whole) ≡ false
      → estimate_tokens (fit_schema repr budget tables whole) ≤ budget
  unfolding fit_schema
  fit_schema-le tables whole =
      if-cases (λ (s : Text). is_empty s ≡ false → estimate_tokens s ≤ budget) _
        (fitting repr budget (trim_schema repr tables budget)) whole
        (λ b. fitting-le (trim_schema repr tables budget))
        (λ b h. short_enough budget (estimate_tokens whole) (rw h at b))

  -- The schema part of a prompt is empty or within the budget.
  schema_text-le :
      (schema : Option SchemaMetadata)
      → is_empty (schema_text repr budget schema) ≡ false
      → estimate_tokens (schema_text repr budget schema) ≤ budget
  unfolding schema_text
  schema_text-le none h = absurd (cc)
  schema_text-le (some schema) h =
      fit_schema-le schema.tables (render repr max_tables max_cols_per_table schema.tables) h

-- The separators cost less than the reserve.
prompt_fits :
    (head s question : Text) (max_tokens : ℕ)
    → estimate_tokens s ≤ schema_budget max_tokens head question
    → estimate_tokens (with_question (head ++ (text "\n\nDATABASE SCHEMA:\n" ++ s)) question)
      ≤ max_tokens
unfolding schema_budget estimate_tokens
prompt_fits head s question max_tokens h = omega (
  arith,
  length-append {0} (head ++ (text "\n\nDATABASE SCHEMA:\n" ++ s))
      (text "\n\nQUESTION: " ++ question),
  length-append {0} head (text "\n\nDATABASE SCHEMA:\n" ++ s),
)

-- A prompt with a part for the schema is made of the header, that part and the question, and counts
-- for no more tokens than the limit: it is never given up for the least prompt.
pub build_prompt-Fits :
    (repr : List Text → Text) (question : Text) (schema : Option SchemaMetadata)
    (semantic_text : Text) (few_shots : List (Text × Text)) (language : Text) (max_tokens : ℕ)
    → let head = header semantic_text few_shots language in
      let part = schema_text repr (schema_budget max_tokens head question) schema in
      is_empty part ≡ false
      → let head = header semantic_text few_shots language in
        let part = schema_text repr (schema_budget max_tokens head question) schema in
        let prompt =
          build_prompt repr question schema semantic_text few_shots language max_tokens in
        (prompt ≡ with_question (head ++ (text "\n\nDATABASE SCHEMA:\n" ++ part)) question)
        × (estimate_tokens prompt ≤ max_tokens)
unfolding build_prompt or_least
build_prompt-Fits repr question schema semantic_text few_shots language max_tokens h =
    let head = header semantic_text few_shots language in
    let part = schema_text repr (schema_budget max_tokens head question) schema in
    let whole = with_question (head ++ (text "\n\nDATABASE SCHEMA:\n" ++ part)) question in
    let fits : estimate_tokens whole ≤ max_tokens =
      prompt_fits head part question max_tokens
        (schema_text-le repr (schema_budget max_tokens head question) schema h) in
    let same : build_prompt repr question schema semantic_text few_shots language max_tokens
        ≡ whole =
      rw (with_schema-eq head part h, not_over (estimate_tokens whole) max_tokens fits) refl in
    (same, rw same fits)
