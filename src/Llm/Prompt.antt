-- ===== src/Llm/Prompt.antt =====
-- The prompts of llm/prompt.py and their token budget.
pub mod Budget
use insightkit.Prelude.{
  ℕ, zero, suc, ◌+◌, ◌-◌, ◌*◌, ◌/◌, max, Bool, true, false, not, ◌&&◌, Option, none, some, List, [],
  ◌∷◌, ◌++◌, Text, text, text_eq, if◌then◌else◌, is_empty, map, take, length, ltb, leb, any,
}
use insightkit.Prelude.Decimal.{show}
use insightkit.Schema.{TableMeta, SchemaMetadata}
use insightkit.Llm.Trim.{estimate_tokens, over, fitting, trim_schema}
use insightkit.Schema.Render.{join, render, max_tables, max_cols_per_table}

-- `SYSTEM_PROMPT`
abbrev pub system_prompt : Text
system_prompt =
    text
      "You are InsightKit, a data analyst. Write read-only SQL from the schema.\nReturn one JSON object only, no fences or extra text: {\"sql\": \"<SELECT/WITH or empty>\",\n\"reasoning\": \"<short>\", \"needs_data\": bool, \"queries\": [...] optional}.\nUse only schema tables/columns, never invent names. SQL must be SELECT or WITH...SELECT.\nNever DROP/DELETE/UPDATE/INSERT/ALTER/TRUNCATE/GRANT. Respect row limit, add LIMIT.\nAdvice questions: do not use general knowledge. Return 2-4 independent read-only queries\nin \"queries\" with sql \"\" and needs_data true. Non-data questions: answer in \"reasoning\"\nwith sql \"\" and needs_data false. Use provided metric definitions verbatim.\nPrefer aggregations over raw rows."

-- `MONGO_SYSTEM_PROMPT`
abbrev pub mongo_system_prompt : Text
mongo_system_prompt =
    text
      "You are InsightKit, a data analyst. Write MongoDB aggregation pipelines.\nReturn one JSON object only, no fences or extra text: {\"sql\": \"<{collection,pipeline} string>\",\n\"reasoning\": \"<short>\", \"needs_data\": bool, \"queries\": [...] optional}.\nUse only schema collections/fields, never invent names. Read-only: never $out/$merge/$delete.\nPipeline must be valid JSON. Advice questions: do not use general knowledge. Return 2-4\nindependent pipelines in \"queries\". Non-data questions: answer in \"reasoning\" with sql \"\"\nand needs_data false. Prefer $match/$group/$sort/$limit over dumps."

-- `system_prompt_for`
unfoldable pub system_prompt_for : Text → Text
system_prompt_for dialect =
    if text_eq dialect (text "mongodb") then mongo_system_prompt else system_prompt

-- `_LANG_HINTS.get(language, _LANG_HINTS["en"])`
unfoldable pub lang_hint : Text → Text
lang_hint language =
    if text_eq language (text "id")
    then text "Answer in Bahasa Indonesia."
    else text "Answer in English."

abbrev pub few_shots_shown : ℕ
few_shots_shown = 3

unfoldable pub shot : Text × Text → Text
shot (q, s) = text "Q: " ++ (q ++ (text "\nSQL: " ++ s))

-- The list `extras`
abbrev pub metric_lines : Text → List Text
metric_lines [] = []
metric_lines (c ∷ cs) = (text "METRIC DEFINITIONS:\n" ++ c ∷ cs) ∷ []

abbrev pub shot_lines : List (Text × Text) → List Text
shot_lines [] = []
shot_lines (s ∷ ss) =
    (text "EXAMPLE QUERIES:\n" ++ join (text "\n") (map shot (take few_shots_shown (s ∷ ss)))) ∷ []

-- `header`, without the schema
unfoldable pub header : Text → List (Text × Text) → Text → Text
header semantic_text few_shots language =
    join (text "\n\n")
      (system_prompt ∷ lang_hint language ∷ (metric_lines semantic_text ++ shot_lines few_shots))

-- `max(budget, 0)`: what a negative budget refuses, a budget of 0 refuses too, since no text
-- counts for less than one token.
unfoldable pub schema_budget : ℕ → Text → Text → ℕ
schema_budget max_tokens head question =
    max_tokens - estimate_tokens head - estimate_tokens question - 100

-- A trimmed text that is still too long is left out.
unfoldable pub fit_schema : (List Text → Text) → ℕ → List TableMeta → Text → Text
fit_schema repr budget tables whole =
    if not (is_empty whole) && over repr budget whole
    then fitting repr budget (trim_schema repr tables budget)
    else whole

-- `schema_text`
unfoldable pub schema_text : (List Text → Text) → ℕ → Option SchemaMetadata → Text
schema_text repr budget none = []
schema_text repr budget (some schema) =
    fit_schema repr budget schema.tables (render repr max_tables max_cols_per_table schema.tables)

-- `if schema_text:`
abbrev pub with_schema : Text → Text → Text
with_schema head [] = head
with_schema head (c ∷ cs) = head ++ (text "\n\nDATABASE SCHEMA:\n" ++ c ∷ cs)

abbrev pub with_question : Text → Text → Text
with_question head question = head ++ (text "\n\nQUESTION: " ++ question)

-- The prompt that is left when nothing else fits.
abbrev pub least_prompt : Text → Text → Text
least_prompt language question =
    with_question (system_prompt ++ (text "\n\n" ++ lang_hint language)) question

-- The end of `build_prompt`
unfoldable pub or_least : ℕ → Text → Text → Text
or_least max_tokens prompt least = if ltb max_tokens (estimate_tokens prompt) then least else prompt

-- `build_prompt`
unfoldable pub build_prompt :
    (List Text → Text) → Text → Option SchemaMetadata → Text → List (Text × Text) → Text → ℕ → Text
build_prompt repr question schema semantic_text few_shots language max_tokens =
    let head = header semantic_text few_shots language in
    let part = schema_text repr (schema_budget max_tokens head question) schema in
    or_least max_tokens (with_question (with_schema head part) question)
      (least_prompt language question)

-- `_FINAL_PROMPTS`
abbrev pub final_prompt_en : Text
final_prompt_en =
    text
      "You are a data analyst. Based ONLY on the query results below, write:\n1) \"insight\": a concise factual summary of what the data shows (numbers from the results).\n2) \"recommendations\": a list of 3-5 concrete, data-driven recommendations.\nNever invent numbers that are not in the results. Respond with a single JSON object:\n{\"insight\": \"...\", \"recommendations\": [\"...\", \"...\"]}"

abbrev pub final_prompt_id : Text
final_prompt_id =
    text
      "Kamu seorang analis data. Berdasarkan HANYA hasil query di bawah, tulis:\n1) \"insight\": ringkasan faktual singkat tentang apa yang ditunjukkan data (angka dari hasil query).\n2) \"recommendations\": daftar 3-5 rekomendasi konkret berbasis data.\nJangan pernah mengarang angka yang tidak ada di hasil. Jawab dengan SATU objek JSON:\n{\"insight\": \"...\", \"recommendations\": [\"...\", \"...\"]}"

-- The lines of the results: each query with its rows, as they print, and its number.
unfoldable pub result_lines : ℕ → List (Text × Text) → List Text
result_lines i [] = []
result_lines i ((query, rows) ∷ rs) =
    (text "QUERY " ++ (show i ++ (text ": " ++ query)))
    ∷ (text "RESULT " ++ (show i ++ (text ": " ++ rows)))
    ∷ result_lines (i + 1) rs

-- `build_final_prompt`
unfoldable pub build_final_prompt : Text → List (Text × Text) → Text → Text
build_final_prompt question results language =
    (if text_eq language (text "id") then final_prompt_id else final_prompt_en)
    ++ (text "\n\n"
        ++ join (text "\n") ((text "QUESTION: " ++ question) ∷ [] ∷ result_lines 1 results))
