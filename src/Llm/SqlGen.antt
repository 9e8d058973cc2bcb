-- ===== src/Llm/SqlGen.antt =====
-- llm/sqlgen.py: the plan in a model's answer. `json.loads` and `str` on a JSON value are
-- parameters: all that is proved holds for any of them.
use insightkit.Prelude.{
  ℕ, ◌-◌, Bool, true, false, ◌&&◌, Option, none, some, List, [], ◌∷◌, ◌++◌, Text, text, ◌==◌,
  if◌then◌else◌, is_empty, is_space, strip, starts_with, drop, take, length,
}
use insightkit.Prelude.Result.{Result, ok, err}
use insightkit.Json.{Json, bool, str, arr, obj, Items, nil, cons, get}
use insightkit.Re.Syntax.{Regex, seq, lazy, many, literal, optional}
use insightkit.Re.Scan.{find}

pub record SqlPlan : Type 0 where
  pub sql : Text
  pub reasoning : Text
  pub needs_data : Bool
  pub queries : Option (List Text)

pub data SqlGenError : Type 0 where
  invalid_json : Text → SqlGenError
  not_an_object missing_sql : SqlGenError

unfoldable pub message : SqlGenError → Text
message (invalid_json e) = text "Invalid JSON from LLM: " ++ e
message not_an_object = text "LLM response JSON must be an object"
message missing_sql = text "LLM response missing 'sql' field"

abbrev pub fence : Text
fence = text "```"

-- "```(?:json)?\s*(.*?)```", where the dot takes newlines too
abbrev pub fence_re : Regex
fence_re = seq (literal fence) (
    seq (optional (literal (text "json")))
      (seq (many is_space) (seq (lazy (λ c. true)) (literal fence))))

-- `match.group(1).strip()`: what stands between the fences, without `json` and outer spaces.
unfoldable pub fence_body : Text → Text
fence_body group =
    let inner = drop 3 (take (length group - 3) group) in
    strip (if starts_with inner (text "json") then drop 4 inner else inner)

unfoldable pub unfenced : Text → Text
unfenced raw = elim (find fence_re (strip raw)) [ some m ↦ fence_body m.group | none ↦ strip raw ]

-- `text[text.find("{"):]`, or nothing without a brace.
unfoldable pub from_brace : Text → Option Text
from_brace [] = none
from_brace (x ∷ xs) = let rest = from_brace xs in if x == b'{' then some (x ∷ xs) else rest

-- `[q.strip() for q in raw_queries if isinstance(q, str) and q.strip()]`
unfoldable pub clean_queries : Items → List Text
clean_queries nil = []
clean_queries (cons (str q) qs) =
    let rest = clean_queries qs in if is_empty (strip q) then rest else strip q ∷ rest
clean_queries (cons _ qs) = clean_queries qs

abbrev pub max_analysis_queries : ℕ
max_analysis_queries = 4

-- `cleaned[:4] or None`
abbrev pub some_nonempty : List Text → Option (List Text)
some_nonempty [] = none
some_nonempty (q ∷ qs) = some (q ∷ qs)

unfoldable pub queries_of : Option Json → Option (List Text)
queries_of (some (arr qs)) = some_nonempty (take max_analysis_queries (clean_queries qs))
queries_of _ = none

abbrev pub sql_of : Option Json → Text
sql_of (some (str s)) = strip s
sql_of _ = []

abbrev pub needs_data_of : Option Json → Bool
needs_data_of (some (bool b)) = b
needs_data_of _ = true

abbrev pub is_none {ℓ} : {A : Type ℓ} → Option A → Bool
is_none none = true
is_none (some a) = false

module _ (to_str : Json → Text) where
  abbrev pub reasoning_of : Option Json → Text
  reasoning_of none = []
  reasoning_of (some (str s)) = strip s
  reasoning_of (some j) = to_str j

  unfoldable pub plan_of : Json → Result SqlGenError SqlPlan
  plan_of (obj fs) =
      let sql = sql_of (get (text "sql") fs) in
      let needs_data = needs_data_of (get (text "needs_data") fs) in
      let queries = queries_of (get (text "queries") fs) in
      if needs_data && (is_empty sql && is_none queries)
      then err missing_sql
      else ok (record {
        sql = sql;
        reasoning = reasoning_of (get (text "reasoning") fs);
        needs_data = needs_data;
        queries = queries;
      })
  plan_of _ = err not_an_object

  -- `json.loads(text)` and what follows it
  unfoldable pub decoded_plan : Result Text Json → Result SqlGenError SqlPlan
  decoded_plan (err e) = err (invalid_json e)
  decoded_plan (ok j) = plan_of j

  module _ (loads : Text → Result Text Json) where
    -- `prose` is the text without fences; the other argument is its part from the first brace.
    unfoldable pub plan_from : Text → Option Text → Result SqlGenError SqlPlan
    plan_from prose none =
        ok (record { sql = []; reasoning = prose; needs_data = false; queries = none })
    plan_from prose (some body) = decoded_plan (loads body)

    unfoldable pub parse_sql_plan : Text → Result SqlGenError SqlPlan
    parse_sql_plan raw = plan_from (unfenced raw) (from_brace (unfenced raw))
