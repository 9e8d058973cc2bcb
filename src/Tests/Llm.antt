-- ===== src/Tests/Llm.antt =====
-- llm/client.py and llm/sqlgen.py at concrete inputs.
use insightkit.Prelude.{
  ℕ, ◌≡◌, ◌≤◌, ◌↔◌, refl, true, [], ◌∷◌, Text, text, strip, lstrip_by, rstrip_by, none, zero, suc,
}
use insightkit.Prelude.Result.{Result, ok, err}
use insightkit.Json.{Json, str, obj, end, field, get}
use insightkit.Re.Matcher.{match_at, greedy, reluctant, run}
use insightkit.Re.Scan.{find, find_from}
use insightkit.Llm.Client.{ApiError, timed_out, api_status, Line, complete, complete_loop}
use insightkit.Llm.Retries.{Answers, complete_succeeds_iff}
use insightkit.Llm.SqlGen.{
  SqlPlan, parse_sql_plan, plan_from, decoded_plan, plan_of, unfenced, fence_body, from_brace,
  queries_of,
}

-- An API that times out twice and then answers.
abbrev flaky : ℕ → Result ApiError Text × ℕ
flaky zero = (ok (text "hi"), zero)
flaky (suc n) = (err timed_out, n)

abbrev line : Line ℕ
line = record { world = 2; calls = 0; sleeps = [] }

third_answers :
    complete flaky 2 line ≡ (ok (text "hi"), record { world = 0; calls = 3; sleeps = 1 ∷ 2 ∷ [] })
unfolding complete complete_loop
third_answers = refl

complete_succeeds_iff_example :
    ((complete flaky 2 line).0 ≡ ok (text "hi"))
    ↔ ((k : ℕ) × (k ≤ 2) × Answers flaky k line.world (text "hi"))
complete_succeeds_iff_example = complete_succeeds_iff flaky 2 line (text "hi")

abbrev limited : ℕ → Result ApiError Text × ℕ
limited n = (err (api_status 429), n)

abbrev loads : Text → Result Text Json
loads t = ok (obj (field (text "sql") (str (text "select 1 ")) end))

abbrev to_str : Json → Text
to_str j = text "?"

abbrev plan : SqlPlan
plan = record { sql = text "select 1"; reasoning = []; needs_data = true; queries = none }

parsed : parse_sql_plan to_str loads (text "```json\n{\"sql\": 1}\n```") ≡ ok plan
unfolding parse_sql_plan plan_from decoded_plan plan_of unfenced fence_body from_brace queries_of
    find find_from match_at greedy reluctant run strip lstrip_by rstrip_by get
parsed = refl
