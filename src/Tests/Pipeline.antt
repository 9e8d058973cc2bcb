-- ===== src/Tests/Pipeline.antt =====
-- A whole `ask` of pipeline.py on a small outside world.
use insightkit.Prelude.{
  length, text_eq, List, arith, some, ℕ, ◌≡◌, ◌≤◌, ◌+◌, ◌*◌, refl, true, false, [], ◌∷◌, Text, text,
  lower, strip, lstrip_by, rstrip_by, until_space, split_cons, split_on, none, All,
}
use insightkit.Prelude.Dict
use insightkit.Prelude.Result.{Result, ok}
use insightkit.Prelude.Decimal.{show, show_fuel, decimal, decimal_from}
use insightkit.Prelude.Action.{pure, gets, raise, ◌>>=◌}
use insightkit.Json
use insightkit.Json.{Json, str, obj, end, field}
use insightkit.Re.Matcher.{match_at, greedy, reluctant, run}
use insightkit.Re.Scan.{
  search, search_from, sub, sub_from, finditer, finditer_from, find, find_from,
}
use insightkit.Schema.{SchemaMetadata}
use insightkit.Guard.Sql.{
  validate, check_read_only, statements, strip_comments, only_statement, check_statement,
  contains_forbidden, first_word_in, check_forbidden_tables, first_mentioned, mentions, identifiers,
  enforce_row_limit, limit_at, trimmed, append_limit, limit_value,
}
use insightkit.Cache.Store
use insightkit.Llm.Client.{complete, complete_loop}
use insightkit.Llm.SqlGen.{
  parse_sql_plan, plan_from, decoded_plan, plan_of, unfenced, fence_body, from_brace, queries_of,
}
use insightkit.Llm.Router.{complexity_score, pick_model, count_words}
use insightkit.Llm.Intent.{is_analysis_question}
use insightkit.Pipeline.Types.{num, Frame, frame, Config}
use insightkit.Pipeline.Kit.{
  Kit, State, use_meta, scan, end_scan, adopt, save, store, stored, loaded, reading, emit, end_call,
  call_model, execute, refresh_schema, load_or_refresh, known_schema, get_schema,
}
use insightkit.Pipeline.Attempts.{
  guard, decline, after_execute, run_guarded, follow_plan, round, attempts,
}
use insightkit.Pipeline.Finish.{
  explain, emit_chart, report, report_no_data, conclude, record_audit, is_kept, keep_answer,
  set_cached, finalize,
}
use insightkit.Pipeline.Ask.{ask_plain, answer_fresh, answer, read_cache, ask}
use insightkit.Pipeline.Safety.{AllGuarded, IsSafeText, ask-AllGuarded, ask-AllSafe}
use insightkit.Pipeline.AuditTrail.{Audits, ask-Audits}
use insightkit.Pipeline.Sources.Answer.{IsBacked, ask_plain-IsBacked}
use insightkit.Audit.{ok_status}
use insightkit.Pipeline.Types.{
  Cell, AskResult, payload_of, masked, out_cell, json_safe, rows_for_output,
}
use insightkit.Pipeline.Attempts.{Call}
use insightkit.Pipeline.Repeat.{stored_at, ready_at, Repeats, finalize-Repeats}
use insightkit.Eval.{
  GoldenCase, EvalResult, judge, by_keywords, scored, after_ask, run_case, run_cases, run_eval,
}
use insightkit.Eval.Scores.{run_eval_accounts}
use insightkit.Pipeline.Costs.Bounds.{ask_calls}

abbrev pub small_schema : SchemaMetadata
small_schema = record {
  db_key = text "k";
  dialect = text "sqlite";
  tables = [];
  extracted_at = text "2026-01-01";
}

abbrev two_rows : Frame
two_rows = record {
  columns = text "a" ∷ [];
  numeric = text "a" ∷ [];
  rows = ((text "a", num (text "1")) ∷ []) ∷ ((text "a", num (text "2")) ∷ []) ∷ [];
}

abbrev loads : Text → Result Text Json
loads t = ok (obj (field (text "sql") (str (text "select a from t limit 500")) end))

-- The world counts the readings of its clocks.
abbrev pub toy : Kit
toy = record {
  World = ℕ;
  api = λ req w. (ok (text "{}"), w);
  run = λ q w. (frame two_rows, w);
  introspect = λ w. ((text "SELECT table_name" ∷ [], ok small_schema), w);
  monotonic_ms = λ w. (w, w + 1);
  utc_us = λ w. (w, w + 1);
  audit_writable = λ w. (true, w);
  meta_ready = λ w. (true, w);
  isoformat = λ t. text "2026";
  is_mongo = false;
  has_engine = true;
  loads = loads;
  dumps = λ j. text "{}";
  to_str = λ j. text "?";
  repr = λ j. text "?";
  failure_text = λ e. text "LLM request failed";
  sha256 = λ t. t;
  encode = λ p. none;
  decode = λ t. none;
  build_prompt = λ q m. q;
  system_prompt = [];
  final_prompt = λ q rs. q;
  explain_system = [];
  explain_prompt = λ q df. q;
  build_chart = λ df. none;
  reloaded = λ m. m;
}

abbrev pub config : Config
config = record {
  model = text "big";
  fast_model = none;
  max_retries = 2;
  row_limit = 10;
  forbidden_tables = text "users" ∷ [];
  relevant_tables = 8;
  ttl_s = 60;
  indonesian = false;
}

abbrev begin : State toy
begin = record {
  world = 0;
  schema = none;
  schema_version = text "0";
  stored_schema = none;
  cache = [];
  audit = [];
  calls = 0;
  executed = [];
  scanned = [];
  events = [];
}

abbrev question : Text
question = text "how many a"

abbrev finished : State toy
finished = (ask toy config question (text "ana") (text "analyst") true none begin).1

program : Unit {0}
unfolding ask read_cache answer answer_fresh ask_plain get_schema known_schema load_or_refresh
    refresh_schema reading emit end_call call_model execute guard decline after_execute run_guarded
    follow_plan round attempts explain emit_chart report report_no_data conclude record_audit
    is_kept keep_answer set_cached use_meta scan end_scan adopt save store stored loaded finalize
    complete complete_loop parse_sql_plan plan_from decoded_plan plan_of unfenced fence_body
    from_brace queries_of complexity_score pick_model count_words is_analysis_question Store.get
    Store.read_row Dict.get Json.get pure gets raise ◌>>=◌ validate check_read_only statements
    strip_comments only_statement check_statement contains_forbidden first_word_in
    check_forbidden_tables first_mentioned mentions identifiers enforce_row_limit limit_at trimmed
    append_limit limit_value search search_from sub sub_from finditer finditer_from find find_from
    match_at greedy reluctant run lower strip lstrip_by rstrip_by until_space split_cons split_on
    show show_fuel decimal decimal_from Store.is_cacheable masked out_cell json_safe rows_for_output
program = tt

sent : finished.executed ≡ text "select a from t LIMIT 10" ∷ []
unfolding program
sent = refl

ask-AllGuarded_example : AllGuarded toy config finished
ask-AllGuarded_example =
    ask-AllGuarded toy config question (text "ana") (text "analyst") true none begin tt

ask-AllSafe_example : All (IsSafeText toy config) finished.executed
ask-AllSafe_example =
    ask-AllSafe toy config refl question (text "ana") (text "analyst") true none begin refl

ask-Audits_example :
    Audits toy config
      (text "ana")
      (text "analyst")
      (ask toy config question (text "ana") (text "analyst") true none)
ask-Audits_example =
    ask-Audits toy config (λ w. refl) question (text "ana") (text "analyst") true none

ask_calls_example : finished.calls ≤ begin.calls + 4 * (config.max_retries + 1)
ask_calls_example = ask_calls toy config question (text "ana") (text "analyst") true none begin

abbrev call : Call
call = record {
  question = question;
  user = text "ana";
  role = text "analyst";
  key = text "k";
  model = text "big";
  streaming = true;
  started = 0;
}

abbrev plain_answer : AskResult
plain_answer = record {
  question = question;
  sql = text "select a from t LIMIT 10";
  reasoning = [];
  insight = text "{}";
  chart = none;
  row_count = 2;
  latency_ms = 0;
  tokens = 2;
  model = text "big";
  status = ok_status;
  error = none;
  cached = false;
  attempts = 1;
  rows =
      some (((text "a", Cell.num (text "1")) ∷ []) ∷ ((text "a", Cell.num (text "2")) ∷ []) ∷ []);
}

abbrev plain_end : State toy
plain_end = (ask_plain toy config call small_schema begin).1

answers : ask_plain toy config call small_schema begin ≡ (ok plain_answer, plain_end)
unfolding program
answers = refl

ask_plain-IsBacked_example : IsBacked toy plain_answer plain_end.executed
ask_plain-IsBacked_example =
    ask_plain-IsBacked toy config call small_schema begin plain_end plain_answer answers refl

-- The same world with an encoding that keeps the answer.
abbrev keeping : Kit
keeping = record toy {
  encode = λ p. some (text "kept");
  decode = λ t. some (payload_of plain_answer);
}

abbrev asked : State keeping
asked = record {
  world = 3;
  schema = none;
  schema_version = text "0";
  stored_schema = none;
  cache = [];
  audit = [];
  calls = 0;
  executed = [];
  scanned = [];
  events = [];
}

is_stable : is_kept keeping config call plain_answer ≡ true
unfolding program
is_stable = refl

in_time : 9 ≤ stored_at keeping config call plain_answer asked + config.ttl_s * 1_000_000
unfolding program
in_time = omega arith

always_ready : ready_at keeping config call plain_answer asked ≡ true
always_ready = refl

finalize-Repeats_example :
    (again : AskResult) × ((answer keeping config call small_schema
        (Store.get keeping.encode keeping.decode 9 call.key
          (finalize keeping config call plain_answer asked).1.cache)
        asked).0
      ≡ ok again)
    × Repeats keeping config call plain_answer again
finalize-Repeats_example =
    finalize-Repeats keeping config call plain_answer asked (text "kept") 9 small_schema asked
      is_stable refl refl always_ready in_time

abbrev golden : List GoldenCase
golden = record { question = question; sql_expected = none; result_keywords = [] } ∷ []

abbrev all_good : EvalResult
all_good = record { total = 1; correct = 1; failures = [] }

abbrev eval_end : State toy
eval_end =
    (run_eval (λ n. n) (λ v. text "?") text_eq (λ a b. false) (λ df. true) toy config golden
      begin).1

evaluated :
    run_eval (λ n. n) (λ v. text "?") text_eq (λ a b. false) (λ df. true) toy config golden begin
    ≡ (ok all_good, eval_end)
unfolding program run_eval run_cases run_case after_ask judge by_keywords scored
evaluated = refl

run_eval_accounts_example : (all_good.total ≡ length golden) × (1 + 0 ≡ length golden)
run_eval_accounts_example =
    run_eval_accounts (λ n. n) (λ v. text "?") text_eq (λ a b. false) (λ df. true) toy config golden
      begin eval_end all_good evaluated
