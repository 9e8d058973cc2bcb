-- ===== src/Pipeline/Analysis.antt =====
-- `_ask_analysis` of pipeline.py: several queries, then an insight with recommendations.
use insightkit.Prelude.{
  ℕ, zero, suc, ◌+◌, ◌/◌, true, ◌&&◌, Option, none, some, List, [], ◌∷◌, ◌++◌, Text, text, leb,
  if◌then◌else◌, is_empty, strip, length, take,
}
use insightkit.Prelude.Result.{Result, ok, err}
use insightkit.Prelude.Decimal.{show}
use insightkit.Prelude.Action.{pure, raise, ◌>>=◌, ◌>>◌}
use insightkit.Json
use insightkit.Json.{Json, Items, nil, cons, Fields, obj, arr}
use insightkit.Schema.{SchemaMetadata}
use insightkit.Audit.{ok_status, no_data_status, error_status}
use insightkit.Guard.Sql
use insightkit.Guard.Sql.{GuardError}
use insightkit.Llm.SqlGen
use insightkit.Llm.SqlGen.{SqlPlan, SqlGenError, parse_sql_plan, unfenced, from_brace}
use insightkit.Llm.Tables.{relevant_tables}
use insightkit.Pipeline.Types.{
  Frame, AskResult, Event, Config, Outcome, frame, table_not_found, db_error, crash, Request,
  crashed, rows_for_output, new_result,
}
use insightkit.Pipeline.Kit.{Kit, QueryResult, M, emit, call_model, execute}
use insightkit.Pipeline.Attempts.{Call, guard, max_attempts, or_default, repair_of}
use insightkit.Pipeline.Finish.{finalize}

pub record Progress : Type 0 where
  pub result : AskResult
  pub last_error : Option Text
  pub previous_raw : Option Text
  pub frames : List QueryResult

-- A round ends the loop with frames, ends it with an answer in prose, or goes on.
pub data Turn : Type 0 where
  again : Progress → Turn
  found : Progress → Turn
  prose : AskResult → Turn

abbrev pub query_list : Option (List Text) → List Text
query_list none = []
query_list (some qs) = qs

module _ (kit : Kit) (cfg : Config) (c : Call) where
  abbrev pub failed_query : Text → Text
  failed_query error = text "Query gagal: " ++ error

  -- The frames so far, or the error that ended the batch.
  abbrev pub Batch : Type 0
  Batch = Result Text (List QueryResult)

  abbrev pub gathered : Text → Frame → QueryResult
  gathered q df = record { query = q; columns = df.columns; rows = take 20 (rows_for_output df) }

  unfoldable pub use_outcome :
      Text → (List QueryResult → M kit Batch) → List QueryResult → Outcome → M kit Batch
  use_outcome q rest frames (frame df) = rest (frames ++ gathered q df ∷ [])
  use_outcome q rest frames (table_not_found e) = pure (err (failed_query e))
  use_outcome q rest frames (db_error e) = pure (err (failed_query e))
  use_outcome q rest frames (crash e) = raise (crashed e)

  unfoldable pub run_one :
      Text
      → (List QueryResult → M kit Batch)
      → List QueryResult
      → Result GuardError Text
      → M kit Batch
  run_one q rest frames (err e) = pure (err (failed_query (Sql.message e)))
  run_one q rest frames (ok sql) = execute kit sql >>= use_outcome q rest frames

  -- `for q in plan.queries[:4]`: each is checked and run; the first failure ends the batch.
  unfoldable pub run_queries : List Text → List QueryResult → M kit Batch
  run_queries [] frames = pure (ok frames)
  run_queries (q ∷ qs) frames = run_one q (run_queries qs) frames (guard kit cfg q)

  abbrev pub nudge : ℕ → Progress → Text → M kit Turn
  nudge attempt p error = do
    emit kit c.streaming (Event.retry attempt error)
    pure (again (record p { last_error = some error }))

  -- `if all_ok and frames: break`
  unfoldable pub after_batch : ℕ → Progress → Batch → M kit Turn
  after_batch attempt p (err error) = nudge attempt (record p { frames = [] }) error
  after_batch attempt p (ok []) = pure (again (record p { frames = [] }))
  after_batch attempt p (ok (f ∷ fs)) = pure (found (record p { frames = f ∷ fs }))

  unfoldable pub without_queries : ℕ → Progress → SqlPlan → M kit Turn
  without_queries attempt p plan =
      if leb 60 (length (strip plan.reasoning))
      then (do
        let r = record (p.result) {
          status = no_data_status;
          insight = strip plan.reasoning;
          reasoning = plan.reasoning;
        }
        emit kit c.streaming (Event.insight r.insight)
        pure (prose r))
      else nudge attempt p (text "No analytical queries in response")

  unfoldable pub follow_analysis : ℕ → Progress → Result SqlGenError SqlPlan → M kit Turn
  follow_analysis attempt p (err e) =
      nudge attempt p (text "Invalid response from model: " ++ SqlGen.message e)
  follow_analysis attempt p (ok plan) =
      if is_empty (query_list plan.queries)
      then without_queries attempt p plan
      else (run_queries (take 4 (query_list plan.queries)) [] >>= after_batch attempt p)

  abbrev pub analysis_request : SchemaMetadata → Progress → Request
  analysis_request schema p = record {
    system = kit.system_prompt;
    user = kit.build_prompt c.question (relevant_tables schema c.question cfg.relevant_tables);
    repair =
        repair_of p.previous_raw p.last_error (text "Analysis failed: ")
          (text ". Return a corrected JSON object with a valid \"queries\" list (read-only SQL).");
    json_mode = true;
    model = c.model;
    max_tokens = 2000;
  }

  unfoldable pub analysis_round : SchemaMetadata → ℕ → Progress → M kit Turn
  analysis_round schema attempt p =
      call_model kit cfg.max_retries (analysis_request schema p) >>= λ raw.
      follow_analysis attempt
        (record p {
          result = record (p.result) {
            attempts = attempt;
            tokens = p.result.tokens + length raw / 4;
          };
          previous_raw = some raw;
        })
        (parse_sql_plan kit.to_str kit.loads raw)

  abbrev pub analysis_failed : AskResult → Text → AskResult
  analysis_failed r error = record r { status = error_status; error = some error }

  -- `[str(r).strip() for r in recs if str(r).strip()]`
  unfoldable pub recommendations : Items → List Text
  recommendations nil = []
  recommendations (cons j js) =
      let r = strip (kit.to_str j) in
      let rest = recommendations js in if is_empty r then rest else r ∷ rest

  abbrev pub recs_of : Option Json → List Text
  recs_of (some (arr js)) = recommendations js
  recs_of _ = []

  abbrev pub insight_of : Option Json → Text
  insight_of none = []
  insight_of (some j) = strip (kit.to_str j)

  -- `_parse_analysis_answer`; a JSON text from a brace on is an object.
  unfoldable pub answer_of : Text → Result Text Json → Text × List Text
  answer_of whole (ok (obj fs)) =
      (insight_of (Json.get (text "insight") fs), recs_of (Json.get (text "recommendations") fs))
  answer_of whole _ = (whole, [])

  unfoldable pub answer_from : Text → Option Text → Text × List Text
  answer_from whole none = (whole, [])
  answer_from whole (some body) = answer_of whole (kit.loads body)

  unfoldable pub parse_analysis_answer : Text → Text × List Text
  parse_analysis_answer raw = answer_from (unfenced raw) (from_brace (unfenced raw))

  abbrev pub with_newline : Text → Text
  with_newline [] = []
  with_newline (x ∷ xs) = 10 ∷ x ∷ xs

  -- `"\n".join(f"{i}. {r}" for i, r in enumerate(recs, 1))`, with a newline before it
  unfoldable pub numbered : ℕ → List Text → Text
  numbered i [] = []
  numbered i (r ∷ rs) = 10 ∷ (show i ++ (text ". " ++ (r ++ numbered (i + 1) rs)))

  unfoldable pub rec_text : List Text → Text
  rec_text [] = []
  rec_text (r ∷ rs) =
      text "\n\n"
      ++ ((if cfg.indonesian then text "Rekomendasi:" else text "Recommendations:")
          ++ numbered 1 (r ∷ rs))

  abbrev pub final_request : List QueryResult → Request
  final_request frames = record {
    system = text "You produce JSON.";
    user = kit.final_prompt c.question frames;
    repair = none;
    json_mode = true;
    model = c.model;
    max_tokens = 1200;
  }

  -- Phase 3, from the final answer of the model.
  unfoldable pub conclude_analysis : AskResult → Text × List Text → M kit AskResult
  conclude_analysis r (insight, recs) =
      if is_empty insight && is_empty recs
      then finalize kit cfg c (analysis_failed r (text "Analisis gagal: respon akhir tidak valid"))
      else (do
        let r' = record r { insight = strip (insight ++ rec_text recs); status = ok_status }
        emit kit c.streaming (Event.insight r'.insight)
        finalize kit cfg c r')

  unfoldable pub report_analysis : Progress → M kit AskResult
  report_analysis p = call_model kit cfg.max_retries (final_request p.frames) >>= λ raw.
      conclude_analysis (record (p.result) { sql = []; tokens = p.result.tokens + length raw / 4 })
        (parse_analysis_answer raw)

  unfoldable pub analysis_attempts : SchemaMetadata → ℕ → ℕ → Progress → M kit AskResult
  analysis_attempts schema zero n p =
      finalize kit cfg c
        (analysis_failed p.result (or_default p.last_error (text "Analysis queries failed")))
  analysis_attempts schema (suc left) n p = analysis_round schema n p >>= λ turn. elim turn [
    | again q ↦ analysis_attempts schema left (n + 1) q
    | found q ↦ report_analysis q
    | prose r ↦ finalize kit cfg c r
  ]

  unfoldable pub ask_analysis : SchemaMetadata → M kit AskResult
  ask_analysis schema = do
    emit kit c.streaming (Event.plan c.model (length schema.tables) true)
    analysis_attempts schema max_attempts 1 (record {
      result = new_result c.question c.model;
      last_error = none;
      previous_raw = none;
      frames = [];
    })
