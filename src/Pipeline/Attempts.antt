-- ===== src/Pipeline/Attempts.antt =====
-- The loop of `InsightKit.ask` in pipeline.py: generate, check, execute, and try again.
use insightkit.Prelude.{
  ℕ, zero, suc, ◌+◌, ◌/◌, Bool, true, not, ◌||◌, Option, none, some, [], ◌∷◌, ◌++◌, Text, text, leb,
  if◌then◌else◌, is_empty, strip, length,
}
use insightkit.Prelude.Result.{Result, ok, err}
use insightkit.Prelude.Action.{pure, raise, ◌>>=◌, ◌>>◌}
use insightkit.Schema.{SchemaMetadata}
use insightkit.Audit.{no_data_status, error_status}
use insightkit.Guard.Sql.{GuardError, validate}
use insightkit.Guard.Sql
use insightkit.Guard.Mongo.{validate_mongo}
use insightkit.Llm.SqlGen
use insightkit.Llm.SqlGen.{SqlPlan, SqlGenError, parse_sql_plan}
use insightkit.Llm.Tables.{relevant_tables}
use insightkit.Pipeline.Types.{
  Frame, AskResult, Event, Config, Outcome, frame, table_not_found, db_error, crash, Request,
  crashed,
}
use insightkit.Pipeline.Kit.{Kit, M, emit, call_model, execute, refresh_schema}

abbrev pub max_attempts : ℕ
max_attempts = 3

-- The variables of the loop.
pub record Vars : Type 0 where
  pub result : AskResult
  pub schema : SchemaMetadata
  pub last_error : Option Text
  pub previous_raw : Option Text
  pub df : Option Frame
  pub tokens : ℕ
  pub declines : ℕ

-- How a round of the loop ends: `continue` (or the end of the body), or `break`.
pub data Flow : Type 0 where
  continue' : Vars → Flow
  break' : Vars → Flow

-- `x or default`
abbrev pub or_default : Option Text → Text → Text
or_default none d = d
or_default (some []) d = d
or_default (some (c ∷ cs)) d = c ∷ cs

-- `if previous_raw and last_error`
abbrev pub repair_of : Option Text → Option Text → Text → Text → Option (Text × Text)
repair_of (some (r ∷ raw)) (some (e ∷ error)) before after =
    some (r ∷ raw, before ++ ((e ∷ error) ++ after))
repair_of _ _ before after = none

-- `s[:n] if s else None`, and so on
abbrev pub unless_empty : Text → Text → Option Text
unless_empty [] t = none
unless_empty (c ∷ cs) t = some t

-- What one `ask` is about.
pub record Call : Type 0 where
  pub question : Text
  pub user : Text
  pub role : Text
  pub key : Text
  pub model : Text
  pub streaming : Bool
  pub started : ℕ

module _ (kit : Kit) (cfg : Config) where
  -- The check before every query: `validate_mongo` or `validate`.
  unfoldable pub guard : Text → Result GuardError Text
  guard sql =
      if kit.is_mongo
      then validate_mongo kit.repr kit.loads kit.dumps sql cfg.row_limit
      else validate sql cfg.row_limit cfg.forbidden_tables

  module _ (c : Call) where
    abbrev pub retry : ℕ → Vars → Text → M kit Flow
    retry attempt v error = do
      emit kit c.streaming (Event.retry attempt error)
      pure (continue' (record v { last_error = some error }))

    abbrev pub no_answer : Text
    no_answer =
        if cfg.indonesian
        then text "Pertanyaan ini tidak dapat dijawab dengan skema data yang tersedia."
        else text "This question cannot be answered with the available data schema."

    abbrev pub answered : Vars → Text → Vars
    answered v insight = record v {
      result = record (v.result) { status = no_data_status; insight = insight };
    }

    abbrev pub asking_again : Text
    asking_again = text "Model belum memberikan jawaban — mencoba ulang"

    -- The plan needs no data, or has no SQL.
    unfoldable pub decline : ℕ → Vars → SqlPlan → M kit Flow
    decline attempt v plan =
        let v' = record v { declines = v.declines + 1 } in
        if leb 60 (length (strip plan.reasoning))
        then pure (break' (answered v' (strip plan.reasoning)))
        else do
          emit kit c.streaming (Event.retry attempt asking_again)
          let w = record v' { last_error = some asking_again }
          if leb 2 w.declines then pure (break' (answered w no_answer)) else pure (continue' w)

    -- After the query was sent.
    unfoldable pub after_execute : ℕ → Vars → Outcome → M kit Flow
    after_execute attempt v (frame df) = pure (break' (record v { df = some df }))
    after_execute attempt v (table_not_found error) = do
      emit kit c.streaming (Event.schema_refresh error)
      meta ← refresh_schema kit
      pure (continue' (record v { last_error = some error; schema = meta }))
    after_execute attempt v (db_error error) = retry attempt v error
    after_execute attempt v (crash error) = raise (crashed error)

    unfoldable pub run_guarded : ℕ → Vars → Result GuardError Text → M kit Flow
    run_guarded attempt v (err e) = retry attempt v (Sql.message e)
    run_guarded attempt v (ok sql) = do
      emit kit c.streaming (Event.sql sql)
      outcome ← execute kit sql
      after_execute attempt (record v { result = record (v.result) { sql = sql } }) outcome

    unfoldable pub follow_plan : ℕ → Vars → Result SqlGenError SqlPlan → M kit Flow
    follow_plan attempt v (err e) =
        retry attempt v (text "Invalid response from model: " ++ SqlGen.message e)
    follow_plan attempt v (ok plan) =
        let v' = record v { result = record (v.result) { reasoning = plan.reasoning } } in
        if not plan.needs_data || is_empty (strip plan.sql)
        then decline attempt v' plan
        else run_guarded attempt v' (guard plan.sql)

    abbrev pub request : Vars → Text → Request
    request v prompt = record {
      system = kit.system_prompt;
      user = prompt;
      repair =
          repair_of v.previous_raw v.last_error (text "The SQL above failed: ")
            (text ". Fix it and return a corrected JSON object.");
      json_mode = true;
      model = c.model;
      max_tokens = 1500;
    }

    -- One round of the loop; `attempt` counts from 1.
    unfoldable pub round : ℕ → Vars → M kit Flow
    round attempt v =
        let prompt =
          kit.build_prompt c.question (relevant_tables v.schema c.question cfg.relevant_tables) in
        call_model kit cfg.max_retries (request v prompt) >>= λ raw.
        follow_plan attempt
          (record v {
            result = record (v.result) { attempts = attempt };
            tokens = v.tokens + length prompt / 4 + length raw / 4;
            previous_raw = some raw;
          })
          (parse_sql_plan kit.to_str kit.loads raw)

    -- The `else` of the loop.
    abbrev pub gave_up : Vars → Vars
    gave_up v = record v {
      result = record (v.result) {
        status = error_status;
        error = some (or_default v.last_error (text "Query failed after retries"));
      };
    }

    -- The loop: the attempts that are left, and the number of the next.
    unfoldable pub attempts : ℕ → ℕ → Vars → M kit Vars
    attempts zero n v = pure (gave_up v)
    attempts (suc left) n v = round n v >>= λ flow. elim flow [
      | continue' w ↦ attempts left (n + 1) w
      | break' w ↦ pure w
    ]
