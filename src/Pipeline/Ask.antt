-- ===== src/Pipeline/Ask.antt =====
-- `InsightKit.ask` of pipeline.py.
use insightkit.Prelude.{ℕ, ◌-◌, Bool, false, Option, none, some, Text, if◌then◌else◌, length}
use insightkit.Prelude.Action.{pure, gets, ◌>>=◌, ◌>>◌}
use insightkit.Schema.{SchemaMetadata}
use insightkit.Cache.Store
use insightkit.Cache.Store.{query_hash}
use insightkit.Llm.Router.{pick_model, or_text}
use insightkit.Llm.Intent.{is_analysis_question}
use insightkit.Pipeline.Types.{AskResult, Event, Config, Payload, result_of, new_result}
use insightkit.Pipeline.Kit.{Kit, M, reading, emit, use_meta, get_schema}
use insightkit.Pipeline.Attempts.{Call, attempts, max_attempts}
use insightkit.Pipeline.Finish.{conclude, finalize}
use insightkit.Pipeline.Analysis.{ask_analysis}

abbrev pub new_call : Text → Text → Text → Text → Text → Bool → ℕ → Call
new_call question user role model key streaming started = record {
  question = question;
  user = user;
  role = role;
  key = key;
  model = model;
  streaming = streaming;
  started = started;
}

module _ (kit : Kit) (cfg : Config) where
  -- The plain flow, from the `plan` event on.
  unfoldable pub ask_plain : Call → SchemaMetadata → M kit AskResult
  ask_plain c schema = do
    emit kit c.streaming (Event.plan c.model (length schema.tables) false)
    v ← attempts kit cfg c max_attempts 1 (record {
      result = new_result c.question c.model;
      schema = schema;
      last_error = none;
      previous_raw = none;
      df = none;
      tokens = 0;
      declines = 0;
    })
    r ← conclude kit cfg c v.result.status v.df v
    finalize kit cfg c r

  -- A hit of the cache: no audit row, and no `done` event.
  unfoldable pub answer_cached : Call → Payload → M kit AskResult
  answer_cached c p = do
    now ← reading kit kit.monotonic_ms
    let r = record (result_of c.question p) { latency_ms = now - c.started }
    emit kit c.streaming (Event.cached r.insight)
    pure r

  unfoldable pub answer_fresh : Call → SchemaMetadata → M kit AskResult
  answer_fresh c schema =
      if is_analysis_question c.question then ask_analysis kit cfg c schema else ask_plain c schema

  unfoldable pub answer : Call → SchemaMetadata → Option Payload → M kit AskResult
  answer c schema (some p) = answer_cached c p
  answer c schema none = answer_fresh c schema

  -- `self.cache.get(key)`
  unfoldable pub read_cache : Text → M kit (Option Payload)
  read_cache key = do
    use_meta kit
    now ← reading kit kit.utc_us
    gets (λ s. Store.get kit.encode kit.decode now key s.cache)

  unfoldable pub ask : Text → Text → Text → Bool → Option Text → M kit AskResult
  ask question user role streaming model = do
    t0 ← reading kit kit.monotonic_ms
    schema ← get_schema kit
    version ← gets (λ s. s.schema_version)
    let m = or_text model (pick_model cfg.model cfg.fast_model question (length schema.tables))
    let c =
        new_call question user role m (query_hash kit.sha256 question role version m) streaming t0
    hit ← read_cache c.key
    answer c schema hit
