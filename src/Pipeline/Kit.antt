-- ===== src/Pipeline/Kit.antt =====
-- The object `InsightKit` of pipeline.py: the services that it holds, its state, and the methods
-- that read and refresh the schema.
use insightkit.Prelude.{ℕ, Bool, Option, none, some, List, [], ◌∷◌, ◌++◌, Text, if◌then◌else◌}
use insightkit.Prelude.Result.{Result, ok, err}
use insightkit.Prelude.Action.{Action, pure, raise, ◌>>=◌, ◌>>◌}
use insightkit.Json.{Json}
use insightkit.Schema.{SchemaMetadata}
use insightkit.Audit.{AuditRow}
use insightkit.Cache.Store.{CacheTable}
use insightkit.Llm.Client.{ApiError, LlmError, Line, complete}
use insightkit.Pipeline.Types.{
  Frame, OutRow, Payload, Event, Outcome, Request, Failure, llm_failed, crashed, meta_failed,
}

-- One executed query of the analysis: its text, its columns and its first rows.
pub record QueryResult : Type 0 where
  pub query : Text
  pub columns : List Text
  pub rows : List OutRow

-- What the object is built from. The first part is the outside world: the LLM's API, the
-- database, the clocks, whether the audit log can be written, and whether the meta database can be
-- used. An introspection sends queries of its own and may raise. The second part is Python's JSON
-- and SHA-256. The third part is the text of the prompts, the chart and the schema cache,
-- which no decision of the pipeline looks into.
pub record Kit : Type 1 where
  pub World : Type 0
  pub api : Request → World → Result ApiError Text × World
  pub run : Text → World → Outcome × World
  pub introspect : World → (List Text × Result Text SchemaMetadata) × World
  pub monotonic_ms : World → ℕ × World
  pub utc_us : World → ℕ × World
  pub audit_writable : World → Bool × World
  pub meta_ready : World → Bool × World
  pub isoformat : ℕ → Text
  pub is_mongo : Bool
  pub has_engine : Bool
  pub loads : Text → Result Text Json
  pub dumps : Json → Text
  pub to_str : Json → Text
  pub repr : Json → Text
  pub failure_text : LlmError → Text
  pub sha256 : Text → Text
  pub encode : Payload → Option Text
  pub decode : Text → Option Payload
  pub build_prompt : Text → SchemaMetadata → Text
  pub system_prompt : Text
  pub final_prompt : Text → List QueryResult → Text
  pub explain_system : Text
  pub explain_prompt : Text → Frame → Text
  pub build_chart : Frame → Option Text
  pub reloaded : SchemaMetadata → SchemaMetadata

module _ (kit : Kit) where
  -- The state: the outside world, the object's own fields, the meta database, and what the run
  -- has done so far: the API calls, the queries given to `backend.execute`, those that introspections
  -- sent, and the events streamed.
  pub record State : Type 0 where
    pub world : kit.World
    pub schema : Option SchemaMetadata
    pub schema_version : Text
    pub stored_schema : Option SchemaMetadata
    pub cache : CacheTable
    pub audit : List AuditRow
    pub calls : ℕ
    pub executed : List Text
    pub scanned : List Text
    pub events : List Event

module _ (kit : Kit) where
  abbrev pub M : Type 0 → Type 0
  M A = Action Failure (State kit) A

  -- A reading of the outside world, such as a clock.
  unfoldable pub reading : {A : Type 0} → (kit.World → A × kit.World) → M A
  reading f s = let (a, w) = f s.world in (ok a, record s { world = w })

  -- `if stream: await stream(event, …)`
  unfoldable pub emit : Bool → Event → M (Unit {0})
  emit streaming e s = (ok tt, if streaming then record s { events = s.events ++ e ∷ [] } else s)

  unfoldable pub end_call :
      State kit → Result LlmError Text × Line kit.World → Result Failure Text × State kit
  end_call s (ok raw, l) = (ok raw, record s { world = l.world; calls = l.calls })
  end_call s (err e, l) =
      (err (llm_failed (kit.failure_text e)), record s { world = l.world; calls = l.calls })

  -- `complete(self.cfg, messages, …)`
  unfoldable pub call_model : ℕ → Request → M Text
  call_model max_retries req s = end_call s (
      complete (kit.api req) max_retries (record { world = s.world; calls = s.calls; sleeps = [] }))

  -- `self.backend.execute(sql, …)`: the query is sent, whatever comes back.
  unfoldable pub execute : Text → M Outcome
  execute q s =
      let (o, w) = kit.run q s.world in
      (ok o, record s { world = w; executed = s.executed ++ q ∷ [] })

  -- A service opens the meta database, which may raise.
  unfoldable pub use_meta : M (Unit {0})
  use_meta = reading kit.meta_ready >>= λ ready. if ready then pure tt else raise meta_failed

  abbrev pub with_schema : State kit → SchemaMetadata → State kit
  with_schema s meta = record s { schema = some meta; schema_version = meta.extracted_at }

  unfoldable pub adopt : SchemaMetadata → M SchemaMetadata
  adopt meta s = (ok meta, with_schema s meta)

  unfoldable pub end_scan : Result Text SchemaMetadata → M SchemaMetadata
  end_scan (ok meta) = pure meta
  end_scan (err e) = raise (crashed e)

  -- `self.backend.introspect(self.db_key)`: its queries are sent, whatever comes back.
  unfoldable pub scan : M SchemaMetadata
  scan s =
      let ((qs, r), w) = kit.introspect s.world in
      end_scan r (record s { world = w; scanned = s.scanned ++ qs })

  unfoldable pub store : SchemaMetadata → M (Unit {0})
  store meta s = (ok tt, record s { stored_schema = some (kit.reloaded meta) })

  -- `save_schema`, for the SQL backends
  unfoldable pub save : SchemaMetadata → M (Unit {0})
  save meta = if kit.has_engine then use_meta >> store meta else pure tt

  unfoldable pub refresh_schema : M SchemaMetadata
  refresh_schema = scan >>= λ meta. save meta >> adopt meta

  unfoldable pub load_or_refresh : Option SchemaMetadata → M SchemaMetadata
  load_or_refresh none = refresh_schema
  load_or_refresh (some meta) = adopt meta

  -- `load_schema`
  unfoldable pub stored : M (Option SchemaMetadata)
  stored s = (ok s.stored_schema, s)

  -- What is loaded, if there is a SQL engine.
  unfoldable pub loaded : M (Option SchemaMetadata)
  loaded = if kit.has_engine then use_meta >> stored else pure none

  unfoldable pub known_schema : Option SchemaMetadata → M SchemaMetadata
  known_schema (some meta) = pure meta
  known_schema none = loaded >>= load_or_refresh

  unfoldable pub get_schema : M SchemaMetadata
  get_schema s = known_schema s.schema s
