-- ===== src/Lib.antt =====
-- The correctness of insightkit, which answers questions about a database in natural language: a
-- language model writes SQL, the guardrails check it, the database runs it, and the model explains
-- the rows.
--
-- The parts, with the files of the repository that they model:
--
-- - Prelude: shared lists, texts, dictionaries, results, decimals and actions. A text is the list
--   of its code points. The spaces, digits and word characters are those of Unicode
--   (Prelude.Unicode); `lower` changes the letters of ASCII and the sign of the kelvin only, and
--   IGNORECASE takes for an ASCII letter those that Python does.
-- - Re: the part of Python's `re` that the sources use, as a backtracking matcher with its
--   language, and the functions search, find, sub and finditer.
-- - Json: the values that `json.loads` returns.
-- - Guard: src/insightkit/security/guard.py. Sql, Mongo and Pii are the code (`validate`,
--   `validate_mongo`, `mask_pii`); the other modules are named for what they prove.
-- - Schema: the data of src/insightkit/db/schema.py, and its text for the prompt (Render).
-- - Llm: src/insightkit/llm/client.py (Client), sqlgen.py (SqlGen), router.py (Router), and
--   prompt.py: `is_analysis_question` (Intent), `relevant_tables` (Tables), `_trim_schema` (Trim)
--   and `build_prompt` (Prompt).
-- - Cache: src/insightkit/cache.py. Audit: src/insightkit/audit.py. A table is a list of rows in
--   the order of their ids, or a dictionary by its key.
-- - Access: src/insightkit/api/auth.py (Limiter, Auth), src/insightkit/security/users.py (Users)
--   and src/insightkit/api/metrics.py (Metrics, Snapshot).
-- - Api: src/insightkit/api/app.py. Stream is the event stream of `ask`, the moves of its task,
--   its generator and its client as a step relation, in which an event that `json.dumps` cannot
--   write makes the generator raise, and a cancelled task may go on; Routes are the other routes,
--   each a handler behind `require_role`.
-- - Pipeline: src/insightkit/pipeline.py and llm/explain.py. Kit is the object `InsightKit` with
--   its services and its state; Attempts is the self-correction loop of `ask`, Analysis the method
--   `_ask_analysis`, Finish the explanation and `_finalize`, Ask the method `ask`. Trace shows
--   that every run is made of a few primitive steps; Safety, AuditTrail, Costs and Sources use
--   that; Repeat is about a second question that finds the answer in the cache.
-- - MetaDb: src/insightkit/db/cache.py, the schema in the meta database. Config: the layers of
--   src/insightkit/config.py.
-- - Executor: src/insightkit/db/executor.py, whose outcomes are those that Pipeline.Kit takes from
--   the database.
-- - Backends: src/insightkit/db/backends.py, the choice of a backend, the queries of MongoDB
--   (Mongo), and the statement API of Trino with its polling loop (Trino).
-- - Connector: src/insightkit/db/connector.py. Introspect: src/insightkit/db/introspect.py, from
--   the rows of the catalogue (Introspect) to the tables of the schema (Tables).
-- - FewShot: src/insightkit/fewshot.py. Eval: src/insightkit/eval.py, which runs the questions of
--   a golden set through Pipeline.Ask and counts.
-- - Tests: runs at concrete inputs.
--
-- How they interact: `ask` reads the clock, the schema and the cache; on a miss it calls the model
-- through `complete`, parses the plan, passes the SQL through the guard, sends it to the database,
-- and ends in `_finalize`, which writes the audit row and the cache. A method is a function of the
-- state that returns a result or an exception beside the new state (Prelude.Action).
--
-- The HTTP application runs `ask` as a task whose callback fills a queue, and a generator empties
-- the queue into the response until it meets `done`. One request is followed at a time: what other
-- requests record in the metrics meanwhile is left out.
--
-- Parameters. The world (LLM API, database, clocks, whether the audit log can be written and the
-- meta database be used) is an arbitrary type with arbitrary functions; JSON, SHA-256, `str`,
-- `repr`, the JWT library and the text of prompts and charts are functions of the model's users.
-- Nothing is assumed of them where a theorem does not name a hypothesis. Times are natural
-- numbers: milliseconds for latencies, microseconds for the cache, the tokens and the rate
-- limiter.
--
-- The queries that `ask` gives to `backend.execute` are recorded apart from those that an
-- introspection sends on its own; only the former go through the guard. A failure of the store of
-- examples is left out, as is what the prompts take from it.
--
-- Bounds. The loops over attempts are recursions on the attempts that are left, `max_attempts`
-- being 3 as in the source, and those over retries on the retries that are left. The matcher is
-- structural in the expression, its repetitions in the length of the text that is left, which each
-- repetition of a character class shortens. The closure of `relevant_tables` has one pass more
-- than the schema has foreign keys, and every pass but the last gives one of them a name.
--
-- `_trim_schema` has the number of columns of a table for the loop on that table, those of the
-- schema for the loop on all tables, and the number of tables for the last loop: each pass takes
-- one away. A negative token budget is taken for 0, which refuses the same texts.
--
-- The polling loop of Trino has the number of responses that arrive before its timeout: when they
-- are used up, the timeout strikes.
--
-- Not modelled: the command line, the types and defaults of the configuration, the drivers, the
-- backend of OpenSearch and the introspection of MongoDB and Trino, how backends read their URLs,
-- the streaming completion, the start and the end of the pipeline, the rounding of the metrics'
-- mean and hit rate, the text of the semantic layer, and the rendering of charts.
pub mod Prelude
pub mod Re
pub mod Json
pub mod Guard
pub mod Schema
pub mod Llm
pub mod Cache
pub mod Audit
pub mod Access
pub mod Api
pub mod MetaDb
pub mod Backends
pub mod Connector
pub mod Introspect
pub mod FewShot
pub mod Config
pub mod Pipeline
pub mod Executor
pub mod Eval
mod Tests
