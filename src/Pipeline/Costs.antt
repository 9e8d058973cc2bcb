-- ===== src/Pipeline/Costs.antt =====
-- How much of the outside world one `ask` of pipeline.py uses: calls of the API and queries.
pub mod Rounds
pub mod Whole
pub mod Bounds
use insightkit.Prelude.{
  ℕ, zero, suc, ◌+◌, ◌*◌, ◌≤◌, Bool, true, false, Option, none, some, List, [], ◌∷◌, ◌++◌, ◌≡◌,
  refl, Text, if◌then◌else◌, arith, length, take, inl, inr,
}
use insightkit.Prelude.Result.{Result, ok, err}
use insightkit.Prelude.Action.{Action, Steps, ◌>>=◌, ◌>>◌, pure, raise, gets, resume}
use insightkit.Schema.{SchemaMetadata}
use insightkit.Audit.{Status, ok_status, no_data_status, error_status}
use insightkit.Guard.Sql.{GuardError}
use insightkit.Llm.SqlGen.{SqlPlan, SqlGenError}
use insightkit.Llm.Client.{LlmError, Line, complete}
use insightkit.Llm.Retries.{complete_calls}
use insightkit.Pipeline.Types.{
  Frame, AskResult, Event, Config, Outcome, frame, table_not_found, db_error, crash, Request,
  Failure, Payload,
}
use insightkit.Pipeline.Kit.{
  Kit, State, M, QueryResult, reading, emit, end_call, call_model, execute, use_meta,
  refresh_schema, get_schema,
}
use insightkit.Pipeline.Untouched.{
  IsAloof, aloof-reading, aloof-emit, aloof-refresh, aloof-get_schema,
}
use insightkit.Pipeline.Attempts.{
  Vars, Call, Flow, continue', break', guard, retry, decline, after_execute, run_guarded,
  follow_plan, round, attempts, max_attempts,
}
use insightkit.Pipeline.Finish.{
  explain, emit_chart, report, report_no_data, conclude, record_audit, keep_answer, finalize,
}
use insightkit.Pipeline.Analysis.{
  Progress, Turn, again, found, prose, use_outcome, run_one, run_queries, nudge, after_batch,
  without_queries, follow_analysis, query_list, analysis_round, conclude_analysis, report_analysis,
  analysis_attempts, ask_analysis,
}
use insightkit.Pipeline.Ask.{ask_plain, answer_cached, answer_fresh, answer, read_cache, ask}

-- Every run of the action, returning or raising, raises the measure by at most `k`.
pub record Costs {S A : Type 0} (μ : S → ℕ) (k : ℕ) (m : Action Failure S A) : Type 0 where
  pub run : (s : S) → μ (m s).1 ≤ μ s + k

module _ {S A : Type 0} {μ : S → ℕ} where
  pub Costs-pure : (k : ℕ) (a : A) → Costs μ k (pure a)
  unfolding pure
  Costs-pure k a = record { run = λ s. omega arith }

  pub Costs-raise : (k : ℕ) (e : Failure) → Costs μ k (raise {A = A} e)
  unfolding raise
  Costs-raise k e = record { run = λ s. omega arith }

  pub Costs-gets : (k : ℕ) (f : S → A) → Costs μ k (gets f)
  unfolding gets
  Costs-gets k f = record { run = λ s. omega arith }

  pub Costs-more : (k n : ℕ) {m : Action Failure S A} → k ≤ n → Costs μ k m → Costs μ n m
  Costs-more k n h c = record { run = λ s. omega (arith, c.run s) }

  pub Costs-if :
      {k : ℕ} (b : Bool) (m n : Action Failure S A)
      → Costs μ k m
      → Costs μ k n
      → Costs μ k (if b then m else n)
  Costs-if true m n h k = h
  Costs-if false m n h k = k

module _ {S A B : Type 0} {μ : S → ℕ} where
  resume_cost :
      (k n : ℕ) (f : A → Action Failure S B) (h : (a : A) → Costs μ n (f a)) (s : S)
      (x : Result Failure A × S)
      → μ x.1 ≤ μ s + k
      → μ (resume f x).1 ≤ μ s + (k + n)
  resume_cost k n f h s (ok a, t) q = omega (arith, (h a).run t)
  resume_cost k n f h s (err e, t) q = omega arith

  pub Costs-bind :
      (k n : ℕ) (m : Action Failure S A) (f : A → Action Failure S B)
      → Costs μ k m
      → ((a : A) → Costs μ n (f a))
      → Costs μ (k + n) (m >>= f)
  unfolding ◌>>=◌
  Costs-bind k n m f c h = record { run = λ s. resume_cost k n f h s (m s) (c.run s) }

  -- The first action costs nothing.
  pub Costs-then :
      (n : ℕ) (m : Action Failure S A) (f : A → Action Failure S B)
      → Costs μ 0 m
      → ((a : A) → Costs μ n (f a))
      → Costs μ n (m >>= f)
  Costs-then n m f c h = Costs-more (0 + n) n (omega arith) (Costs-bind 0 n m f c h)

-- The measure counts `call` for a completion, `query` for a query, and nothing else.
pub record IsPriced (kit : Kit) (cfg : Config) (call query : ℕ) (μ : State kit → ℕ) : Type 0 where
  pub emitting : (b : Bool) (e : Event) → Costs μ 0 (emit kit b e)
  pub calling : (req : Request) → Costs μ call (call_model kit cfg.max_retries req)
  pub executing : (q : Text) → Costs μ query (execute kit q)
  pub refreshing : Costs μ 0 (refresh_schema kit)
  pub looking_up : Costs μ 0 (get_schema kit)
  pub opening : Costs μ 0 (use_meta kit)
  pub clock : (f : kit.World → ℕ × kit.World) → Costs μ 0 (reading kit f)
  pub auditing : (c : Call) (r : AskResult) → Costs μ 0 (record_audit kit cfg c r)
  pub caching : (c : Call) (r : AskResult) → Costs μ 0 (keep_answer kit cfg c r)
