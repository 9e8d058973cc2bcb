-- ===== src/Pipeline/Costs/Bounds.antt =====
-- Bounds on the calls and the queries of one `ask` of pipeline.py.
use insightkit.Prelude.{
  ℕ, ◌+◌, ◌*◌, ◌≤◌, Bool, Option, List, [], ◌∷◌, ◌≡◌, ◌∙◌, refl, Text, arith, length, length-append,
  inl, inr, Bool-cases,
}
use insightkit.Prelude.Result.{Result, ok, err}
use insightkit.Prelude.Action.{◌>>=◌}
use insightkit.Audit.{AuditRow}
use insightkit.Cache.Store.{CacheTable}
use insightkit.Llm.Client.{LlmError, Line, complete}
use insightkit.Llm.Retries.{complete_calls}
use insightkit.Pipeline.Types.{Config, Request}
use insightkit.Pipeline.Kit.{Kit, State, M, reading, end_call, call_model, execute}
use insightkit.Pipeline.Untouched.{
  IsAloof, aloof-reading, aloof-emit, aloof-refresh, aloof-get_schema, aloof-use_meta,
  aloof-keep_answer, aloof-call_model,
}
use insightkit.Pipeline.Finish.{record_audit}
use insightkit.Pipeline.Ask.{ask}
use insightkit.Pipeline.Costs.{Costs, IsPriced}
use insightkit.Pipeline.Costs.Whole.{ask-Costs}

module _ (kit : Kit) (cfg : Config) (μ : State kit → ℕ) where
  same_count : {A : Type 0} (m : M kit A) → ((s : State kit) → μ (m s).1 ≡ μ s) → Costs μ 0 m
  same_count m e = record { run = λ s. omega (arith, e s) }

  -- A count that only completions and queries raise.
  priced :
      (call query : ℕ)
      → IsAloof kit μ
      → ((req : Request) → Costs μ call (call_model kit cfg.max_retries req))
      → ((q : Text) → Costs μ query (execute kit q))
      → ((s : State kit) (rows : List AuditRow) → μ (record s { audit = rows }) ≡ μ s)
      → ((s : State kit) (rows : CacheTable) → μ (record s { cache = rows }) ≡ μ s)
      → IsPriced kit cfg call query μ
  unfolding record_audit reading ◌>>=◌
  priced call query a calling executing audits caches = record {
    emitting = λ b e. same_count _ (aloof-emit kit μ a b e);
    calling = calling;
    executing = executing;
    refreshing = same_count _ (aloof-refresh kit μ a);
    looking_up = same_count _ (aloof-get_schema kit μ a);
    opening = same_count _ ((aloof-use_meta kit μ a).run);
    clock = λ f. same_count _ (aloof-reading kit μ a f);
    auditing = λ c r. same_count _ (λ s.
        elim (Bool-cases (kit.audit_writable (kit.utc_us s.world).1).0) [
          | inl on ↦ rw on (audits _ _ ∙ a.world s _)
          | inr off ↦ rw off (a.world s _)
        ]);
    caching = λ c r. same_count _ ((aloof-keep_answer kit μ a caches cfg c r).run);
  }

module _ (kit : Kit) (cfg : Config) where
  calls-IsAloof : IsAloof kit (λ s. s.calls)
  calls-IsAloof = record {
    world = λ s w. refl;
    events = λ s es. refl;
    schema = λ s m. refl;
    scanned = λ s qs. refl;
    stored = λ s m. refl;
  }

  end_call-calls :
      (s : State kit) (x : Result LlmError Text × Line kit.World)
      → (end_call kit s x).1.calls ≡ x.1.calls
  unfolding end_call
  end_call-calls s (ok raw, l) = refl
  end_call-calls s (err e, l) = refl

  abbrev the_line : State kit → Line kit.World
  the_line s = record { world = s.world; calls = s.calls; sleeps = [] }

  call_model-calls :
      (req : Request)
      → Costs (λ s. s.calls) (cfg.max_retries + 1) (call_model kit cfg.max_retries req)
  unfolding call_model
  call_model-calls req = record {
    run = λ s.
        let l = the_line s in
        omega (
          arith,
          end_call-calls s (complete (kit.api req) cfg.max_retries l),
          complete_calls (kit.api req) cfg.max_retries l,
        );
  }

  -- One `ask` makes at most `4 * (max_retries + 1)` calls of the LLM's API, whatever the model and
  -- the database answer, and also when it raises.
  pub ask_calls :
      (question user role : Text) (streaming : Bool) (model : Option Text) (s : State kit)
      → (ask kit cfg question user role streaming model s).1.calls
        ≤ s.calls + 4 * (cfg.max_retries + 1)
  unfolding execute
  ask_calls question user role streaming model s = omega (
    arith,
    (ask-Costs kit cfg (cfg.max_retries + 1) 0 (λ t. t.calls)
          (priced kit cfg _ _ 0 calls-IsAloof call_model-calls
            (λ q. same_count kit cfg _ _ λ t. refl) (λ t rows. refl) (λ t rows. refl))
          question user role streaming model).run
        s,
  )

  executed-IsAloof : IsAloof kit (λ s. length s.executed)
  executed-IsAloof = record {
    world = λ s w. refl;
    events = λ s es. refl;
    schema = λ s m. refl;
    scanned = λ s qs. refl;
    stored = λ s m. refl;
  }

  execute-executed : (q : Text) → Costs (λ s. length s.executed) 1 (execute kit q)
  unfolding execute
  execute-executed q = record { run = λ s. omega (arith, length-append s.executed (q ∷ [])) }

  -- One `ask` sends at most twelve queries to the database, whatever the model and the database
  -- answer, and also when it raises.
  ask_queries :
      (question user role : Text) (streaming : Bool) (model : Option Text) (s : State kit)
      → length (ask kit cfg question user role streaming model s).1.executed
        ≤ length s.executed + 12
  ask_queries question user role streaming model s = omega (
    arith,
    (ask-Costs kit cfg 0 1 (λ t. length t.executed)
          (priced kit cfg _ _ 1 executed-IsAloof
            (λ req.
              same_count kit cfg _ _
                (aloof-call_model kit _ executed-IsAloof (λ t w n. refl) cfg.max_retries req))
            execute-executed (λ t rows. refl) (λ t rows. refl))
          question user role streaming model).run
        s,
  )
