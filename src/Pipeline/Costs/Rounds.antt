-- ===== src/Pipeline/Costs/Rounds.antt =====
-- The price of the loops of pipeline.py.
use insightkit.Prelude.{ℕ, zero, suc, ◌+◌, Option, none, some, List, [], ◌∷◌, Text, arith, take}
use insightkit.Prelude.Result.{Result, ok, err}
use insightkit.Audit.{Status, ok_status, no_data_status, error_status}
use insightkit.Guard.Sql.{GuardError}
use insightkit.Llm.SqlGen.{SqlPlan, SqlGenError}
use insightkit.Pipeline.Types.{
  Frame, AskResult, Config, Outcome, frame, table_not_found, db_error, crash,
}
use insightkit.Pipeline.Kit.{Kit, State, M, QueryResult}
use insightkit.Pipeline.Attempts.{
  Vars, Call, continue', break', guard, retry, decline, after_execute, run_guarded, follow_plan,
  round, attempts,
}
use insightkit.Pipeline.Finish.{explain, emit_chart, report, report_no_data, conclude, finalize}
use insightkit.Pipeline.Analysis.{use_outcome, run_one, run_queries}
use insightkit.Pipeline.Costs.{
  Costs, IsPriced, Costs-pure, Costs-raise, Costs-more, Costs-if, Costs-bind, Costs-then,
}

-- `n` times `x`
unfoldable pub times : ℕ → ℕ → ℕ
times zero x = 0
times (suc n) x = x + times n x

module _ (kit : Kit) (cfg : Config) (a b : ℕ) (μ : State kit → ℕ) (p : IsPriced kit cfg a b μ)
    (c : Call) where
  retry-Costs : (n : ℕ) (v : Vars) (e : Text) → Costs μ 0 (retry kit cfg c n v e)
  retry-Costs n v e = Costs-then 0 _ _ (p.emitting _ _) λ _. Costs-pure 0 _

  decline-Costs : (n : ℕ) (v : Vars) (plan : SqlPlan) → Costs μ 0 (decline kit cfg c n v plan)
  unfolding decline
  decline-Costs n v plan =
      Costs-if _ _ _ (Costs-pure 0 _)
        (Costs-then 0 _ _ (p.emitting _ _) λ _. Costs-if _ _ _ (Costs-pure 0 _) (Costs-pure 0 _))

  after_execute-Costs : (n : ℕ) (v : Vars) (o : Outcome) → Costs μ 0 (after_execute kit cfg c n v o)
  unfolding after_execute
  after_execute-Costs n v (frame df) = Costs-pure 0 _
  after_execute-Costs n v (table_not_found e) =
      Costs-then 0 _ _ (p.emitting _ _) λ _. Costs-then 0 _ _ p.refreshing λ m. Costs-pure 0 _
  after_execute-Costs n v (db_error e) = retry-Costs n v e
  after_execute-Costs n v (crash e) = Costs-raise 0 _

  run_guarded-Costs :
      (n : ℕ) (v : Vars) (g : Result GuardError Text) → Costs μ b (run_guarded kit cfg c n v g)
  unfolding run_guarded
  run_guarded-Costs n v (err e) = Costs-more 0 b (omega arith) (retry-Costs n v _)
  run_guarded-Costs n v (ok sql) = Costs-then b _ _ (p.emitting _ _) λ _.
      Costs-more (b + 0) b (omega arith)
        (Costs-bind b 0 _ _ (p.executing sql) λ o. after_execute-Costs n _ o)

  follow_plan-Costs :
      (n : ℕ) (v : Vars) (r : Result SqlGenError SqlPlan) → Costs μ b (follow_plan kit cfg c n v r)
  unfolding follow_plan
  follow_plan-Costs n v (err e) = Costs-more 0 b (omega arith) (retry-Costs n v _)
  follow_plan-Costs n v (ok plan) =
      Costs-if _ _ _ (Costs-more 0 b (omega arith) (decline-Costs n _ plan))
        (run_guarded-Costs n _ (guard kit cfg plan.sql))

  round-Costs : (n : ℕ) (v : Vars) → Costs μ (a + b) (round kit cfg c n v)
  unfolding round
  round-Costs n v = Costs-bind a b _ _ (p.calling _) λ raw. follow_plan-Costs n _ _

  -- Each attempt costs at most one completion and one query.
  pub attempts-Costs :
      (left n : ℕ) (v : Vars) → Costs μ (times left (a + b)) (attempts kit cfg c left n v)
  unfolding attempts times
  attempts-Costs zero n v = Costs-pure 0 _
  attempts-Costs (suc left) n v =
      Costs-bind (a + b) (times left (a + b)) _ _ (round-Costs n v)
        (elim [ continue' w ↦ attempts-Costs left (n + 1) w | break' w ↦ Costs-pure _ w ])

  explain-Costs : (df : Frame) → Costs μ a (explain kit cfg c df)
  unfolding explain
  explain-Costs df =
      Costs-if _ _ _ (Costs-pure a _) (
        Costs-more (a + 0) a (omega arith) (Costs-bind a 0 _ _ (p.calling _) λ raw. Costs-pure 0 _))

  emit_chart-Costs : (chart : Option Text) → Costs μ 0 (emit_chart kit cfg c chart)
  unfolding emit_chart
  emit_chart-Costs none = Costs-pure 0 tt
  emit_chart-Costs (some []) = Costs-pure 0 tt
  emit_chart-Costs (some (x ∷ xs)) = p.emitting _ _

  report-Costs : (v : Vars) (df : Frame) → Costs μ a (report kit cfg c v df)
  unfolding report
  report-Costs v df = Costs-then a _ _ (p.emitting _ _) λ _. Costs-more (a + 0) a (omega arith) (
      Costs-bind a 0 _ _ (explain-Costs df) λ insight.
        Costs-then 0 _ _ (p.emitting _ _)
          λ _. Costs-then 0 _ _ (emit_chart-Costs _) λ _. Costs-pure 0 _)

  -- The end of the plain flow costs at most one completion.
  pub conclude-Costs :
      (st : Status) (df : Option Frame) (v : Vars) → Costs μ a (conclude kit cfg c st df v)
  unfolding conclude report_no_data
  conclude-Costs ok_status (some df) v = report-Costs v df
  conclude-Costs ok_status none v = Costs-pure a _
  conclude-Costs no_data_status df v =
      Costs-then a _ _ (Costs-if _ _ _ (Costs-pure 0 tt) (p.emitting _ _)) λ _. Costs-pure a _
  conclude-Costs error_status df v = Costs-pure a _

  -- Nothing of the end of an `ask` has a price.
  pub finalize-Costs : (r : AskResult) → Costs μ 0 (finalize kit cfg c r)
  unfolding finalize
  finalize-Costs r = Costs-then 0 _ _ (p.clock kit.monotonic_ms) λ now.
      Costs-then 0 _ _ (p.auditing c _) λ _.
        Costs-then 0 _ _ (Costs-if _ _ _ (p.caching c _) (Costs-pure 0 tt))
          λ _. Costs-then 0 _ _ (p.emitting _ _) λ _. Costs-pure 0 _

  use_outcome-Costs :
      (k : ℕ) (q : Text) (rest : List QueryResult → M kit (Result Text (List QueryResult)))
      (frames : List QueryResult) (o : Outcome)
      → ((fs : List QueryResult) → Costs μ k (rest fs))
      → Costs μ k (use_outcome kit cfg c q rest frames o)
  unfolding use_outcome
  use_outcome-Costs k q rest frames (frame df) h = h _
  use_outcome-Costs k q rest frames (table_not_found e) h = Costs-pure k _
  use_outcome-Costs k q rest frames (db_error e) h = Costs-pure k _
  use_outcome-Costs k q rest frames (crash e) h = Costs-raise k _

  run_one-Costs :
      (k : ℕ) (q : Text) (rest : List QueryResult → M kit (Result Text (List QueryResult)))
      (frames : List QueryResult) (g : Result GuardError Text)
      → ((fs : List QueryResult) → Costs μ k (rest fs))
      → Costs μ (b + k) (run_one kit cfg c q rest frames g)
  unfolding run_one
  run_one-Costs k q rest frames (err e) h = Costs-pure _ _
  run_one-Costs k q rest frames (ok sql) h =
      Costs-bind b k _ _ (p.executing sql) λ o. use_outcome-Costs k q rest frames o h

  -- A batch costs at most as many queries as it has.
  pub run_queries-Costs :
      (n : ℕ) (qs : List Text) (frames : List QueryResult)
      → Costs μ (times n b) (run_queries kit cfg c (take n qs) frames)
  unfolding run_queries times
  run_queries-Costs zero qs frames = Costs-pure 0 _
  run_queries-Costs (suc n) [] frames = Costs-pure _ _
  run_queries-Costs (suc n) (q ∷ qs) frames =
      run_one-Costs (times n b) q (run_queries kit cfg c (take n qs)) frames (guard kit cfg q)
        (λ fs. run_queries-Costs n qs fs)
