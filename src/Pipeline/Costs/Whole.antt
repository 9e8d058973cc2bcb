-- ===== src/Pipeline/Costs/Whole.antt =====
-- The price of a whole `ask` of pipeline.py.
use insightkit.Prelude.{
  ℕ, zero, suc, ◌+◌, ◌*◌, Bool, Option, none, some, List, [], ◌∷◌, Text, arith,
}
use insightkit.Prelude.Result.{Result, ok, err}
use insightkit.Schema.{SchemaMetadata}
use insightkit.Llm.SqlGen.{SqlPlan, SqlGenError}
use insightkit.Pipeline.Types.{AskResult, Config, Payload}
use insightkit.Pipeline.Kit.{Kit, State, QueryResult}
use insightkit.Pipeline.Attempts.{Call, max_attempts}
use insightkit.Pipeline.Finish.{finalize}
use insightkit.Pipeline.Analysis.{
  Progress, again, found, prose, nudge, after_batch, without_queries, follow_analysis, query_list,
  analysis_round, conclude_analysis, report_analysis, analysis_attempts, ask_analysis,
}
use insightkit.Pipeline.Ask.{ask_plain, answer_cached, answer_fresh, answer, read_cache, ask}
use insightkit.Pipeline.Costs.{
  Costs, IsPriced, Costs-pure, Costs-gets, Costs-more, Costs-if, Costs-bind, Costs-then,
}
use insightkit.Pipeline.Costs.Rounds.{
  times, attempts-Costs, conclude-Costs, finalize-Costs, run_queries-Costs,
}

module _ (kit : Kit) (cfg : Config) (a b : ℕ) (μ : State kit → ℕ) (p : IsPriced kit cfg a b μ) where
  module _ (c : Call) where
    nudge-Costs : (n : ℕ) (q : Progress) (e : Text) → Costs μ 0 (nudge kit cfg c n q e)
    nudge-Costs n q e = Costs-then 0 _ _ (p.emitting _ _) λ _. Costs-pure 0 _

    after_batch-Costs :
        (n : ℕ) (q : Progress) (r : Result Text (List QueryResult))
        → Costs μ 0 (after_batch kit cfg c n q r)
    unfolding after_batch
    after_batch-Costs n q (err e) = nudge-Costs n (record q { frames = [] }) e
    after_batch-Costs n q (ok []) = Costs-pure 0 _
    after_batch-Costs n q (ok (f ∷ fs)) = Costs-pure 0 _

    follow_analysis-Costs :
        (n : ℕ) (q : Progress) (plan : Result SqlGenError SqlPlan)
        → Costs μ (times 4 b) (follow_analysis kit cfg c n q plan)
    unfolding follow_analysis without_queries
    follow_analysis-Costs n q (err e) = Costs-more 0 _ (omega arith) (nudge-Costs n q _)
    follow_analysis-Costs n q (ok plan) =
        Costs-if _ _ _
          (Costs-more 0 _ (omega arith) (
            Costs-if _ _ _ (Costs-then 0 _ _ (p.emitting _ _) λ _. Costs-pure 0 _)
              (nudge-Costs n q _)))
          (Costs-more (times 4 b + 0) _ (omega arith) (
            Costs-bind (times 4 b) 0 _ _
              (run_queries-Costs kit cfg a b μ p c 4 (query_list plan.queries) [])
              λ r. after_batch-Costs n q r))

    analysis_round-Costs :
        (schema : SchemaMetadata) (n : ℕ) (q : Progress)
        → Costs μ (a + times 4 b) (analysis_round kit cfg c schema n q)
    unfolding analysis_round
    analysis_round-Costs schema n q =
        Costs-bind a (times 4 b) _ _ (p.calling _) λ raw. follow_analysis-Costs n _ _

    free_end : (r : AskResult) → Costs μ 0 (finalize kit cfg c r)
    free_end = finalize-Costs kit cfg a b μ p c

    conclude_analysis-Costs :
        (r : AskResult) (parts : Text × List Text) → Costs μ 0 (conclude_analysis kit cfg c r parts)
    unfolding conclude_analysis
    conclude_analysis-Costs r (insight, recs) =
        Costs-if _ _ _ (free_end _) (Costs-then 0 _ _ (p.emitting _ _) λ _. free_end _)

    analysis_attempts-Costs :
        (schema : SchemaMetadata) (left n : ℕ) (q : Progress)
        → Costs μ (times left (a + times 4 b) + a) (analysis_attempts kit cfg c schema left n q)
    unfolding analysis_attempts report_analysis times
    analysis_attempts-Costs schema zero n q = Costs-more 0 _ (omega arith) (free_end _)
    analysis_attempts-Costs schema (suc left) n q =
        Costs-more (a + times 4 b + (times left (a + times 4 b) + a)) _ (omega arith) (
          Costs-bind _ (times left (a + times 4 b) + a) _ _ (analysis_round-Costs schema n q)
            (elim [
              | again q' ↦ analysis_attempts-Costs schema left (n + 1) q'
              | found q' ↦
                  Costs-more (a + 0) _ (omega arith)
                    (Costs-bind a 0 _ _ (p.calling _) λ raw. conclude_analysis-Costs _ _)
              | prose r ↦ Costs-more 0 _ (omega arith) (free_end r)
            ]))

    answer-Costs :
        (schema : SchemaMetadata) (hit : Option Payload)
        → Costs μ (4 * a + 12 * b) (answer kit cfg c schema hit)
    unfolding answer answer_cached answer_fresh ask_analysis ask_plain times
    answer-Costs schema (some q) = Costs-more 0 _ (omega arith) (
        Costs-then 0 _ _ (p.clock kit.monotonic_ms)
          λ now. Costs-then 0 _ _ (p.emitting _ _) λ _. Costs-pure 0 _)
    answer-Costs schema none =
        Costs-if _ _ _
          (Costs-then _ _ _ (p.emitting _ _) λ _.
            Costs-more (times 3 (a + times 4 b) + a) _ (omega arith)
              (analysis_attempts-Costs schema max_attempts 1 _))
          (Costs-then _ _ _ (p.emitting _ _) λ _.
            Costs-more (times 3 (a + b) + (a + 0)) _ (omega arith) (
              Costs-bind (times 3 (a + b)) (a + 0) _ _
                (attempts-Costs kit cfg a b μ p c max_attempts 1 _)
                λ v. Costs-bind a 0 _ _ (conclude-Costs kit cfg a b μ p c _ _ v) λ r. free_end r))

  -- An `ask` costs at most four completions and twelve queries.
  pub ask-Costs :
      (question user role : Text) (streaming : Bool) (model : Option Text)
      → Costs μ (4 * a + 12 * b) (ask kit cfg question user role streaming model)
  unfolding ask read_cache
  ask-Costs question user role streaming model = Costs-then _ _ _ (p.clock kit.monotonic_ms) λ t0.
      Costs-then _ _ _ p.looking_up λ schema. Costs-then _ _ _ (Costs-gets 0 _) λ version.
        Costs-then _ _ _
          (Costs-then 0 _ _ p.opening
            λ u. Costs-then 0 _ _ (p.clock kit.utc_us) λ now. Costs-gets 0 _)
          (λ hit. answer-Costs _ schema hit)
