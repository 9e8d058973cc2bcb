-- ===== src/Pipeline/Trace/Whole.antt =====
-- The same for `finalize`, the analysis and `ask` as a whole.
use insightkit.Prelude.{ℕ, zero, suc, ◌+◌, Bool, Option, none, some, List, Text}
use insightkit.Prelude.Action.{Steps, IsPreorder, Steps-pure, Steps-gets, Steps-if, Steps-bind}
use insightkit.Schema.{SchemaMetadata}
use insightkit.Pipeline.Types.{AskResult, Config, Payload}
use insightkit.Pipeline.Kit.{Kit, State, reading, use_meta, get_schema}
use insightkit.Pipeline.Attempts.{Call, max_attempts}
use insightkit.Pipeline.Finish.{finalize, record_audit, keep_answer}
use insightkit.Pipeline.Analysis.{
  Progress, again, found, prose, conclude_analysis, report_analysis, analysis_attempts,
  ask_analysis,
}
use insightkit.Pipeline.Ask.{ask_plain, answer_cached, answer_fresh, answer, read_cache, ask}
use insightkit.Pipeline.Trace.{Respects, attempts-Steps, conclude-Steps}
use insightkit.Pipeline.Trace.Batches.{analysis_round-Steps}

-- Besides the steps of the loop: the clocks, the schema, the audit row and the cache.
pub record RespectsAll (kit : Kit) (cfg : Config) (R : State kit → State kit → Type 0)
    : Type 1 where
  pub loop : Respects kit cfg R
  pub clock : (f : kit.World → ℕ × kit.World) → Steps R (reading kit f)
  pub auditing : (c : Call) (r : AskResult) → Steps R (record_audit kit cfg c r)
  pub caching : (c : Call) (r : AskResult) → Steps R (keep_answer kit cfg c r)
  pub looking_up : Steps R (get_schema kit)
  pub opening : Steps R (use_meta kit)

module _ (kit : Kit) (cfg : Config) (R : State kit → State kit → Type 0)
    (r : RespectsAll kit cfg R) where
  abbrev order : IsPreorder R
  order = r.loop.order

  module _ (c : Call) where
    finalize-Steps : (a : AskResult) → Steps R (finalize kit cfg c a)
    unfolding finalize
    finalize-Steps a = Steps-bind order _ _ (r.clock kit.monotonic_ms) λ now.
        Steps-bind order _ _ (r.auditing c _) λ _.
          Steps-bind order _ _ (Steps-if _ _ _ (r.caching c _) (Steps-pure order tt))
            λ _. Steps-bind order _ _ (r.loop.emitting _ _) λ _. Steps-pure order _

    conclude_analysis-Steps :
        (a : AskResult) (parts : Text × List Text) → Steps R (conclude_analysis kit cfg c a parts)
    unfolding conclude_analysis
    conclude_analysis-Steps a (insight, recs) =
        Steps-if _ _ _ (finalize-Steps _)
          (Steps-bind order _ _ (r.loop.emitting _ _) λ _. finalize-Steps _)

    analysis_attempts-Steps :
        (schema : SchemaMetadata) (left n : ℕ) (p : Progress)
        → Steps R (analysis_attempts kit cfg c schema left n p)
    unfolding analysis_attempts report_analysis
    analysis_attempts-Steps schema zero n p = finalize-Steps _
    analysis_attempts-Steps schema (suc left) n p =
        Steps-bind order _ _ (analysis_round-Steps kit cfg R r.loop c schema n p) (elim [
          | again q ↦ analysis_attempts-Steps schema left (n + 1) q
          | found q ↦ Steps-bind order _ _ (r.loop.calling _ _) λ raw. conclude_analysis-Steps _ _
          | prose a ↦ finalize-Steps a
        ])

    answer-Steps :
        (schema : SchemaMetadata) (hit : Option Payload) → Steps R (answer kit cfg c schema hit)
    unfolding answer answer_cached answer_fresh ask_analysis ask_plain
    answer-Steps schema (some p) =
        Steps-bind order _ _ (r.clock kit.monotonic_ms)
          λ now. Steps-bind order _ _ (r.loop.emitting _ _) λ _. Steps-pure order _
    answer-Steps schema none =
        Steps-if _ _ _
          (Steps-bind order _ _ (r.loop.emitting _ _)
            λ _. analysis_attempts-Steps schema max_attempts 1 _)
          (Steps-bind order _ _ (r.loop.emitting _ _) λ _.
            Steps-bind order _ _ (attempts-Steps kit cfg R r.loop c max_attempts 1 _) λ v.
              Steps-bind order _ _ (conclude-Steps kit cfg R r.loop c _ _ v) λ a. finalize-Steps a)

  -- A relation that every primitive step respects holds across a whole `ask`.
  pub ask-Steps :
      (question user role : Text) (streaming : Bool) (model : Option Text)
      → Steps R (ask kit cfg question user role streaming model)
  unfolding ask read_cache
  ask-Steps question user role streaming model =
      Steps-bind order _ _ (r.clock kit.monotonic_ms) λ t0.
        Steps-bind order _ _ r.looking_up λ schema.
          Steps-bind order _ _ (Steps-gets order _) λ version.
            Steps-bind order _ _
              (Steps-bind order _ _ r.opening
                λ u. Steps-bind order _ _ (r.clock kit.utc_us) λ now. Steps-gets order _)
              (λ hit. answer-Steps _ schema hit)
