-- ===== src/Pipeline/Trace/Batches.antt =====
-- The same for a round of the analysis.
use insightkit.Prelude.{ℕ, List, [], ◌∷◌, ◌≡◌, refl, Text}
use insightkit.Prelude.Result.{Result, ok, err}
use insightkit.Prelude.Action.{Steps, Steps-pure, Steps-raise, Steps-if, Steps-bind}
use insightkit.Schema.{SchemaMetadata}
use insightkit.Guard.Sql.{GuardError}
use insightkit.Llm.SqlGen.{SqlPlan, SqlGenError}
use insightkit.Pipeline.Types.{Config, Outcome, frame, table_not_found, db_error, crash}
use insightkit.Pipeline.Kit.{Kit, State, M, QueryResult}
use insightkit.Pipeline.Attempts.{Call, guard}
use insightkit.Pipeline.Analysis.{
  Progress, use_outcome, run_one, run_queries, nudge, after_batch, without_queries, follow_analysis,
  analysis_round,
}
use insightkit.Pipeline.Trace.{Respects}

module _ (kit : Kit) (cfg : Config) (R : State kit → State kit → Type 0) (r : Respects kit cfg R)
    (c : Call) where
  use_outcome-Steps :
      (q : Text) (rest : List QueryResult → M kit (Result Text (List QueryResult)))
      (frames : List QueryResult) (o : Outcome)
      → ((fs : List QueryResult) → Steps R (rest fs))
      → Steps R (use_outcome kit cfg c q rest frames o)
  unfolding use_outcome
  use_outcome-Steps q rest frames (frame df) h = h _
  use_outcome-Steps q rest frames (table_not_found e) h = Steps-pure r.order _
  use_outcome-Steps q rest frames (db_error e) h = Steps-pure r.order _
  use_outcome-Steps q rest frames (crash e) h = Steps-raise r.order _

  run_one-Steps :
      (q : Text) (rest : List QueryResult → M kit (Result Text (List QueryResult)))
      (frames : List QueryResult) (g : Result GuardError Text)
      → guard kit cfg q ≡ g
      → ((fs : List QueryResult) → Steps R (rest fs))
      → Steps R (run_one kit cfg c q rest frames g)
  unfolding run_one
  run_one-Steps q rest frames (err e) p h = Steps-pure r.order _
  run_one-Steps q rest frames (ok sql) p h =
      Steps-bind r.order _ _ (r.executing sql (q, p)) λ o. use_outcome-Steps q rest frames o h

  run_queries-Steps :
      (qs : List Text) (frames : List QueryResult) → Steps R (run_queries kit cfg c qs frames)
  unfolding run_queries
  run_queries-Steps [] frames = Steps-pure r.order _
  run_queries-Steps (q ∷ qs) frames =
      run_one-Steps q (run_queries kit cfg c qs) frames (guard kit cfg q) refl
        (λ fs. run_queries-Steps qs fs)

  nudge-Steps : (n : ℕ) (p : Progress) (e : Text) → Steps R (nudge kit cfg c n p e)
  nudge-Steps n p e = Steps-bind r.order _ _ (r.emitting _ _) λ _. Steps-pure r.order _

  after_batch-Steps :
      (n : ℕ) (p : Progress) (b : Result Text (List QueryResult))
      → Steps R (after_batch kit cfg c n p b)
  unfolding after_batch
  after_batch-Steps n p (err e) = nudge-Steps n (record p { frames = [] }) e
  after_batch-Steps n p (ok []) = Steps-pure r.order _
  after_batch-Steps n p (ok (f ∷ fs)) = Steps-pure r.order _

  follow_analysis-Steps :
      (n : ℕ) (p : Progress) (plan : Result SqlGenError SqlPlan)
      → Steps R (follow_analysis kit cfg c n p plan)
  unfolding follow_analysis without_queries
  follow_analysis-Steps n p (err e) = nudge-Steps n p _
  follow_analysis-Steps n p (ok plan) =
      Steps-if _ _ _
        (Steps-if _ _ _ (Steps-bind r.order _ _ (r.emitting _ _) λ _. Steps-pure r.order _)
          (nudge-Steps n p _))
        (Steps-bind r.order _ _ (run_queries-Steps _ []) λ b. after_batch-Steps n p b)

  -- A round of the analysis is made of the steps of the loop.
  pub analysis_round-Steps :
      (schema : SchemaMetadata) (n : ℕ) (p : Progress)
      → Steps R (analysis_round kit cfg c schema n p)
  unfolding analysis_round
  analysis_round-Steps schema n p =
      Steps-bind r.order _ _ (r.calling _ _) λ raw. follow_analysis-Steps n _ _
