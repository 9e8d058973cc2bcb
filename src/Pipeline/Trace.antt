-- ===== src/Pipeline/Trace.antt =====
-- Every run of the pipeline is made of a few primitive steps: a relation that those respect holds
-- between the states before and after.
pub mod Batches
pub mod Whole
use insightkit.Prelude.{
  ℕ, zero, suc, ◌+◌, Bool, true, false, Option, none, some, List, [], ◌∷◌, ◌≡◌, refl, Text, text,
  if◌then◌else◌, is_empty, leb, take, length,
}
use insightkit.Prelude.Result.{Result, ok, err}
use insightkit.Prelude.Action.{
  Action, pure, raise, gets, ◌>>=◌, ◌>>◌, Steps, IsPreorder, Steps-pure, Steps-raise, Steps-gets,
  Steps-if, Steps-bind, step_rules,
}
use insightkit.Schema.{SchemaMetadata}
use insightkit.Audit.{Status, ok_status, no_data_status, error_status}
use insightkit.Guard.Sql.{GuardError}
use insightkit.Llm.SqlGen.{SqlPlan, SqlGenError}
use insightkit.Pipeline.Types.{
  Frame, AskResult, Event, Config, Outcome, frame, table_not_found, db_error, crash, Request,
  Failure, Payload,
}
use insightkit.Pipeline.Kit.{
  Kit, State, M, QueryResult, reading, emit, call_model, execute, refresh_schema, get_schema,
}
use insightkit.Pipeline.Attempts.{
  Vars, Call, Flow, continue', break', guard, retry, decline, after_execute, run_guarded,
  follow_plan, round, attempts,
}
use insightkit.Pipeline.Finish.{
  explain, emit_chart, report, report_no_data, conclude, record_audit, keep_answer, finalize,
}

-- `q` is what the guard made of some text.
abbrev pub IsGuarded : Kit → Config → Text → Type 0
IsGuarded kit cfg q = (raw : Text) × (guard kit cfg raw ≡ ok q)

-- The relation holds across each primitive step.
pub record Respects (kit : Kit) (cfg : Config) (R : State kit → State kit → Type 0) : Type 1 where
  pub order : IsPreorder R
  pub emitting : (b : Bool) (e : Event) → Steps R (emit kit b e)
  pub calling : (n : ℕ) (req : Request) → Steps R (call_model kit n req)
  pub executing : (q : Text) → IsGuarded kit cfg q → Steps R (execute kit q)
  pub refreshing : Steps R (refresh_schema kit)

module _ (kit : Kit) (cfg : Config) (R : State kit → State kit → Type 0) (r : Respects kit cfg R)
    (c : Call) where
  retry-Steps : (n : ℕ) (v : Vars) (e : Text) → Steps R (retry kit cfg c n v e)
  retry-Steps n v e = search (step_rules, r.order, r.emitting)

  decline-Steps : (n : ℕ) (v : Vars) (p : SqlPlan) → Steps R (decline kit cfg c n v p)
  unfolding decline
  decline-Steps n v p = search (step_rules, r.order, r.emitting)

  after_execute-Steps : (n : ℕ) (v : Vars) (o : Outcome) → Steps R (after_execute kit cfg c n v o)
  unfolding after_execute
  after_execute-Steps n v (frame df) = search (step_rules, r.order)
  after_execute-Steps n v (table_not_found e) =
      Steps-bind r.order _ _ (r.emitting _ _)
        (λ _. Steps-bind r.order _ _ r.refreshing (λ m. Steps-pure r.order _))
  after_execute-Steps n v (db_error e) = retry-Steps n v e
  after_execute-Steps n v (crash e) = search (step_rules, r.order)

  run_guarded-Steps :
      (n : ℕ) (v : Vars) (raw : Text) (g : Result GuardError Text)
      → guard kit cfg raw ≡ g
      → Steps R (run_guarded kit cfg c n v g)
  unfolding run_guarded
  run_guarded-Steps n v raw (err e) q = retry-Steps n v _
  run_guarded-Steps n v raw (ok sql) q =
      let sent = r.executing sql (raw, q) in
      Steps-bind r.order _ _ (r.emitting _ _)
        (λ _. Steps-bind r.order _ _ sent (λ o. after_execute-Steps n _ o))

  follow_plan-Steps :
      (n : ℕ) (v : Vars) (p : Result SqlGenError SqlPlan) → Steps R (follow_plan kit cfg c n v p)
  unfolding follow_plan
  follow_plan-Steps n v (err e) = retry-Steps n v _
  follow_plan-Steps n v (ok plan) =
      Steps-if _ _ _ (decline-Steps n _ plan)
        (run_guarded-Steps n _ plan.sql (guard kit cfg plan.sql) refl)

  round-Steps : (n : ℕ) (v : Vars) → Steps R (round kit cfg c n v)
  unfolding round
  round-Steps n v = Steps-bind r.order _ _ (r.calling _ _) (λ raw. follow_plan-Steps n _ _)

  pub attempts-Steps : (left n : ℕ) (v : Vars) → Steps R (attempts kit cfg c left n v)
  unfolding attempts
  attempts-Steps zero n v = Steps-pure r.order _
  attempts-Steps (suc left) n v =
      Steps-bind r.order _ _ (round-Steps n v)
        (elim [ continue' w ↦ attempts-Steps left (n + 1) w | break' w ↦ Steps-pure r.order w ])

  explain-Steps : (df : Frame) → Steps R (explain kit cfg c df)
  unfolding explain
  explain-Steps df =
      Steps-if _ _ _ (Steps-pure r.order _)
        (Steps-bind r.order _ _ (r.calling _ _) (λ raw. Steps-pure r.order _))

  emit_chart-Steps : (chart : Option Text) → Steps R (emit_chart kit cfg c chart)
  unfolding emit_chart
  emit_chart-Steps none = Steps-pure r.order tt
  emit_chart-Steps (some []) = Steps-pure r.order tt
  emit_chart-Steps (some (x ∷ xs)) = r.emitting _ _

  report-Steps : (v : Vars) (df : Frame) → Steps R (report kit cfg c v df)
  unfolding report
  report-Steps v df = Steps-bind r.order _ _ (r.emitting _ _) λ _.
      Steps-bind r.order _ _ (explain-Steps df) λ insight.
        Steps-bind r.order _ _ (r.emitting _ _)
          λ _. Steps-bind r.order _ _ (emit_chart-Steps _) λ _. Steps-pure r.order _

  report_no_data-Steps : (v : Vars) → Steps R (report_no_data kit cfg c v)
  unfolding report_no_data
  report_no_data-Steps v =
      Steps-bind r.order _ _ (Steps-if _ _ _ (Steps-pure r.order tt) (r.emitting _ _))
        λ _. Steps-pure r.order _

  pub conclude-Steps :
      (st : Status) (df : Option Frame) (v : Vars) → Steps R (conclude kit cfg c st df v)
  unfolding conclude
  conclude-Steps ok_status (some df) v = report-Steps v df
  conclude-Steps ok_status none v = Steps-pure r.order _
  conclude-Steps no_data_status df v = report_no_data-Steps v
  conclude-Steps error_status df v = Steps-pure r.order _
