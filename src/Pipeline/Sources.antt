-- ===== src/Pipeline/Sources.antt =====
-- Where the rows come from that the plain flow of pipeline.py answers with.
pub mod Answer
use insightkit.Prelude.{
  ℕ, zero, suc, ◌+◌, Bool, true, false, Option, none, some, List, [], ◌∷◌, ◌++◌, ◌≡◌, refl, ◌⊎◌,
  inl, inr, Text, last?, if◌then◌else◌,
}
use insightkit.Prelude.Result.{Result, ok, err}
use insightkit.Prelude.Action.{Action, pure, raise, Steps, ◌>>=◌, ◌>>◌}
use insightkit.Prelude.Ensures.{
  Ensures, Ensures-pure, Ensures-raise, Ensures-if, Ensures-from, Ensures-bind, Ensures-any,
  Ensures-quiet,
}
use insightkit.Schema.{SchemaMetadata}
use insightkit.Audit.{Status, ok_status, no_data_status, error_status}
use insightkit.Guard.Sql.{GuardError}
use insightkit.Llm.SqlGen.{SqlPlan, SqlGenError}
use insightkit.Pipeline.Types.{
  Frame, AskResult, Event, Config, Outcome, frame, table_not_found, db_error, crash, Request,
  Failure,
}
use insightkit.Pipeline.Kit.{Kit, State, M, emit, call_model, execute, refresh_schema}
use insightkit.Pipeline.Untouched.{IsAloof, aloof-emit, aloof-call_model, aloof-refresh}
use insightkit.Pipeline.Attempts.{
  Vars, Call, Flow, continue', break', guard, retry, decline, after_execute, run_guarded,
  follow_plan, round, attempts,
}

module _ (kit : Kit) where
  abbrev pub SameQueries : State kit → State kit → Type 0
  SameQueries s t = t.executed ≡ s.executed

  pub queries-IsAloof : IsAloof kit (λ s. s.executed)
  queries-IsAloof = record {
    world = λ s w. refl;
    events = λ s es. refl;
    schema = λ s m. refl;
    scanned = λ s qs. refl;
    stored = λ s m. refl;
  }

  pub emit-SameQueries : (b : Bool) (e : Event) → Steps SameQueries (emit kit b e)
  emit-SameQueries b e = record { run = aloof-emit kit _ queries-IsAloof b e }

  pub call_model-SameQueries : (n : ℕ) (req : Request) → Steps SameQueries (call_model kit n req)
  call_model-SameQueries n req = record {
    run = aloof-call_model kit _ queries-IsAloof (λ s w k. refl) n req;
  }

  -- The frame is what the database returned for the query, in some state of the world, and the
  -- query is the last one sent.
  abbrev pub Returned : Text → Frame → Type 0
  Returned q df = (world : kit.World) × ((kit.run q world).0 ≡ frame df)

  abbrev pub IsLast : Text → List Text → Type 0
  IsLast q sent = last? sent ≡ some q

  pub record IsSourced (v : Vars) (sent : List Text) : Type 0 where
    pub df : Frame
    pub kept : v.df ≡ some df
    pub returned : Returned v.result.sql df
    pub is_last : IsLast v.result.sql sent

  -- The loop ended in a break: with an answer in prose, or with a frame.
  abbrev pub Ended : Vars → List Text → Type 0
  Ended v sent =
      (v.result.status ≡ no_data_status) ⊎ ((v.result.status ≡ ok_status) × IsSourced v sent)

  abbrev FlowEnded : Flow → State kit → Type 0
  FlowEnded (continue' v) t = v.result.status ≡ ok_status
  FlowEnded (break' v) t = Ended v t.executed

  abbrev Anything : State kit → Type 0
  Anything s = Unit

  last?-snoc : (xs : List Text) (x : Text) → last? (xs ++ x ∷ []) ≡ some x
  last?-snoc [] x = refl
  last?-snoc (y ∷ []) x = refl
  last?-snoc (y ∷ z ∷ xs) x = last?-snoc (z ∷ xs) x

  abbrev Sent : Text → Outcome → State kit → Type 0
  Sent q o t = ((world : kit.World) × ((kit.run q world).0 ≡ o)) × IsLast q t.executed

  execute-Sent : (q : Text) → Ensures Anything (execute kit q) (Sent q)
  unfolding execute
  execute-Sent q = record { run = λ s p. ((s.world, refl), last?-snoc s.executed q) }

  -- Nothing is asked of the first action.
  pub after_any :
      {A B : Type 0} (Q : B → State kit → Type 0) (m : M kit A) (f : A → M kit B)
      → ((a : A) → Ensures Anything (f a) Q)
      → Ensures Anything (m >>= f) Q
  after_any Q m f h = Ensures-bind Anything (λ a. Anything) Q m f (Ensures-any Anything m) h

  module _ (cfg : Config) (c : Call) where
    retry-Ends :
        (n : ℕ) (v : Vars) (e : Text)
        → v.result.status ≡ ok_status
        → Ensures Anything (retry kit cfg c n v e) FlowEnded
    retry-Ends n v e h = after_any FlowEnded _ _ λ u. Ensures-pure _ (λ s p. h)

    decline-Ends :
        (n : ℕ) (v : Vars) (plan : SqlPlan)
        → v.result.status ≡ ok_status
        → Ensures Anything (decline kit cfg c n v plan) FlowEnded
    unfolding decline
    decline-Ends n v plan h = Ensures-if _ _ _ (Ensures-pure _ (λ s p. inl refl)) (
        after_any FlowEnded _ _
          λ u. Ensures-if _ _ _ (Ensures-pure _ (λ s p. inl refl)) (Ensures-pure _ (λ s p. h)))

    after_execute-Ends :
        (n : ℕ) (v : Vars) (o : Outcome)
        → v.result.status ≡ ok_status
        → Ensures (Sent v.result.sql o) (after_execute kit cfg c n v o) FlowEnded
    unfolding after_execute
    after_execute-Ends n v (frame df) h =
        Ensures-pure _
          (λ s (r, l). inr (h, record { df = df; kept = refl; returned = r; is_last = l }))
    after_execute-Ends n v (table_not_found e) h =
        Ensures-from Anything _ (λ s p. tt)
          (after_any FlowEnded _ _ λ u. after_any FlowEnded _ _ λ m. Ensures-pure _ (λ s p. h))
    after_execute-Ends n v (db_error e) h = Ensures-from Anything _ (λ s p. tt) (retry-Ends n v e h)
    after_execute-Ends n v (crash e) h = Ensures-raise _

    run_guarded-Ends :
        (n : ℕ) (v : Vars) (g : Result GuardError Text)
        → v.result.status ≡ ok_status
        → Ensures Anything (run_guarded kit cfg c n v g) FlowEnded
    unfolding run_guarded
    run_guarded-Ends n v (err e) h = retry-Ends n v _ h
    run_guarded-Ends n v (ok sql) h = after_any FlowEnded _ _ λ u.
        Ensures-bind Anything (Sent sql) FlowEnded _ _ (execute-Sent sql)
          λ o. after_execute-Ends n _ o h

    follow_plan-Ends :
        (n : ℕ) (v : Vars) (r : Result SqlGenError SqlPlan)
        → v.result.status ≡ ok_status
        → Ensures Anything (follow_plan kit cfg c n v r) FlowEnded
    unfolding follow_plan
    follow_plan-Ends n v (err e) h = retry-Ends n v _ h
    follow_plan-Ends n v (ok plan) h =
        Ensures-if _ _ _ (decline-Ends n _ plan h) (run_guarded-Ends n _ (guard kit cfg plan.sql) h)

    round-Ends :
        (n : ℕ) (v : Vars)
        → v.result.status ≡ ok_status
        → Ensures Anything (round kit cfg c n v) FlowEnded
    unfolding round
    round-Ends n v h = after_any FlowEnded _ _ λ raw. follow_plan-Ends n _ _ h

    -- The loop gave up, or it ended in a break.
    abbrev pub LoopEnded : Vars → State kit → Type 0
    LoopEnded v t = (v.result.status ≡ error_status) ⊎ Ended v t.executed

    after_round :
        (left n : ℕ)
        → ((v : Vars)
            → v.result.status ≡ ok_status
            → Ensures Anything (attempts kit cfg c left n v) LoopEnded)
        → (flow : Flow)
        → Ensures
            (FlowEnded flow)
            (elim flow [ continue' w ↦ attempts kit cfg c left n w | break' w ↦ pure w ])
            LoopEnded
    after_round left n ih (continue' w) = record { run = λ s h. (ih w h).run s tt }
    after_round left n ih (break' w) = Ensures-pure _ (λ s p. inr p)

    -- A loop that starts with status ok gives up with status error, ends with an answer in prose,
    -- or ends with the frame that the database returned for the last query sent.
    pub attempts-Ends :
        (left n : ℕ) (v : Vars)
        → v.result.status ≡ ok_status
        → Ensures Anything (attempts kit cfg c left n v) LoopEnded
    unfolding attempts
    attempts-Ends zero n v h = Ensures-pure _ (λ s p. inl refl)
    attempts-Ends (suc left) n v h =
        Ensures-bind Anything FlowEnded LoopEnded _ _ (round-Ends n v h)
          (λ flow. after_round left (n + 1) (λ w. attempts-Ends left (n + 1) w) flow)
