-- ===== src/Pipeline/Sources/Answer.antt =====
-- The answer of the plain flow of pipeline.py, against what the database returned.
use insightkit.Prelude.{
  Option, none, some, List, [], ◌∷◌, ◌≡◌, refl, inl, inr, Text, length, Bool-cases, ◌∙◌,
}
use mathlib.Core.Path.{subst}
use insightkit.Prelude.Result.{ok}
use insightkit.Prelude.Action.{pure, Steps, IsPreorder, Steps-pure, Steps-if, Steps-bind, ◌>>=◌}
use insightkit.Prelude.Ensures.{Ensures, After, Ensures-pure, Ensures-bind, Ensures-quiet}
use insightkit.Schema.{SchemaMetadata}
use insightkit.Audit.{Status, ok_status, no_data_status, error_status}
use insightkit.Pipeline.Types.{Frame, AskResult, Config, rows_for_output}
use insightkit.Pipeline.Kit.{Kit, State, M, reading}
use insightkit.Pipeline.Untouched.{aloof-keep_answer, aloof-reading}
use insightkit.Pipeline.Attempts.{Vars, Call, max_attempts}
use insightkit.Pipeline.Finish.{
  explain, emit_chart, report, report_no_data, conclude, record_audit, keep_answer, finalize,
}
use insightkit.Pipeline.Ask.{ask_plain}
use insightkit.Pipeline.Sources.{
  SameQueries, queries-IsAloof, emit-SameQueries, call_model-SameQueries, Returned, IsLast,
  LoopEnded, Anything, attempts-Ends, after_any,
}

module _ (kit : Kit) where
  -- The SQL of the answer is the last query sent, and its rows are the output form of the frame
  -- that the database returned for it.
  pub record IsBacked (r : AskResult) (sent : List Text) : Type 0 where
    pub df : Frame
    pub returned : Returned kit r.sql df
    pub is_last : IsLast kit r.sql sent
    pub rows : r.rows ≡ some (rows_for_output df)
    pub row_count : r.row_count ≡ length df.rows

  abbrev pub BackedIfOk : AskResult → State kit → Type 0
  BackedIfOk r t = r.status ≡ ok_status → IsBacked r t.executed

  order : IsPreorder (SameQueries kit)
  order = record { same = λ s. refl; after = λ s t u e f. f ∙ e }

  -- A step that sends no query, before an action that ends well.
  quietly :
      {A B : Type 0} (F : List Text → Type 0) (Q : B → State kit → Type 0) (m : M kit A)
      (f : A → M kit B)
      → Steps (SameQueries kit) m
      → ((a : A) → Ensures (λ s. F s.executed) (f a) Q)
      → Ensures (λ s. F s.executed) (m >>= f) Q
  quietly F Q m f q h =
      Ensures-bind (λ s. F s.executed) (λ a s. F s.executed) Q m f
        (Ensures-quiet (λ s. s.executed) F m q) h

  module _ (cfg : Config) (c : Call) where
    explain-SameQueries : (df : Frame) → Steps (SameQueries kit) (explain kit cfg c df)
    unfolding explain
    explain-SameQueries df =
        Steps-if _ _ _ (Steps-pure order _)
          (Steps-bind order _ _ (call_model-SameQueries kit _ _) λ raw. Steps-pure order _)

    emit_chart-SameQueries :
        (chart : Option Text) → Steps (SameQueries kit) (emit_chart kit cfg c chart)
    unfolding emit_chart
    emit_chart-SameQueries none = Steps-pure order tt
    emit_chart-SameQueries (some []) = Steps-pure order tt
    emit_chart-SameQueries (some (x ∷ xs)) = emit-SameQueries kit _ _

    report-IsBacked :
        (v : Vars) (df : Frame)
        → Returned kit v.result.sql df
        → Ensures (λ s. IsLast kit v.result.sql s.executed) (report kit cfg c v df) BackedIfOk
    unfolding report
    report-IsBacked v df h =
        let F = IsLast kit v.result.sql in
        quietly F BackedIfOk _ _ (emit-SameQueries kit _ _) λ u.
          quietly F BackedIfOk _ _ (explain-SameQueries df) λ insight.
            quietly F BackedIfOk _ _ (emit-SameQueries kit _ _) λ u'.
              quietly F BackedIfOk _ _ (emit_chart-SameQueries _) λ u''. Ensures-pure _ λ s l e.
                record { df = df; returned = h; is_last = l; rows = refl; row_count = refl }

    report_no_data-IsBacked :
        (v : Vars)
        → v.result.status ≡ no_data_status
        → Ensures (Anything kit) (report_no_data kit cfg c v) BackedIfOk
    unfolding report_no_data
    report_no_data-IsBacked v h =
        after_any kit BackedIfOk _ _ λ u. Ensures-pure _ (λ s p e. absurd (cc))

    -- From the end of the loop on.
    conclude-IsBacked :
        (v : Vars)
        → Ensures (LoopEnded kit cfg c v) (conclude kit cfg c v.result.status v.df v) BackedIfOk
    unfolding conclude pure
    conclude-IsBacked v = record { run = λ s. concluded s v.result.status v.df refl refl }
      where
        concluded :
            (s : State kit) (st : Status) (df : Option Frame)
            → v.result.status ≡ st
            → v.df ≡ df
            → LoopEnded kit cfg c v s
            → After BackedIfOk (conclude kit cfg c st df v s)
        concluded s error_status df e f p = λ q. absurd (cc)
        concluded s no_data_status df e f p = (report_no_data-IsBacked v e).run s tt
        concluded s ok_status df e f (inl h) = absurd (cc)
        concluded s ok_status df e f (inr (inl h)) = absurd (cc)
        concluded s ok_status none e f (inr (inr (h, i))) =
            let k : v.df ≡ some i.df = i.kept in absurd (cc)
        concluded s ok_status (some df) e f (inr (inr (h, i))) =
            let k : v.df ≡ some i.df = i.kept in
            (report-IsBacked v df (subst (Returned kit v.result.sql) (cc) i.returned)).run s
              i.is_last

    record_audit-SameQueries : (r : AskResult) → Steps (SameQueries kit) (record_audit kit cfg c r)
    unfolding record_audit reading ◌>>=◌
    record_audit-SameQueries r = record {
      run = λ s. elim (Bool-cases (kit.audit_writable (kit.utc_us s.world).1).0) [
        | inl on ↦ rw on
        | inr off ↦ rw off
      ];
    }

    keep_answer-SameQueries : (r : AskResult) → Steps (SameQueries kit) (keep_answer kit cfg c r)
    keep_answer-SameQueries r =
        aloof-keep_answer kit _ (queries-IsAloof kit) (λ s rows. refl) cfg c r

    finalize-IsBacked : (r : AskResult) → Ensures (BackedIfOk r) (finalize kit cfg c r) BackedIfOk
    unfolding finalize
    finalize-IsBacked r =
        let F : List Text → Type 0 = λ sent. r.status ≡ ok_status → IsBacked r sent in
        quietly F BackedIfOk _ _
          (record { run = aloof-reading kit _ (queries-IsAloof kit) kit.monotonic_ms })
          λ now. quietly F BackedIfOk _ _ (record_audit-SameQueries _) λ u.
            quietly F BackedIfOk _ _
              (Steps-if _ _ _ (keep_answer-SameQueries _) (Steps-pure order tt))
              λ u'. quietly F BackedIfOk _ _ (emit-SameQueries kit _ _) λ u''.
                Ensures-pure _ λ s h e.
                  let b = h e in
                  record {
                    df = b.df;
                    returned = b.returned;
                    is_last = b.is_last;
                    rows = b.rows;
                    row_count = b.row_count;
                  }

    -- When the plain flow returns an answer of status ok, the SQL of the answer is the last query
    -- that was sent, the database returned a frame for it, and the rows and the row count of the
    -- answer are those of that frame, the rows in their masked and shortened form.
    pub ask_plain-IsBacked :
        (schema : SchemaMetadata) (s t : State kit) (r : AskResult)
        → ask_plain kit cfg c schema s ≡ (ok r, t)
        → r.status ≡ ok_status
        → IsBacked r t.executed
    unfolding ask_plain
    ask_plain-IsBacked schema s t r e = subst (After BackedIfOk) e (whole.run s tt)
      where
        whole : Ensures (Anything kit) (ask_plain kit cfg c schema) BackedIfOk
        whole = after_any kit BackedIfOk _ _ λ u.
            Ensures-bind (Anything kit) (LoopEnded kit cfg c) BackedIfOk _ _
              (attempts-Ends kit cfg c max_attempts 1 _ refl)
              λ v.
                Ensures-bind (LoopEnded kit cfg c v) BackedIfOk BackedIfOk _ _ (conclude-IsBacked v)
                  λ a. finalize-IsBacked a
