-- ===== src/Pipeline/AuditTrail.antt =====
-- The audit log across an `ask` of pipeline.py.
use insightkit.Prelude.{
  ℕ, zero, suc, ◌+◌, ◌-◌, Bool, true, false, Option, none, some, List, ◌≡◌, refl, ◌∙◌, Text,
  if◌then◌else◌, Bool-cases, Option-cases, take, inl, inr, ◌⊎◌,
}
use mathlib.Core.Path.{subst}
use insightkit.Prelude.Result.{Result, ok, err}
use insightkit.Prelude.Action.{Steps, ◌>>=◌, ◌>>◌, pure, raise, resume, Steps-bind, Steps-gets}
use insightkit.Schema.{SchemaMetadata}
use insightkit.Audit.{AuditRow, append_row}
use insightkit.Guard.Pii.{mask_pii}
use insightkit.Pipeline.Types.{
  AskResult, Event, Failure, meta_failed, Config, Payload, payload_of, result_of,
}
use insightkit.Pipeline.Kit.{Kit, State, M, reading, emit, execute, use_meta}
use insightkit.Pipeline.Untouched.{
  IsAloof, aloof-reading, aloof-emit, aloof-call_model, aloof-refresh, aloof-get_schema,
  aloof-use_meta,
}
use insightkit.Pipeline.Attempts.{Call, unless_empty, max_attempts}
use insightkit.Pipeline.Finish.{finalize, record_audit, keep_answer, set_cached, is_kept, audit_row}
use insightkit.Pipeline.Analysis.{
  Progress, again, found, prose, conclude_analysis, report_analysis, analysis_attempts,
  ask_analysis,
}
use insightkit.Pipeline.Ask.{ask_plain, answer_cached, answer_fresh, answer, read_cache, ask}
use insightkit.Pipeline.Trace.{Respects, attempts-Steps, conclude-Steps}
use insightkit.Pipeline.Trace.Batches.{analysis_round-Steps}

-- The row says who asked and repeats the answer, with its SQL masked and its insight cut.
pub record IsRowFor (asker asker_role : Text) (r : AskResult) (row : AuditRow) : Type 0 where
  pub user : row.user ≡ asker
  pub role : row.role ≡ asker_role
  pub question : row.question ≡ r.question
  pub sql : row.sql ≡ unless_empty r.sql (mask_pii r.sql)
  pub result_summary : row.result_summary ≡ unless_empty r.insight (take 200 r.insight)
  pub latency_ms : row.latency_ms ≡ r.latency_ms
  pub tokens : row.tokens ≡ r.tokens
  pub model : row.model ≡ r.model
  pub status : row.status ≡ r.status
  pub error : row.error ≡ r.error

module _ (kit : Kit) (cfg : Config) where
  abbrev pub SameAudit : State kit → State kit → Type 0
  SameAudit s t = t.audit ≡ s.audit

  audit-IsAloof : IsAloof kit (λ s. s.audit)
  audit-IsAloof = record {
    world = λ s w. refl;
    events = λ s es. refl;
    schema = λ s m. refl;
    scanned = λ s qs. refl;
    stored = λ s m. refl;
  }

  pub loop-SameAudit : Respects kit cfg SameAudit
  unfolding execute
  loop-SameAudit = record {
    order = record { same = λ s. refl; after = λ s t u e f. f ∙ e };
    emitting = λ b e. record { run = aloof-emit kit _ audit-IsAloof b e };
    calling = λ n req. record { run = aloof-call_model kit _ audit-IsAloof (λ s w n. refl) n req };
    executing = λ q g. record { run = λ s. refl };
    refreshing = record { run = aloof-refresh kit _ audit-IsAloof };
  }

  -- One row was added to `rows`, and it is for this answer.
  abbrev pub IsLogged : Text → Text → AskResult → List AuditRow → State kit → Type 0
  IsLogged user role r rows t =
      (row : AuditRow) × IsRowFor user role r row × (t.audit ≡ append_row row rows)

  abbrev pub AuditedBy : Text → Text → List AuditRow → Result Failure AskResult × State kit → Type 0
  AuditedBy user role rows (err e, t) =
      (t.audit ≡ rows) ⊎ (e ≡ meta_failed) × (r : AskResult) × IsLogged user role r rows t
  AuditedBy user role rows (ok r, t) =
      ((r.cached ≡ true) × (t.audit ≡ rows)) ⊎ IsLogged user role r rows t

  pub record Audits (user role : Text) (m : M kit AskResult) : Type 0 where
    pub run : (s : State kit) → AuditedBy user role s.audit (m s)

  module _ (user role : Text) where
    -- Steps that leave the audit log alone may come before.
    after_quiet :
        {A : Type 0} (f : A → M kit AskResult)
        → ((a : A) → Audits user role (f a))
        → (s : State kit) (x : Result Failure A × State kit) → SameAudit s x.1
        → AuditedBy user role s.audit (resume f x)
    after_quiet f h s (err e, t) q = inl q
    after_quiet f h s (ok a, t) q = subst (λ rows. AuditedBy user role rows (f a t)) q ((h a).run t)

    pub Audits-bind :
        {A : Type 0} (m : M kit A) (f : A → M kit AskResult)
        → Steps SameAudit m
        → ((a : A) → Audits user role (f a))
        → Audits user role (m >>= f)
    unfolding ◌>>=◌
    Audits-bind m f q h = record { run = λ s. after_quiet f h s (m s) (q.run s) }

    Audits-if :
        (b : Bool) (m n : M kit AskResult)
        → Audits user role m
        → Audits user role n
        → Audits user role (if b then m else n)
    Audits-if true m n h k = h
    Audits-if false m n h k = k

  reading-Same : {A : Type 0} (f : kit.World → A × kit.World) → Steps SameAudit (reading kit f)
  reading-Same f = record { run = aloof-reading kit _ audit-IsAloof f }

  module _ (writable : (w : kit.World) → (kit.audit_writable w).0 ≡ true) (c : Call) where
    logged_end :
        (row : AuditRow) (rows : List AuditRow) (streaming : Bool) (e : Event) (r : AskResult)
        (s : State kit)
        → IsRowFor c.user c.role r row
        → s.audit ≡ append_row row rows
        → AuditedBy c.user c.role rows ((emit kit streaming e >> pure r) s)
    unfolding emit pure ◌>>=◌
    logged_end row rows true e r s i h = inr (row, i, h)
    logged_end row rows false e r s i h = inr (row, i, h)

    -- The row is there; keeping the answer may still fail.
    logged :
        (row : AuditRow) (rows : List AuditRow) (kept streaming : Bool) (e : Event) (r : AskResult)
        (s : State kit)
        → IsRowFor c.user c.role r row
        → s.audit ≡ append_row row rows
        → AuditedBy c.user c.role rows (
            ((if kept then keep_answer kit cfg c r else pure tt)
                >> (emit kit streaming e >> pure r))
              s)
    unfolding keep_answer set_cached use_meta reading pure raise ◌>>=◌
    logged row rows false streaming e r s i h = logged_end row rows streaming e r s i h
    logged row rows true streaming e r s i h = elim (Option-cases (kit.encode (payload_of r))) [
      | inl k ↦ rw k (logged_end row rows streaming e r _ i h)
      | inr (encoded, k) ↦ elim (Bool-cases (kit.meta_ready (kit.utc_us s.world).1).0) [
        | inl on ↦ rw (k, on) (logged_end row rows streaming e r _ i h)
        | inr off ↦ rw (k, off) (inr (refl, r, (row, i, h)))
      ]
    ]

    audit_row-IsRowFor :
        (ts : Text) (r : AskResult) → IsRowFor c.user c.role r (audit_row kit cfg c ts r)
    audit_row-IsRowFor ts r = record {
      user = refl;
      role = refl;
      question = refl;
      sql = refl;
      result_summary = refl;
      latency_ms = refl;
      tokens = refl;
      model = refl;
      status = refl;
      error = refl;
    }

    finalize-Audits : (a : AskResult) → Audits c.user c.role (finalize kit cfg c a)
    unfolding finalize record_audit reading ◌>>=◌
    finalize-Audits a = record {
      run = λ s. rw writable (
          logged
            (audit_row kit cfg c (kit.isoformat (kit.utc_us (kit.monotonic_ms s.world).1).0)
              (record a { latency_ms = (kit.monotonic_ms s.world).0 - c.started }))
            s.audit
            (is_kept kit cfg c (record a { latency_ms = (kit.monotonic_ms s.world).0 - c.started }))
            c.streaming _ _ _ (audit_row-IsRowFor _ _) refl);
    }

    conclude_analysis-Audits :
        (a : AskResult) (parts : Text × List Text)
        → Audits c.user c.role (conclude_analysis kit cfg c a parts)
    unfolding conclude_analysis
    conclude_analysis-Audits a (insight, recs) =
        Audits-if c.user c.role _ _ _ (finalize-Audits _)
          (Audits-bind c.user c.role _ _ (loop-SameAudit.emitting _ _) λ _. finalize-Audits _)

    analysis_attempts-Audits :
        (schema : SchemaMetadata) (left n : ℕ) (p : Progress)
        → Audits c.user c.role (analysis_attempts kit cfg c schema left n p)
    unfolding analysis_attempts report_analysis
    analysis_attempts-Audits schema zero n p = finalize-Audits _
    analysis_attempts-Audits schema (suc left) n p =
        Audits-bind c.user c.role _ _
          (analysis_round-Steps kit cfg SameAudit loop-SameAudit c schema n p)
          (elim [
            | again q ↦ analysis_attempts-Audits schema left (n + 1) q
            | found q ↦
                Audits-bind c.user c.role _ _ (loop-SameAudit.calling _ _)
                  λ raw. conclude_analysis-Audits _ _
            | prose a ↦ finalize-Audits a
          ])

    answer_cached-Audits : (p : Payload) → Audits c.user c.role (answer_cached kit cfg c p)
    unfolding answer_cached reading emit pure ◌>>=◌ result_of
    answer_cached-Audits p = record {
      run = λ s. elim (Bool-cases c.streaming) [
        | inl on ↦ rw on (inl (refl, refl))
        | inr off ↦ rw off (inl (refl, refl))
      ];
    }

    answer-Audits :
        (schema : SchemaMetadata) (hit : Option Payload)
        → Audits c.user c.role (answer kit cfg c schema hit)
    unfolding answer answer_fresh ask_analysis ask_plain
    answer-Audits schema (some p) = answer_cached-Audits p
    answer-Audits schema none =
        Audits-if c.user c.role _ _ _
          (Audits-bind c.user c.role _ _ (loop-SameAudit.emitting _ _)
            λ _. analysis_attempts-Audits schema max_attempts 1 _)
          (Audits-bind c.user c.role _ _ (loop-SameAudit.emitting _ _) λ _.
            Audits-bind c.user c.role _ _
              (attempts-Steps kit cfg SameAudit loop-SameAudit c max_attempts 1 _)
              λ v.
                Audits-bind c.user c.role _ _
                  (conclude-Steps kit cfg SameAudit loop-SameAudit c _ _ v) λ a. finalize-Audits a)

  module _ (writable : (w : kit.World) → (kit.audit_writable w).0 ≡ true) where
    -- Where the audit log can be written, an `ask` that returns an answer not marked as cached has
    -- added exactly one row, which names the user and the role and repeats the answer, its SQL masked
    -- and its insight cut to 200 characters; one whose answer is marked as cached leaves the log as
    -- it was; and so does one that raises, unless it raises because the meta database fails, when it
    -- may have added one such row for an answer that it does not return.
    pub ask-Audits :
        (question user role : Text) (streaming : Bool) (model : Option Text)
        → Audits user role (ask kit cfg question user role streaming model)
    unfolding ask read_cache
    ask-Audits question user role streaming model =
        Audits-bind user role _ _ (reading-Same kit.monotonic_ms) λ t0.
          Audits-bind user role _ _ (record { run = aloof-get_schema kit _ audit-IsAloof })
            λ schema. Audits-bind user role _ _ (Steps-gets loop-SameAudit.order _) λ version.
              Audits-bind user role _ _
                (Steps-bind loop-SameAudit.order _ _ (aloof-use_meta kit _ audit-IsAloof) λ u.
                  Steps-bind loop-SameAudit.order _ _ (reading-Same kit.utc_us)
                    λ now. Steps-gets loop-SameAudit.order _)
                (λ hit. answer-Audits writable _ schema hit)
