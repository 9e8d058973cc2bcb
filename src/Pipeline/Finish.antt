-- ===== src/Pipeline/Finish.antt =====
-- The end of `InsightKit.ask` in pipeline.py: the insight, the audit row, the cache.
use insightkit.Prelude.{
  ℕ, ◌+◌, ◌-◌, ◌/◌, Bool, false, ◌||◌, Option, none, some, [], ◌∷◌, Text, text, if◌then◌else◌,
  is_empty, strip, length, take,
}
use insightkit.Prelude.Action.{pure, ◌>>=◌, ◌>>◌}
use insightkit.Prelude.Result.{ok}
use insightkit.Audit.{Status, ok_status, no_data_status, error_status, AuditRow, append_row}
use insightkit.Cache.Store
use insightkit.Cache.Store.{is_cacheable}
use insightkit.Guard.Pii.{mask_pii}
use insightkit.Pipeline.Types.{
  Frame, AskResult, Event, Config, Request, rows_for_output, payload_of,
}
use insightkit.Pipeline.Kit.{Kit, M, reading, emit, call_model, use_meta}
use insightkit.Pipeline.Attempts.{Vars, Call, unless_empty}

module _ (kit : Kit) (cfg : Config) (c : Call) where
  abbrev pub no_rows : Text
  no_rows =
      if cfg.indonesian
      then text "Tidak ada data untuk pertanyaan ini. Query tidak menghasilkan baris."
      else text "No data returned for this question. The query matched zero rows."

  abbrev pub explain_request : Frame → Request
  explain_request df = record {
    system = kit.explain_system;
    user = kit.explain_prompt c.question df;
    repair = none;
    json_mode = false;
    model = c.model;
    max_tokens = 600;
  }

  -- `stripped`, or the text for no rows
  abbrev pub or_no_rows : Text → Text
  or_no_rows [] = no_rows
  or_no_rows (x ∷ xs) = x ∷ xs

  -- `explain(self.cfg, question, df, …)` of llm/explain.py: without rows the model is not asked.
  unfoldable pub explain : Frame → M kit Text
  explain df =
      if is_empty df.rows
      then pure no_rows
      else (call_model kit cfg.max_retries (explain_request df) >>= λ raw.
          pure (or_no_rows (strip raw)))

  unfoldable pub emit_chart : Option Text → M kit (Unit {0})
  emit_chart none = pure tt
  emit_chart (some []) = pure tt
  emit_chart (some (x ∷ xs)) = emit kit c.streaming (Event.chart (x ∷ xs))

  abbrev pub with_rows : AskResult → Frame → AskResult
  with_rows r df = record r { row_count = length df.rows; rows = some (rows_for_output df) }

  -- `if result.status == "ok" and df is not None`
  unfoldable pub report : Vars → Frame → M kit AskResult
  report v df = do
    let r = with_rows v.result df
    emit kit c.streaming (Event.result df.columns r.rows r.row_count)
    insight ← explain df
    let r' = record r {
      insight = insight;
      chart = kit.build_chart df;
      tokens = v.tokens + length insight / 4;
    }
    emit kit c.streaming (Event.insight insight)
    emit_chart r'.chart
    pure r'

  -- `elif result.status == "no_data"`
  unfoldable pub report_no_data : Vars → M kit AskResult
  report_no_data v = do
    let r = record (v.result) { chart = none; tokens = v.tokens }
    if is_empty r.insight then pure tt else emit kit c.streaming (Event.insight r.insight)
    pure r

  unfoldable pub conclude : Status → Option Frame → Vars → M kit AskResult
  conclude ok_status (some df) v = report v df
  conclude ok_status none v = pure (record (v.result) { tokens = v.tokens })
  conclude no_data_status df v = report_no_data v
  conclude error_status df v = pure (record (v.result) { tokens = v.tokens })

  abbrev pub audit_row : Text → AskResult → AuditRow
  audit_row ts r = record {
    ts = ts;
    user = c.user;
    role = c.role;
    question = r.question;
    sql = unless_empty r.sql (mask_pii r.sql);
    result_summary = unless_empty r.insight (take 200 r.insight);
    latency_ms = r.latency_ms;
    tokens = r.tokens;
    model = r.model;
    status = r.status;
    error = r.error;
  }

  -- `self.audit.record(…)`, whose failure is suppressed
  unfoldable pub record_audit : AskResult → M kit (Unit {0})
  record_audit r = do
    now ← reading kit kit.utc_us
    writable ← reading kit kit.audit_writable
    λ s. (
      ok tt,
      if writable
          then record s { audit = append_row (audit_row (kit.isoformat now) r) s.audit }
          else s,
    )

  -- `status in ("ok", "no_data") and (not result.sql or is_cacheable(result.sql))`
  unfoldable pub is_kept : AskResult → Bool
  is_kept r = elim r.status [ error_status ↦ false | _ ↦ is_empty r.sql || is_cacheable r.sql ]

  -- What `cache.set` does with the encoded payload: nothing where it could not be encoded.
  unfoldable pub set_cached : AskResult → ℕ → Option Text → M kit (Unit {0})
  set_cached r now none = pure tt
  set_cached r now (some encoded) = use_meta kit >> λ s. (
    ok tt,
    record s { cache = Store.set kit.encode kit.decode cfg.ttl_s now c.key (payload_of r) s.cache },
  )

  -- `self.cache.set(…)`
  unfoldable pub keep_answer : AskResult → M kit (Unit {0})
  keep_answer r = reading kit kit.utc_us >>= λ now. set_cached r now (kit.encode (payload_of r))

  -- `_finalize`
  unfoldable pub finalize : AskResult → M kit AskResult
  finalize r0 = do
    now ← reading kit kit.monotonic_ms
    let r = record r0 { latency_ms = now - c.started }
    record_audit r
    if is_kept r then keep_answer r else pure tt
    emit kit c.streaming (Event.done r.status r.latency_ms r.tokens r.cached r.row_count r.error)
    pure r
