-- ===== src/Pipeline/Repeat.antt =====
-- The cache across two questions to pipeline.py: a kept answer is given again.
use insightkit.Prelude.{
  ℕ, ◌+◌, ◌*◌, ◌-◌, ◌≤◌, Bool, true, false, some, ◌≡◌, refl, ◌∙◌, ap, inl, inr, Text, text_eq_refl,
  ltb, if◌then◌else◌, Bool-cases, arith,
}
use insightkit.Prelude.Result.{ok}
use insightkit.Prelude.Action.{pure, ◌>>=◌, ◌>>◌}
use insightkit.Schema.{SchemaMetadata}
use insightkit.Cache.Store
use insightkit.Cache.Store.{CacheTable}
use insightkit.Cache.Lifetime.{get-set}
use insightkit.Pipeline.Types.{AskResult, Event, Config, payload_of, result_of}
use insightkit.Pipeline.Kit.{Kit, State, reading, emit, use_meta}
use insightkit.Pipeline.Attempts.{Call}
use insightkit.Pipeline.Finish.{record_audit, keep_answer, set_cached, is_kept, finalize}
use insightkit.Pipeline.Ask.{answer, answer_cached}

module _ (kit : Kit) (cfg : Config) (c : Call) where
  -- The cache after the payload is set at the time `stored`.
  abbrev IsStored : ℕ → AskResult → CacheTable → CacheTable → Type 0
  IsStored stored r before after' =
      after' ≡ Store.set kit.encode kit.decode cfg.ttl_s stored c.key (payload_of r) before

  kept_latency :
      (r : AskResult) (m : ℕ)
      → is_kept kit cfg c r ≡ true
      → is_kept kit cfg c (record r { latency_ms = m }) ≡ true
  unfolding is_kept
  kept_latency r m h = h

  keep-IsStored :
      (r : AskResult) (streaming kept : Bool) (e : Event) (encoded : Text) (s : State kit)
      → kept ≡ true
      → kit.encode (payload_of r) ≡ some encoded
      → (kit.meta_ready (kit.utc_us s.world).1).0 ≡ true
      → IsStored
          (kit.utc_us s.world).0
          r
          s.cache
          (((if kept then keep_answer kit cfg c r else pure tt) >> (emit kit streaming e >> pure r))
            s).1.cache
  unfolding keep_answer set_cached use_meta reading emit pure ◌>>=◌
  keep-IsStored r true true e encoded s h k ready = rw (k, ready) refl
  keep-IsStored r false true e encoded s h k ready = rw (k, ready) refl
  keep-IsStored r streaming false e encoded s h k ready = absurd (cc)

  record_audit-cache :
      (r : AskResult) (s : State kit) → (record_audit kit cfg c r s).1.cache ≡ s.cache
  unfolding record_audit reading ◌>>=◌
  record_audit-cache r s = elim (Bool-cases (kit.audit_writable (kit.utc_us s.world).1).0) [
    | inl on ↦ rw on
    | inr off ↦ rw off
  ]

  -- The state in which `finalize` comes to the cache.
  abbrev timed : AskResult → State kit → AskResult
  timed r s = record r { latency_ms = (kit.monotonic_ms s.world).0 - c.started }

  abbrev audited : AskResult → State kit → State kit
  audited r s =
      (record_audit kit cfg c (timed r s) (record s { world = (kit.monotonic_ms s.world).1 })).1

  -- The time at which `finalize` stores the answer.
  abbrev pub stored_at : AskResult → State kit → ℕ
  stored_at r s = (kit.utc_us (audited r s).world).0

  -- Whether the meta database can be used then.
  abbrev pub ready_at : AskResult → State kit → Bool
  ready_at r s = (kit.meta_ready (kit.utc_us (audited r s).world).1).0

  finalize-IsStored :
      (r : AskResult) (s : State kit) (encoded : Text)
      → is_kept kit cfg c r ≡ true
      → kit.encode (payload_of r) ≡ some encoded
      → ready_at r s ≡ true
      → IsStored (stored_at r s) r s.cache (finalize kit cfg c r s).1.cache
  unfolding finalize record_audit reading ◌>>=◌ payload_of
  finalize-IsStored r s encoded h k ready =
      let r' = timed r s in
      keep-IsStored r' c.streaming (is_kept kit cfg c r')
        (Event.done r'.status r'.latency_ms r'.tokens r'.cached r'.row_count r'.error) encoded
        (audited r s) (kept_latency r r'.latency_ms h) k ready
      ∙ ap (Store.set kit.encode kit.decode cfg.ttl_s (stored_at r s) c.key (payload_of r'))
          (record_audit-cache r' (record s { world = (kit.monotonic_ms s.world).1 }))

  -- The answer is the other one, marked as cached.
  pub record Repeats (r again : AskResult) : Type 0 where
    pub sql : again.sql ≡ r.sql
    pub reasoning : again.reasoning ≡ r.reasoning
    pub insight : again.insight ≡ r.insight
    pub chart : again.chart ≡ r.chart
    pub rows : again.rows ≡ r.rows
    pub row_count : again.row_count ≡ r.row_count
    pub tokens : again.tokens ≡ r.tokens
    pub model : again.model ≡ r.model
    pub status : again.status ≡ r.status
    pub attempts : again.attempts ≡ r.attempts
    pub cached : again.cached ≡ true

  cached-Repeats :
      (r : AskResult) (s : State kit)
      → (again : AskResult) × ((answer_cached kit cfg c (payload_of r) s).0 ≡ ok again)
        × Repeats r again
  unfolding answer_cached reading emit pure ◌>>=◌ payload_of result_of
  cached-Repeats r s = (
    record (result_of c.question (payload_of r)) {
      latency_ms = (kit.monotonic_ms s.world).0 - c.started;
    },
    refl,
    record {
      sql = refl;
      reasoning = refl;
      insight = refl;
      chart = refl;
      rows = refl;
      row_count = refl;
      tokens = refl;
      model = refl;
      status = refl;
      attempts = refl;
      cached = refl;
    },
  )

  -- Where an answer is kept, its payload survives encoding and the meta database takes it, from the
  -- moment it was stored until
  -- the time to live is over, a question with the same key finds it: whatever the schema and the
  -- state are then, it is answered with the same content, marked as cached.
  pub finalize-Repeats :
      (r : AskResult) (s : State kit) (encoded : Text) (now : ℕ) (schema : SchemaMetadata)
      (t : State kit)
      → is_kept kit cfg c r ≡ true
      → kit.encode (payload_of r) ≡ some encoded
      → kit.decode encoded ≡ some (payload_of r)
      → ready_at r s ≡ true
      → now ≤ stored_at r s + cfg.ttl_s * 1_000_000
      → (again : AskResult) × ((answer kit cfg c schema
            (Store.get kit.encode kit.decode now c.key (finalize kit cfg c r s).1.cache)
            t).0
          ≡ ok again)
        × Repeats r again
  unfolding answer
  finalize-Repeats r s encoded now schema t h e d ready l =
      let fresh : ltb (stored_at r s + cfg.ttl_s * 1_000_000) now ≡ false = ground arith in
      let hit : Store.get kit.encode kit.decode now c.key (finalize kit cfg c r s).1.cache
          ≡ some (payload_of r) =
        rw
          (
            finalize-IsStored r s encoded h e ready,
            get-set kit.encode kit.decode cfg.ttl_s (stored_at r s) now c.key c.key (payload_of r)
                encoded s.cache e,
            text_eq_refl c.key,
            fresh,
          )
          d in
      rw hit (cached-Repeats r t)
