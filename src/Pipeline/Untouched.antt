-- ===== src/Pipeline/Untouched.antt =====
-- What the primitive steps of the pipeline leave alone: a part of the state that depends on no
-- clock, no event and no schema.
use insightkit.Prelude.{ℕ, Bool, true, false, Option, none, some, List, ◌≡◌, refl, ◌∙◌, Text, ◌++◌}
use insightkit.Prelude.Result.{Result, ok, err}
use insightkit.Prelude.Action.{
  pure, raise, Steps, IsPreorder, Steps-pure, Steps-raise, Steps-if, Steps-bind,
}
use insightkit.Cache.Store.{CacheTable}
use insightkit.Pipeline.Attempts.{Call}
use insightkit.Pipeline.Finish.{keep_answer, set_cached}
use insightkit.Schema.{SchemaMetadata}
use insightkit.Llm.Client.{LlmError, Line}
use insightkit.Pipeline.Types.{Event, Request, AskResult, Config}
use insightkit.Pipeline.Kit.{
  Kit, State, reading, emit, end_call, call_model, use_meta, scan, end_scan, save, store, stored,
  loaded, adopt, refresh_schema, load_or_refresh, known_schema, get_schema, with_schema,
}

pub record IsAloof (kit : Kit) {X : Type 0} (f : State kit → X) : Type 0 where
  pub world : (s : State kit) (w : kit.World) → f (record s { world = w }) ≡ f s
  pub events : (s : State kit) (es : List Event) → f (record s { events = es }) ≡ f s
  pub schema : (s : State kit) (m : SchemaMetadata) → f (with_schema kit s m) ≡ f s
  pub scanned : (s : State kit) (qs : List Text) → f (record s { scanned = qs }) ≡ f s
  pub stored :
      (s : State kit) (m : Option SchemaMetadata) → f (record s { stored_schema = m }) ≡ f s

module _ (kit : Kit) {X : Type 0} (f : State kit → X) (a : IsAloof kit f) where
  pub aloof-reading :
      {A : Type 0} (g : kit.World → A × kit.World) (s : State kit) → f (reading kit g s).1 ≡ f s
  unfolding reading
  aloof-reading g s = a.world s (g s.world).1

  pub aloof-emit : (b : Bool) (e : Event) (s : State kit) → f (emit kit b e s).1 ≡ f s
  unfolding emit
  aloof-emit true e s = a.events s _
  aloof-emit false e s = refl

  -- So does a part that does not depend on the count of the calls.
  module _
      (line : (s : State kit) (w : kit.World) (n : ℕ)
        → f (record s { world = w; calls = n }) ≡ f s) where
    aloof-end_call :
        (s : State kit) (x : Result LlmError Text × Line kit.World) → f (end_call kit s x).1 ≡ f s
    unfolding end_call
    aloof-end_call s (ok raw, l) = line s l.world l.calls
    aloof-end_call s (err e, l) = line s l.world l.calls

    pub aloof-call_model :
        (n : ℕ) (req : Request) (s : State kit) → f (call_model kit n req s).1 ≡ f s
    unfolding call_model
    aloof-call_model n req s = aloof-end_call s _

  abbrev Same : State kit → State kit → Type 0
  Same s t = f t ≡ f s

  Same-IsPreorder : IsPreorder Same
  Same-IsPreorder = record { same = λ s. refl; after = λ s t u e g. g ∙ e }

  pub aloof-use_meta : Steps Same (use_meta kit)
  unfolding use_meta
  aloof-use_meta =
      Steps-bind Same-IsPreorder _ _ (record { run = aloof-reading kit.meta_ready })
        λ b. Steps-if b _ _ (Steps-pure Same-IsPreorder tt) (Steps-raise Same-IsPreorder _)

  aloof-end_scan : (r : Result Text SchemaMetadata) (s : State kit) → f (end_scan kit r s).1 ≡ f s
  unfolding end_scan pure raise
  aloof-end_scan (ok m) s = refl
  aloof-end_scan (err e) s = refl

  aloof-scan : Steps Same (scan kit)
  unfolding scan
  aloof-scan = record {
    run = λ s.
        let ((qs, r), w) = kit.introspect s.world in
        aloof-end_scan r (record s { world = w; scanned = s.scanned ++ qs })
        ∙ (a.scanned (record s { world = w }) _ ∙ a.world s w);
  }

  aloof-adopt : (m : SchemaMetadata) → Steps Same (adopt kit m)
  unfolding adopt
  aloof-adopt m = record { run = λ s. a.schema s m }

  aloof-save : (m : SchemaMetadata) → Steps Same (save kit m)
  unfolding save store
  aloof-save m =
      Steps-if kit.has_engine _ _
        (Steps-bind Same-IsPreorder _ _ aloof-use_meta λ u. record { run = λ s. a.stored s _ })
        (Steps-pure Same-IsPreorder tt)

  aloof-refreshing : Steps Same (refresh_schema kit)
  unfolding refresh_schema
  aloof-refreshing =
      Steps-bind Same-IsPreorder _ _ aloof-scan
        λ m. Steps-bind Same-IsPreorder _ _ (aloof-save m) λ u. aloof-adopt m

  aloof-load : (o : Option SchemaMetadata) → Steps Same (load_or_refresh kit o)
  unfolding load_or_refresh
  aloof-load none = aloof-refreshing
  aloof-load (some m) = aloof-adopt m

  aloof-loaded : Steps Same (loaded kit)
  unfolding loaded stored
  aloof-loaded =
      Steps-if kit.has_engine _ _
        (Steps-bind Same-IsPreorder _ _ aloof-use_meta λ u. record { run = λ s. refl })
        (Steps-pure Same-IsPreorder none)

  aloof-known : (o : Option SchemaMetadata) → Steps Same (known_schema kit o)
  unfolding known_schema
  aloof-known (some m) = Steps-pure Same-IsPreorder m
  aloof-known none = Steps-bind Same-IsPreorder _ _ aloof-loaded aloof-load

  pub aloof-refresh : (s : State kit) → f (refresh_schema kit s).1 ≡ f s
  aloof-refresh s = aloof-refreshing.run s

  pub aloof-get_schema : (s : State kit) → f (get_schema kit s).1 ≡ f s
  unfolding get_schema
  aloof-get_schema s = (aloof-known s.schema).run s

  -- So does a part that does not depend on the cache.
  module _
      (cached : (s : State kit) (rows : CacheTable) → f (record s { cache = rows }) ≡ f s) where
    aloof-set_cached :
        (cfg : Config) (c : Call) (r : AskResult) (now : ℕ) (o : Option Text)
        → Steps Same (set_cached kit cfg c r now o)
    unfolding set_cached
    aloof-set_cached cfg c r now none = Steps-pure Same-IsPreorder tt
    aloof-set_cached cfg c r now (some e) =
        Steps-bind Same-IsPreorder _ _ aloof-use_meta λ u. record { run = λ s. cached s _ }

    pub aloof-keep_answer :
        (cfg : Config) (c : Call) (r : AskResult) → Steps Same (keep_answer kit cfg c r)
    unfolding keep_answer
    aloof-keep_answer cfg c r =
        Steps-bind Same-IsPreorder _ _ (record { run = aloof-reading kit.utc_us })
          λ now. aloof-set_cached cfg c r now _
