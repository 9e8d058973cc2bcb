-- ===== src/Pipeline/Safety.antt =====
-- `backend.execute` is given nothing but what the guard let through.
use insightkit.Prelude.{Bool, false, Option, List, [], ◌∷◌, ◌++◌, ◌≡◌, refl, Text, All, arith}
use mathlib.Core.Path.{subst, sym}
use insightkit.Prelude.Action.{Steps, IsPreorder, ◌>>=◌}
use insightkit.Guard.Validate.{IsSafe, validate-IsSafe}
use insightkit.Pipeline.Types.{AskResult, Config}
use insightkit.Pipeline.Kit.{
  Kit, State, reading, emit, call_model, execute, refresh_schema, get_schema, use_meta,
}
use insightkit.Pipeline.Untouched.{
  aloof-reading, aloof-emit, aloof-call_model, aloof-refresh, aloof-get_schema, aloof-use_meta,
  aloof-keep_answer,
}
use insightkit.Pipeline.Attempts.{Call, guard}
use insightkit.Pipeline.Finish.{record_audit, keep_answer}
use insightkit.Pipeline.Ask.{ask}
use insightkit.Pipeline.Sources.{queries-IsAloof}
use insightkit.Pipeline.Trace.{Respects, IsGuarded}
use insightkit.Pipeline.Trace.Whole.{RespectsAll, ask-Steps}

module _ (kit : Kit) (cfg : Config) where
  -- Every query given to `backend.execute` so far came out of the guard.
  abbrev pub AllGuarded : State kit → Type 0
  AllGuarded s = All (IsGuarded kit cfg) s.executed

  abbrev Keeps : State kit → State kit → Type 0
  Keeps s t = AllGuarded s → AllGuarded t

  All-snoc :
      (qs : List Text) (q : Text)
      → All (IsGuarded kit cfg) qs
      → IsGuarded kit cfg q
      → All (IsGuarded kit cfg) (qs ++ q ∷ [])
  All-snoc [] q h g = (g, tt)
  All-snoc (p ∷ qs) q h g = (h.0, All-snoc qs q h.1 g)

  same_queries : (s t : State kit) → t.executed ≡ s.executed → Keeps s t
  same_queries s t e h = subst (All (IsGuarded kit cfg)) (sym e) h

  order-Keeps : IsPreorder Keeps
  order-Keeps = record { same = λ s h. h; after = λ s t u f g h. g (f h) }

  loop-Keeps : Respects kit cfg Keeps
  unfolding execute
  loop-Keeps = record {
    order = order-Keeps;
    emitting = λ b e. record {
      run = λ s. same_queries s (emit kit b e s).1 (aloof-emit kit _ (queries-IsAloof kit) b e s);
    };
    calling = λ n req. record {
      run = λ s.
          same_queries s (call_model kit n req s).1
            (aloof-call_model kit _ (queries-IsAloof kit) (λ s w n. refl) n req s);
    };
    executing = λ q g. record { run = λ s h. All-snoc s.executed q h g };
    refreshing = record {
      run = λ s.
          same_queries s (refresh_schema kit s).1 (aloof-refresh kit _ (queries-IsAloof kit) s);
    };
  }

  auditing-Keeps : (c : Call) (r : AskResult) → Steps Keeps (record_audit kit cfg c r)
  unfolding record_audit reading ◌>>=◌
  auditing-Keeps c r = record {
    run = λ s. same_queries s (record_audit kit cfg c r s).1 (ground arith);
  }

  caching-Keeps : (c : Call) (r : AskResult) → Steps Keeps (keep_answer kit cfg c r)
  caching-Keeps c r = record {
    run = λ s.
        same_queries s (keep_answer kit cfg c r s).1
          ((aloof-keep_answer kit _ (queries-IsAloof kit) (λ s rows. refl) cfg c r).run s);
  }

  all-Keeps : RespectsAll kit cfg Keeps
  all-Keeps = record {
    loop = loop-Keeps;
    clock = λ f. record {
      run = λ s. same_queries s (reading kit f s).1 (aloof-reading kit _ (queries-IsAloof kit) f s);
    };
    auditing = auditing-Keeps;
    caching = caching-Keeps;
    opening = record {
      run = λ s.
          same_queries s (use_meta kit s).1 ((aloof-use_meta kit _ (queries-IsAloof kit)).run s);
    };
    looking_up = record {
      run =
          λ s. same_queries s (get_schema kit s).1 (aloof-get_schema kit _ (queries-IsAloof kit) s);
    };
  }

  -- Whatever the model answers and however the database behaves, in the plain flow and in the
  -- analysis, every query that an `ask` gives to `backend.execute` is a result of the guard; this
  -- holds too when the `ask` raises. The queries of the introspection are not among them.
  pub ask-AllGuarded :
      (question user role : Text) (streaming : Bool) (model : Option Text) (s : State kit)
      → AllGuarded s
      → AllGuarded (ask kit cfg question user role streaming model s).1
  ask-AllGuarded question user role streaming model =
      (ask-Steps kit cfg Keeps all-Keeps question user role streaming model).run

  -- The query is what the guard makes of some text, under the configured limit and blocked tables.
  abbrev pub IsSafeText : Text → Type 0
  IsSafeText q = (raw : Text) × IsSafe raw cfg.row_limit cfg.forbidden_tables q

  module _ (sql_backend : kit.is_mongo ≡ false) where
    safe_of_guarded : (q : Text) → IsGuarded kit cfg q → IsSafeText q
    unfolding guard
    safe_of_guarded q (raw, g) =
        (raw, validate-IsSafe raw cfg.row_limit cfg.forbidden_tables q (rw sql_backend at g))

    All-safe : (qs : List Text) → All (IsGuarded kit cfg) qs → All IsSafeText qs
    All-safe [] h = tt
    All-safe (q ∷ qs) h = (safe_of_guarded q h.0, All-safe qs h.1)

    -- On a SQL backend, from a state in which nothing was executed, every query that an `ask` gives to
    -- `backend.execute` comes from the only statement of some text, which is read-only and in which
    -- the table check finds no blocked table, and ends in a LIMIT clause as Python reads it, within
    -- the row limit, which is a plain LIMIT clause where the query is ASCII. The queries of the
    -- introspection are not among them.
    pub ask-AllSafe :
        (question user role : Text) (streaming : Bool) (model : Option Text) (s : State kit)
        → s.executed ≡ []
        → All IsSafeText (ask kit cfg question user role streaming model s).1.executed
    ask-AllSafe question user role streaming model s e = All-safe _ (
        ask-AllGuarded question user role streaming model s
          (subst (All (IsGuarded kit cfg)) (sym e) tt))
