-- ===== src/Backends/Mongo/Guarded.antt =====
-- The backend of MongoDB in db/backends.py on the queries that the guard of security/guard.py accepts.
use insightkit.Prelude.{ℕ, ◌<◌, Bool, true, false, List, [], ◌∷◌, ◌≡◌, refl, Text, text, is_empty}
use insightkit.Prelude.Result.{Result, ok}
use insightkit.Json.{Json, arr, str, Items, get-put}
use insightkit.Guard.Mongo.{check_query, any_limit}
use insightkit.Guard.MongoSafe.{AreReadOnly, IsSafeQuery, check_query-IsSafe}
use insightkit.Pipeline.Types.{Cell}
use insightkit.Backends.Mongo.{Aggregate, named, request_of, parsed, tabulated, loaded, execute}

named_text :
    (is_zero : Text → Bool) (collection : Text) (stages : Items)
    → is_empty collection ≡ false
    → named is_zero (str collection) stages ≡ ok (collection, stages)
unfolding named
named_text is_zero [] stages h = absurd (cc)
named_text is_zero (c ∷ cs) stages h = refl

-- The guard's query has the shape that the backend asks for.
parsed-safe :
    (is_zero : Text → Bool) (limit : ℕ) (query checked : Json)
    (safe : IsSafeQuery limit query checked)
    → parsed is_zero checked ≡ ok (safe.collection, safe.final)
unfolding parsed request_of
parsed-safe is_zero limit query checked safe =
    rw
      (
        safe.result,
        get-put (text "collection") (text "pipeline") (arr safe.final) safe.fields,
        get-put (text "pipeline") (text "pipeline") (arr safe.final) safe.fields,
        safe.named.0,
      )
      (named_text is_zero safe.collection safe.final safe.named.1)

module _ (repr : Json → Text) (dump : Cell → Text)
    (numeric : List Text → List (List (Text × Cell)) → List Text) (is_zero : Text → Bool)
    (loads : Text → Result Text Json) (aggregate : Text → Items → Aggregate) where
  loaded_reads :
      (q : Text) (j : Json) → loads q ≡ ok j → loaded dump numeric is_zero loads aggregate q ≡ ok j
  unfolding loaded
  loaded_reads q j h = rw (loaded, h) refl

  -- A text that reads back as a query that the guard accepted, under a positive row limit, is run by
  -- the backend, which sends one pipeline: its stages are read-only and one of them is a $limit.
  pub execute-check_query :
      (limit : ℕ) (query checked : Json) (q : Text)
      → 0 < limit
      → check_query repr limit query ≡ ok checked
      → loads q ≡ ok checked
      → (collection : Text) × (stages : Items) × AreReadOnly stages
        × (any_limit stages ≡ true)
        × (execute dump numeric is_zero loads aggregate q
            ≡ tabulated dump numeric (aggregate collection stages))
  unfolding execute
  execute-check_query limit query checked q positive h reads =
      let safe = check_query-IsSafe repr limit query checked h in
      (
        safe.collection,
        safe.final,
        safe.read_only,
        safe.limited positive,
        rw (loaded_reads q checked reads, parsed-safe is_zero limit query checked safe) refl,
      )
