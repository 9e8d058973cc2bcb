-- ===== src/Guard/MongoSafe.antt =====
-- What `validate_mongo` of security/guard.py lets through.
use insightkit.Prelude.{
  ℕ, ◌<◌, Bool, true, false, not, ◌&&◌, ltb, ◌∷◌, ◌≡◌, refl, Option, some, Text, text, arith,
  Bool-cases, Option-cases, inl, inr, is_empty,
}
use insightkit.Prelude.Result.{Result, ok, err, ◌>>=◌, >>=-eq-ok}
use insightkit.Json.{
  Json, null, bool, num, str, arr, obj, Items, nil, cons, Fields, end, field, get, put, append,
  all_keys,
}
use insightkit.Guard.Sql.{GuardError}
use insightkit.Guard.Mongo.{
  has_forbidden, check_stage, check_stage_keys, check_stages, with_limit, check_pipeline,
  check_query, decoded, validate_mongo, any_limit, limit_stage,
}
use insightkit.Guard.MongoKeys.{allowed, has_forbidden_iff}

abbrev is_stage : Json → Bool
is_stage (obj (field k v fs)) = true
is_stage _ = false

-- Every stage is an object with a key, and no key in it is forbidden at any depth.
abbrev pub AreReadOnly : Items → Type 0
AreReadOnly nil = Unit
AreReadOnly (cons s ss) = (is_stage s ≡ true) × (allowed (all_keys s) ≡ true) × AreReadOnly ss

abbrev ok_unit : Result GuardError (Unit {0})
ok_unit = ok tt

limit_stage-allowed : (limit : ℕ) → allowed (all_keys (limit_stage limit)) ≡ true
unfolding all_keys
limit_stage-allowed limit = refl

append-AreReadOnly :
    (ss : Items) (limit : ℕ) → AreReadOnly ss → AreReadOnly (append ss (limit_stage limit))
unfolding append
append-AreReadOnly nil limit h = (refl, limit_stage-allowed limit, tt)
append-AreReadOnly (cons s ss) limit h = (h.0, h.1, append-AreReadOnly ss limit h.2)

any_limit-append : (ss : Items) (limit : ℕ) → any_limit (append ss (limit_stage limit)) ≡ true
unfolding append
any_limit-append nil limit = refl
any_limit-append (cons s ss) limit = ground (arith, any_limit-append ss limit)

with_limit-AreReadOnly :
    (limit : ℕ) (ss : Items) → AreReadOnly ss → AreReadOnly (with_limit limit ss)
unfolding with_limit
with_limit-AreReadOnly limit ss h = elim (Bool-cases (ltb 0 limit && not (any_limit ss))) [
  | inl e ↦ rw e (append-AreReadOnly ss limit h)
  | inr e ↦ rw e h
]

any_limit-with_limit : (limit : ℕ) (ss : Items) → 0 < limit → any_limit (with_limit limit ss) ≡ true
unfolding with_limit
any_limit-with_limit limit ss h = elim (Bool-cases (any_limit ss)) [
  | inl e ↦ ground arith
  | inr e ↦ ground (arith, any_limit-append ss limit)
]

with_limit_present : (limit : ℕ) (ss : Items) → any_limit ss ≡ true → with_limit limit ss ≡ ss
unfolding with_limit
with_limit_present limit ss h = ground arith

-- What an accepted query was, and what it became.
pub record IsSafeQuery (limit : ℕ) (query checked : Json) : Type 0 where
  pub fields : Fields
  pub collection : Text
  pub stages : Items
  pub final : Items
  pub is_object : query ≡ obj fields
  pub named :
      (get (text "collection") fields ≡ some (str collection)) × (is_empty collection ≡ false)
  pub given : get (text "pipeline") fields ≡ some (arr stages)
  pub result : checked ≡ obj (put (text "pipeline") (arr final) fields)
  pub read_only : AreReadOnly final
  pub limited : 0 < limit → any_limit final ≡ true

module _ (repr : Json → Text) where
  check_stage-eq_ok :
      (s : Json)
      → check_stage repr s ≡ ok_unit
      → (is_stage s ≡ true) × (allowed (all_keys s) ≡ true)
  unfolding check_stage
  check_stage-eq_ok (obj (field k v fs)) h =
      let (u, _, h') = >>=-eq-ok (check_stage_keys (field k v fs)) _ h in
      elim (Option-cases (has_forbidden (obj (field k v fs)))) [
        | inl e ↦ (refl, (has_forbidden_iff (obj (field k v fs))).0 e)
        | inr (op, e) ↦ absurd (cc (rw e at h'))
      ]
  check_stage-eq_ok (obj end) h = absurd (cc)
  check_stage-eq_ok null h = absurd (cc)
  check_stage-eq_ok (bool b) h = absurd (cc)
  check_stage-eq_ok (num n) h = absurd (cc)
  check_stage-eq_ok (str s) h = absurd (cc)
  check_stage-eq_ok (arr xs) h = absurd (cc)

  check_stages-AreReadOnly : (ss : Items) → check_stages repr ss ≡ ok_unit → AreReadOnly ss
  unfolding check_stages
  check_stages-AreReadOnly nil h = tt
  check_stages-AreReadOnly (cons s ss) h =
      let (u, e, h') = >>=-eq-ok (check_stage repr s) _ h in
      let (a, b) = check_stage-eq_ok s e in (a, b, check_stages-AreReadOnly ss h')

  check_pipeline-IsSafe :
      (limit : ℕ) (fs : Fields) (c p : Option Json) (checked : Json)
      → get (text "collection") fs ≡ c
      → get (text "pipeline") fs ≡ p
      → check_pipeline repr limit fs c p ≡ ok checked
      → IsSafeQuery limit (obj fs) checked
  unfolding check_pipeline
  check_pipeline-IsSafe limit fs (some (str (c ∷ cs))) (some (arr stages)) checked ec ep h =
      let (u, e, h') = >>=-eq-ok (check_stages repr stages) _ h in
      record {
        fields = fs;
        collection = c ∷ cs;
        stages = stages;
        final = with_limit limit stages;
        is_object = refl;
        named = (ec, refl);
        given = ep;
        result = cc;
        read_only = with_limit-AreReadOnly limit stages (check_stages-AreReadOnly stages e);
        limited = any_limit-with_limit limit stages;
      }
  check_pipeline-IsSafe limit fs _ _ checked ec ep h = absurd (cc)

  pub check_query-IsSafe :
      (limit : ℕ) (query checked : Json)
      → check_query repr limit query ≡ ok checked
      → IsSafeQuery limit query checked
  unfolding check_query
  check_query-IsSafe limit (obj fs) checked h =
      check_pipeline-IsSafe limit fs (get (text "collection") fs) (get (text "pipeline") fs) checked
        refl refl h
  check_query-IsSafe limit _ checked h = absurd (cc)

  pipeline_ignores_limit :
      (limit : ℕ) (fs : Fields) (stages : Items) (c : Option Json)
      → any_limit stages ≡ true
      → check_pipeline repr limit fs c (some (arr stages))
        ≡ check_pipeline repr 0 fs c (some (arr stages))
  unfolding check_pipeline
  pipeline_ignores_limit limit fs stages (some (str (x ∷ xs))) h =
      rw (with_limit_present limit stages h, with_limit_present 0 stages h)
  pipeline_ignores_limit limit fs stages _ h = refl

  -- A query whose pipeline has a $limit stage is checked alike under every row limit, and its
  -- stages are kept as they are: the row limit does not bound it.
  check_query_ignores_limit :
      (limit : ℕ) (fs : Fields) (stages : Items)
      → get (text "pipeline") fs ≡ some (arr stages)
      → any_limit stages ≡ true
      → (check_query repr limit (obj fs) ≡ check_query repr 0 (obj fs))
        × (with_limit limit stages ≡ stages)
  unfolding check_query
  check_query_ignores_limit limit fs stages e h = (
    rw e (pipeline_ignores_limit limit fs stages (get (text "collection") fs) h),
    with_limit_present limit stages h,
  )

  module _ (loads : Text → Result Text Json) (dumps : Json → Text) where
    -- What `validate_mongo` returns is the text of an accepted query: an object with a collection
    -- and a pipeline of non-empty stages, in which no key is a write stage or a forbidden
    -- operator at any depth, and which has a $limit stage when the row limit is positive.
    pub validate_mongo-IsSafe :
        (payload : Text) (limit : ℕ) (out : Text)
        → validate_mongo repr loads dumps payload limit ≡ ok out
        → (query : Json) × (checked : Json) × (loads payload ≡ ok query)
          × (out ≡ dumps checked)
          × IsSafeQuery limit query checked
    unfolding validate_mongo decoded
    validate_mongo-IsSafe payload limit out h = go (loads payload) refl h
      where
        go :
            (r : Result Text Json)
            → loads payload ≡ r
            → (decoded r >>= λ j. check_query repr limit j >>= λ c. ok (dumps c)) ≡ ok out
            → (query : Json) × (checked : Json) × (loads payload ≡ ok query)
              × (out ≡ dumps checked)
              × IsSafeQuery limit query checked
        go (err e) q h' = absurd (cc)
        go (ok j) q h' =
            let (c, e, h'') = >>=-eq-ok (check_query repr limit j) _ h' in
            (j, c, q, cc, check_query-IsSafe limit j c e)
