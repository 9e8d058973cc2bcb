-- ===== src/Llm/Plans.antt =====
-- `parse_sql_plan` of llm/sqlgen.py: what an accepted plan is good for.
use insightkit.Prelude.{
  ℕ, suc, zero, ◌≤◌, Bool, true, false, ◌&&◌, Option, none, some, List, [], ◌∷◌, ◌≡◌, refl, ◌⊎◌,
  inl, inr, Text, text, arith, Bool-cases, is_empty, take, length, length-take, all, not,
}
use mathlib.Core.Path.{subst}
use insightkit.Prelude.Result.{Result, ok, err}
use insightkit.Json.{Json, str, arr, obj, Items, nil, cons, get}
use insightkit.Llm.SqlGen.{
  SqlPlan, SqlGenError, parse_sql_plan, plan_from, decoded_plan, plan_of, reasoning_of, queries_of,
  some_nonempty, clean_queries, sql_of, needs_data_of, is_none, from_brace, unfenced,
  max_analysis_queries,
}

-- At least one query, at most four, none of them blank.
abbrev pub AreUsable : Option (List Text) → Type 0
AreUsable none = Unit
AreUsable (some qs) =
    (is_empty qs ≡ false) × (length qs ≤ 4) × (all (λ q. not (is_empty q)) qs ≡ true)

-- A plan that can be acted on: one that needs data has a statement or queries to run.
pub record IsUsable (plan : SqlPlan) : Type 0 where
  pub actionable :
      plan.needs_data ≡ true → (is_empty plan.sql ≡ false) ⊎ (is_none plan.queries ≡ false)
  pub queries : AreUsable plan.queries

all-clean_queries : (qs : Items) → all (λ q. not (is_empty q)) (clean_queries qs) ≡ true
unfolding clean_queries
all-clean_queries nil = refl
all-clean_queries (cons (str q) qs) = ground (arith, all-clean_queries qs)
all-clean_queries (cons _ qs) = all-clean_queries qs

all-take : (p : Text → Bool) (n : ℕ) (qs : List Text) → all p qs ≡ true → all p (take n qs) ≡ true
all-take p zero qs h = refl
all-take p (suc n) [] h = refl
all-take p (suc n) (q ∷ qs) h = ground (arith, all-take p n qs)

some_nonempty-AreUsable :
    (qs : List Text)
    → length qs ≤ 4
    → all (λ q. not (is_empty q)) qs ≡ true
    → AreUsable (some_nonempty qs)
some_nonempty-AreUsable [] l h = tt
some_nonempty-AreUsable (q ∷ qs) l h = (refl, l, h)

queries_of-AreUsable : (j : Option Json) → AreUsable (queries_of j)
unfolding queries_of
queries_of-AreUsable (some (arr qs)) =
    some_nonempty-AreUsable (take max_analysis_queries (clean_queries qs))
      (omega (arith, length-take max_analysis_queries (clean_queries qs)))
      (all-take _ max_analysis_queries (clean_queries qs) (all-clean_queries qs))
queries_of-AreUsable _ = tt

ok-injective : (a b : SqlPlan) → ◌≡◌ {A = Result SqlGenError SqlPlan} (ok a) (ok b) → a ≡ b
ok-injective a b h = cc

module _ (to_str : Json → Text) where
  plan_of-IsUsable : (j : Json) (plan : SqlPlan) → plan_of to_str j ≡ ok plan → IsUsable plan
  unfolding plan_of
  plan_of-IsUsable (obj fs) plan h =
      let sql = sql_of (get (text "sql") fs) in
      let needs_data = needs_data_of (get (text "needs_data") fs) in
      let queries = queries_of (get (text "queries") fs) in
      let test = needs_data && (is_empty sql && is_none queries) in
      let made : SqlPlan = record {
        sql = sql;
        reasoning = reasoning_of to_str (get (text "reasoning") fs);
        needs_data = needs_data;
        queries = queries;
      } in
      elim (Bool-cases test) [
        | inl bad ↦ absurd (cc (rw bad at h))
        | inr good ↦
            let same : made ≡ plan = ok-injective made plan (rw good at h) in
            subst IsUsable same (record {
              actionable = λ n. ground arith;
              queries = queries_of-AreUsable (get (text "queries") fs);
            })
      ]
  plan_of-IsUsable _ plan h = absurd (cc)

  decoded_plan-IsUsable :
      (r : Result Text Json) (plan : SqlPlan) → decoded_plan to_str r ≡ ok plan → IsUsable plan
  unfolding decoded_plan
  decoded_plan-IsUsable (err e) plan h = absurd (cc)
  decoded_plan-IsUsable (ok j) plan h = plan_of-IsUsable j plan h

  module _ (loads : Text → Result Text Json) where
    plan_from-IsUsable :
        (prose : Text) (body : Option Text) (plan : SqlPlan)
        → plan_from to_str loads prose body ≡ ok plan
        → IsUsable plan
    unfolding plan_from
    plan_from-IsUsable prose none plan h =
        subst IsUsable (ok-injective _ plan h)
          (record { actionable = λ n. absurd (cc n); queries = tt })
    plan_from-IsUsable prose (some body) plan h = decoded_plan-IsUsable (loads body) plan h

    -- Whatever the model answers and whatever JSON decodes to, an accepted plan is usable: if it
    -- needs data it has a statement or queries, and its queries are one to four, none blank.
    pub parse_sql_plan-IsUsable :
        (raw : Text) (plan : SqlPlan) → parse_sql_plan to_str loads raw ≡ ok plan → IsUsable plan
    unfolding parse_sql_plan
    parse_sql_plan-IsUsable raw plan h =
        plan_from-IsUsable (unfenced raw) (from_brace (unfenced raw)) plan h
