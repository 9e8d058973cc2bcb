-- ===== src/Eval/Scores.antt =====
-- The accounts of `run_eval` of eval.py.
use insightkit.Prelude.{
  ℕ, ◌+◌, Bool, true, false, List, [], ◌∷◌, ◌≡◌, refl, ◌∙◌, Text, length, length-append, arith,
}
use insightkit.Prelude.Result.{Result, ok, err}
use insightkit.Prelude.Action.{pure}
use insightkit.Prelude.Ensures.{
  After, Ensures, Ensures-bind, Ensures-any, Ensures-pure, Ensures-from, Nothing,
}
use mathlib.Core.Path.{subst}
use insightkit.Pipeline.Types.{Cell, Frame, AskResult, Config, Failure}
use insightkit.Pipeline.Kit.{Kit, State, get_schema}
use insightkit.Eval.{
  GoldenCase, EvalResult, judge, failed, scored, after_ask, run_case, run_cases, run_eval,
}

-- How many cases have been judged.
abbrev judged : EvalResult → ℕ
judged e = e.correct + length e.failures

After-imp :
    {E S A : Type 0} (Q R : A → S → Type 0) (x : Result E A × S)
    → ((a : A) (s : S) → Q a s → R a s)
    → After Q x
    → After R x
After-imp Q R (ok a, s) f h = f a s h
After-imp Q R (err e, s) f h = tt

module _ (round6 : Text → Text) (print : Cell → Text) (num_eq num_lt : Text → Text → Bool)
    (sortable : Frame → Bool) (kit : Kit) (cfg : Config) where
  -- From one result to another, with some more cases judged.
  abbrev Counts : EvalResult → ℕ → EvalResult → State kit → Type 0
  Counts e n e' s = (e'.total ≡ e.total) × (judged e' ≡ judged e + n)

  abbrev Any : State kit → Type 0
  Any s = Unit

  failed-Counts :
      (c : GoldenCase) (e : EvalResult) (s : State kit)
      → Counts e 1 (failed round6 print num_eq num_lt sortable kit cfg c e) s
  failed-Counts c e s = (refl, omega (arith, length-append e.failures (c.question ∷ [])))

  scored-Counts :
      (c : GoldenCase) (e : EvalResult) (good : Bool) (s : State kit)
      → Counts e 1 (scored round6 print num_eq num_lt sortable kit cfg c e good) s
  unfolding scored
  scored-Counts c e true s = (refl, omega arith)
  scored-Counts c e false s = failed-Counts c e s

  after_ask-Counts :
      (c : GoldenCase) (e : EvalResult) (x : Result Failure AskResult × State kit)
      → After (Counts e 1) (after_ask round6 print num_eq num_lt sortable kit cfg c e x)
  unfolding after_ask
  after_ask-Counts c e (err x, s) = failed-Counts c e s
  after_ask-Counts c e (ok r, s) =
      (Ensures-bind Any Nothing (Counts e 1)
          (judge round6 print num_eq num_lt sortable kit cfg c.sql_expected c r)
          (λ good. pure (scored round6 print num_eq num_lt sortable kit cfg c e good))
          (Ensures-any Any (judge round6 print num_eq num_lt sortable kit cfg c.sql_expected c r))
          (λ good.
            Ensures-pure (scored round6 print num_eq num_lt sortable kit cfg c e good)
              (λ s' p. scored-Counts c e good s'))).run
        s tt

  run_case-Counts :
      (c : GoldenCase) (e : EvalResult)
      → Ensures Any (run_case round6 print num_eq num_lt sortable kit cfg c e) (Counts e 1)
  unfolding run_case
  run_case-Counts c e = record { run = λ s p. after_ask-Counts c e _ }

  run_cases-Counts :
      (cs : List GoldenCase) (e : EvalResult)
      → Ensures Any
          (run_cases round6 print num_eq num_lt sortable kit cfg cs e)
          (Counts e (length cs))
  unfolding run_cases
  run_cases-Counts [] e = Ensures-pure e (λ s p. (refl, omega arith))
  run_cases-Counts (c ∷ cs) e =
      Ensures-bind Any (Counts e 1) (Counts e (length (c ∷ cs)))
        (run_case round6 print num_eq num_lt sortable kit cfg c e)
        (λ e'. run_cases round6 print num_eq num_lt sortable kit cfg cs e') (run_case-Counts c e)
        (λ e'. record {
          run = λ s q.
              After-imp (Counts e' (length cs)) (Counts e (length (c ∷ cs)))
                (run_cases round6 print num_eq num_lt sortable kit cfg cs e' s)
                (λ e'' t r. (r.0 ∙ q.0, omega (arith, r.1, q.1)))
                ((run_cases-Counts cs e').run s tt);
        })

  abbrev fresh : List GoldenCase → EvalResult
  fresh golden = record { total = length golden; correct = 0; failures = [] }

  run_eval-Counts :
      (golden : List GoldenCase)
      → Ensures Any
          (run_eval round6 print num_eq num_lt sortable kit cfg golden)
          (Counts (fresh golden) (length golden))
  unfolding run_eval
  run_eval-Counts golden =
      Ensures-bind Any Nothing (Counts (fresh golden) (length golden)) (get_schema kit)
        (λ schema. run_cases round6 print num_eq num_lt sortable kit cfg golden (fresh golden))
        (Ensures-any Any (get_schema kit))
        (λ schema. Ensures-from Any _ (λ s p. tt) (run_cases-Counts golden (fresh golden)))

  -- Where an evaluation ends with a result, its total is the number of cases, and each of them counts
  -- as correct or as a failure.
  pub run_eval_accounts :
      (golden : List GoldenCase) (s t : State kit) (e : EvalResult)
      → run_eval round6 print num_eq num_lt sortable kit cfg golden s ≡ (ok e, t)
      → (e.total ≡ length golden) × (e.correct + length e.failures ≡ length golden)
  run_eval_accounts golden s t e h =
      let (total, sum) : Counts (fresh golden) (length golden) e t =
        subst (After (Counts (fresh golden) (length golden))) h
          ((run_eval-Counts golden).run s tt) in
      (total, omega (arith, sum))
