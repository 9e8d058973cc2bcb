-- ===== src/Prelude/Action.antt =====
-- Methods that change an object and may raise: a function of the state, which comes back beside
-- the result whether the method returns or raises.
use mathlib.Core.Bool.{Bool, true, false}
use insightkit.Prelude.Tests.{if◌then◌else◌}
use insightkit.Prelude.Result.{Result, ok, err}

abbrev pub Action {ℓ} : Type ℓ → Type ℓ → Type ℓ → Type ℓ
Action E S A = S → Result E A × S

module _ {ℓ} {E S A : Type ℓ} where
  unfoldable pub pure : A → Action E S A
  pure a s = (ok a, s)

  unfoldable pub raise : E → Action E S A
  raise e s = (err e, s)

  unfoldable pub gets : (S → A) → Action E S A
  gets f s = (ok (f s), s)

  -- A part of the state is read and replaced at once.
  unfoldable pub update : (S → A × S) → Action E S A
  update f s = let (a, s') = f s in (ok a, s')

  unfoldable pub from_result : Result E A → Action E S A
  from_result r s = (r, s)

module _ {ℓ} {E S A B : Type ℓ} where
  abbrev pub resume : (A → Action E S B) → Result E A × S → Result E B × S
  resume f (ok a, s) = f a s
  resume f (err e, s) = (err e, s)

  infixl 5 ◌>>=◌ ◌>>◌
  unfoldable pub ◌>>=◌ : Action E S A → (A → Action E S B) → Action E S B
  ◌>>=◌ m f s = resume f (m s)

  abbrev pub ◌>>◌ : Action E S A → Action E S B → Action E S B
  m >> k = m >>= λ _. k

-- Every run of the action, returning or raising, takes its state to a related one.
pub record Steps {ℓ} {E S A : Type ℓ} (R : S → S → Type ℓ) (m : Action E S A) : Type ℓ where
  pub run : (s : S) → R s (m s).1

pub record IsPreorder {ℓ} {S : Type ℓ} (R : S → S → Type ℓ) : Type ℓ where
  pub same : (s : S) → R s s
  pub after : (s t u : S) → R s t → R t u → R s u

module _ {ℓ} {E S A : Type ℓ} {R : S → S → Type ℓ} where
  pub Steps-pure : IsPreorder R → (a : A) → Steps R (pure {E = E} a)
  unfolding pure
  Steps-pure r a = record { run = r.same }

  pub Steps-raise : IsPreorder R → (e : E) → Steps R (raise {A = A} e)
  unfolding raise
  Steps-raise r e = record { run = r.same }

  pub Steps-gets : IsPreorder R → (f : S → A) → Steps R (gets {E = E} f)
  unfolding gets
  Steps-gets r f = record { run = r.same }

  pub Steps-from_result : IsPreorder R → (x : Result E A) → Steps R (from_result x)
  unfolding from_result
  Steps-from_result r x = record { run = r.same }

  pub Steps-if :
      (b : Bool) (m n : Action E S A) → Steps R m → Steps R n → Steps R (if b then m else n)
  Steps-if true m n h k = h
  Steps-if false m n h k = k

module _ {ℓ} {E S A B : Type ℓ} {R : S → S → Type ℓ} where
  resume_after :
      IsPreorder R
      → (f : A → Action E S B) → ((a : A) → Steps R (f a))
      → (s : S) (x : Result E A × S) → R s x.1
      → R s (resume f x).1
  resume_after r f h s (ok a, t) k = r.after s t (f a t).1 k ((h a).run t)
  resume_after r f h s (err e, t) k = k

  pub Steps-bind :
      IsPreorder R
      → (m : Action E S A) (f : A → Action E S B) → Steps R m
      → ((a : A) → Steps R (f a))
      → Steps R (m >>= f)
  unfolding ◌>>=◌
  Steps-bind r m f k h = record { run = λ s. resume_after r f h s (m s) (k.run s) }

pub ruleset step_rules =
    (Steps-pure, Steps-raise, Steps-gets, Steps-from_result, Steps-if, Steps-bind)
