-- ===== src/Prelude/Ensures.antt =====
-- What holds after an action that returns, from what held before it.
use mathlib.Core.Path.{◌≡◌, subst, sym}
use mathlib.Core.Bool.{Bool, true, false}
use insightkit.Prelude.Tests.{if◌then◌else◌}
use insightkit.Prelude.Result.{Result, ok, err}
use insightkit.Prelude.Action.{Action, pure, raise, ◌>>=◌, resume, Steps}

module _ {ℓ} {E S A : Type ℓ} where
  -- The result and the state after it; nothing is said of an exception.
  abbrev pub After : (A → S → Type ℓ) → Result E A × S → Type ℓ
  After Q (ok a, t) = Q a t
  After Q (err e, t) = Unit

  pub record Ensures (P : S → Type ℓ) (m : Action E S A) (Q : A → S → Type ℓ) : Type ℓ where
    pub run : (s : S) → P s → After Q (m s)

module _ {ℓ} {E S A : Type ℓ} {P : S → Type ℓ} {Q : A → S → Type ℓ} where
  pub Ensures-pure : (a : A) → ((s : S) → P s → Q a s) → Ensures {E = E} P (pure a) Q
  unfolding pure
  Ensures-pure a h = record { run = h }

  pub Ensures-raise : (e : E) → Ensures P (raise e) Q
  unfolding raise
  Ensures-raise e = record { run = λ s p. tt }

  pub Ensures-if :
      (b : Bool) (m n : Action E S A)
      → Ensures P m Q
      → Ensures P n Q
      → Ensures P (if b then m else n) Q
  Ensures-if true m n h k = h
  Ensures-if false m n h k = k

  -- Less may be known before.
  pub Ensures-from :
      (P' : S → Type ℓ) (m : Action E S A) → ((s : S) → P s → P' s) → Ensures P' m Q → Ensures P m Q
  Ensures-from P' m f h = record { run = λ s p. h.run s (f s p) }

module _ {ℓ} {E S A B : Type ℓ} (P : S → Type ℓ) (Q : A → S → Type ℓ) (R : B → S → Type ℓ) where
  after_resume :
      (f : A → Action E S B) (x : Result E A × S)
      → ((a : A) → Ensures (Q a) (f a) R)
      → After Q x
      → After R (resume f x)
  after_resume f (ok a, t) h q = (h a).run t q
  after_resume f (err e, t) h q = tt

  pub Ensures-bind :
      (m : Action E S A) (f : A → Action E S B)
      → Ensures P m Q
      → ((a : A) → Ensures (Q a) (f a) R)
      → Ensures P (m >>= f) R
  unfolding ◌>>=◌
  Ensures-bind m f h k = record { run = λ s p. after_resume f (m s) k (h.run s p) }

abbrev pub Nothing {ℓ} : {S A : Type ℓ} → A → S → Type ℓ
Nothing a t = Unit

module _ {ℓ} {E S A : Type ℓ} where
  after_any : (x : Result E A × S) → After Nothing x
  after_any (ok a, t) = tt
  after_any (err e, t) = tt

  pub Ensures-any : (P : S → Type ℓ) (m : Action E S A) → Ensures P m Nothing
  Ensures-any P m = record { run = λ s p. after_any (m s) }

-- What depends only on a part that the action leaves alone still holds after it.
module _ {ℓ} {E S A X : Type ℓ} (view : S → X) (F : X → Type ℓ) where
  after_quiet :
      (s : S) (x : Result E A × S) → view x.1 ≡ view s → F (view s) → After (λ a t. F (view t)) x
  after_quiet s (ok a, t) e h = subst F (sym e) h
  after_quiet s (err r, t) e h = tt

  pub Ensures-quiet :
      (m : Action E S A)
      → Steps (λ s t. view t ≡ view s) m
      → Ensures (λ s. F (view s)) m (λ a t. F (view t))
  Ensures-quiet m h = record { run = λ s p. after_quiet s (m s) (h.run s) p }
