-- ===== src/Prelude/Decimal.antt =====
-- Decimal numerals: `int(s)` on a text of digits, and `str(n)`.
use Prim.Native.Nat.{ℕ, zero, suc, ◌+◌, ◌-◌, ◌*◌, ◌/◌, ◌%◌, ◌<◌}
use mathlib.Core.Path.{◌≡◌, refl}
use mathlib.Core.Bool.{true}
use mathlib.Core.Logic.{inl, inr}
use mathlib.Core.List.{[], ◌∷◌, ◌++◌}
use native.Mathlib.Omega.{arith}
use insightkit.Prelude.Tests.{ltb, if◌then◌else◌, Bool-cases}
use insightkit.Prelude.Lists.{all, all-append, length, length-append}
use insightkit.Prelude.Texts.{Text, is_digit}

unfoldable pub decimal_from : ℕ → Text → ℕ
decimal_from acc [] = acc
decimal_from acc (x ∷ xs) = decimal_from (acc * 10 + (x - b'0')) xs

-- `int(s)`
unfoldable pub decimal : Text → ℕ
unfolding decimal_from
decimal s = decimal_from 0 s

-- The digits of `n`; the fuel bounds their number.
unfoldable pub show_fuel : ℕ → ℕ → Text
show_fuel zero n = []
show_fuel (suc f) n =
    let rest = show_fuel f (n / 10) in
    if ltb n 10 then (n + b'0') ∷ [] else rest ++ (n % 10 + b'0') ∷ []

-- `str(n)`
unfoldable pub show : ℕ → Text
unfolding show_fuel
show n = show_fuel (suc n) n

decimal_from-append :
    (acc : ℕ) (s : Text) (d : ℕ)
    → decimal_from acc (s ++ d ∷ []) ≡ decimal_from acc s * 10 + (d - b'0')
unfolding decimal_from
decimal_from-append acc [] d = refl
decimal_from-append acc (x ∷ s) d = decimal_from-append (acc * 10 + (x - b'0')) s d

decimal-show_fuel : (f n : ℕ) → n < f → decimal_from 0 (show_fuel f n) ≡ n
unfolding show_fuel decimal_from
decimal-show_fuel zero n h = elim h [ ]
decimal-show_fuel (suc f) n h = elim (Bool-cases (ltb n 10)) [
  | inl small ↦ rw small (omega arith)
  | inr big ↦
      rw (big, decimal_from-append 0 (show_fuel f (n / 10)) (n % 10 + b'0'))
        (rw (decimal-show_fuel f (n / 10) (ground arith)) (omega arith))
]

-- Reading back a printed number gives the number.
pub decimal-show : (n : ℕ) → decimal (show n) ≡ n
unfolding decimal show
decimal-show n = decimal-show_fuel (suc n) n (omega arith)

all-digit-show_fuel : (f n : ℕ) → all is_digit (show_fuel f n) ≡ true
unfolding show_fuel
all-digit-show_fuel zero n = refl
all-digit-show_fuel (suc f) n = elim (Bool-cases (ltb n 10)) [
  | inl small ↦ rw small (ground arith)
  | inr big ↦ rw (big, all-append, all-digit-show_fuel f (n / 10)) (ground arith)
]

-- A printed number is a text of digits.
pub all-digit-show : (n : ℕ) → all is_digit (show n) ≡ true
unfolding show
all-digit-show n = all-digit-show_fuel (suc n) n

pub length-show_pos : (n : ℕ) → 0 < length (show n)
unfolding show show_fuel
length-show_pos n = elim (Bool-cases (ltb n 10)) [
  | inl small ↦ rw small (omega arith)
  | inr big ↦
      rw big (omega (arith, length-append {0} (show_fuel n (n / 10)) ((n % 10 + b'0') ∷ [])))
]
