-- ===== src/Prelude/Unicode.antt =====
-- The character classes of Python's `re` and `str` beyond ASCII, of Unicode 14.0 (Python 3.11): the
-- word characters, the decimal digits and the spaces.
use Prim.Native.Nat.{ℕ, ◌+◌, ◌-◌, ◌*◌, ◌%◌}
use Prim.Native.Char.{code}
use Prim.Native.String.{String}
use mathlib.Core.Path.{◌≡◌, refl}
use mathlib.Core.Bool.{Bool, true, false, not, ◌&&◌, ◌||◌}
use mathlib.Core.List.{List, [], ◌∷◌}
use mathlib.Core.Option.{Option, none, some}
use native.Mathlib.Omega.{arith}
use insightkit.Prelude.Tests.{ltb, ◌==◌, if◌then◌else◌}

-- The characters of these strings, one after the other.
unfoldable pub joined : String → List String → List ℕ
joined String.[] [] = []
joined String.[] (s ∷ ss) = joined s ss
joined (String.◌∷◌ c s) ss = code c ∷ joined s ss

abbrev hex : ℕ → ℕ
hex x = if ltb x b'a' then x - b'0' else x - 87

-- A class is written as the lengths of its gaps and its runs by turns, in hexadecimal, each with a
-- space behind it. This is the place of a character in its run, if it is in the class: `size` is what
-- was read of a length, and `start` is where its gap or run begins.
unfoldable pub place : ℕ → Bool → ℕ → ℕ → List ℕ → Option ℕ
place c inside size start [] = none
place c inside size start (x ∷ xs) = elim (x == 32) [
  | true ↦ elim (ltb c (start + size)) [
    | true ↦ if inside then some (c - start) else none
    | false ↦ place c (not inside) 0 (start + size) xs
  ]
  | false ↦ place c inside (16 * size + hex x) start xs
]

abbrev is_some : Option ℕ → Bool
is_some none = false
is_some (some n) = true

abbrev digit_runs : List String
digit_runs =
    "660 a 86 a c6 a 19c a 76 a 76 a 76 a 76 a 76 a 76 a 76 a 76 a 76 a 60 a 76 a 46 a 116 a "
    ∷ "46 a 746 a 26 a 12c a 80 a a6 a 6 a b6 a 56 a 86 a 6 a 89c6 a 2a6 a 26 a c6 a 16 a 56 a "
    ∷ "196 a 5316 a 586 a 886 a 32c a 80 a 3c a 90 a 116 a 156 a 76 a 176 a 66 a 66 a 1a6 a 66 "
    ∷ "a 2f6 a f6 a 46 a 4cb6 a 56 a 86 a 6c74 32 940 a 1a6 a 656 a 1296 a " ∷ []

abbrev word_runs : List String
word_runs =
    "aa 1 7 2 1 1 3 2 1 3 1 17 1 1f 1 1ca 4 c e 5 7 1 1 1 81 5 1 2 2 4 1 1 6 1 1 3 1 1 1 14 "
    ∷ "1 53 1 8b 8 a6 1 26 2 1 6 29 47 1b 4 4 2d 2b 15 a 4 2 1 63 1 1 f 2 7 f 2 1 10 1 1 1e 1d "
    ∷ "59 b 1 e 2b 9 2 4 1 5 16 4 1 9 1 3 1 17 19 7 b 5 18 1 6 11 2a 3a 36 3 1 12 1 7 a 4 a 1 "
    ∷ "10 4 8 2 2 2 16 1 7 1 1 3 4 3 1 10 1 d 2 1 3 4 c 2 6 2 1 8 6 4 2 2 16 1 7 1 2 1 2 1 2 "
    ∷ "1f 4 1 1 7 a 2 3 10 9 1 3 1 16 1 7 1 2 1 5 3 1 12 1 f 2 4 a 9 1 b 8 2 2 2 16 1 7 1 2 1 "
    ∷ "5 3 1 1e 2 1 3 4 a 1 7 b 1 1 6 3 3 1 4 3 2 1 1 1 2 3 2 3 3 3 c 16 1 15 d 12 8 1 3 1 17 "
    ∷ "1 10 3 1 1a 3 2 1 2 2 4 a 8 7 1 1 4 8 1 3 1 17 1 a 1 5 3 1 1f 2 1 2 4 a 1 2 11 9 1 3 1 "
    ∷ "29 2 1 10 1 5 3 1 a 4 13 1 6 5 12 3 18 1 9 1 1 2 7 1f a 11 30 1 2 c 7 9 a 27 2 1 1 1 5 "
    ∷ "1 18 1 1 1 a 1 2 9 1 2 5 1 1 9 a 2 4 20 1 1f 14 c 8 1 24 1b 5 73 2b 14 b 6 6 4 4 3 1 3 "
    ∷ "2 7 3 4 d c 1 1 a 6 26 1 1 5 1 2 2b 1 14d 1 4 2 7 1 1 1 4 2 29 1 4 2 21 1 4 2 7 1 1 1 4 "
    ∷ "2 f 1 39 1 4 2 43 e 14 3 10 10 56 2 6 3 26c 2 11 1 1a 5 4b 3 b 7 12 d 13 e 12 e d 1 3 f "
    ∷ "34 23 1 4 1 3 a 6 a 16 a 6 59 7 5 2 22 1 1 5 46 a 1f 27 28 2 5 b 2c 4 1a 6 b 25 17 9 35 "
    ∷ "2b a 6 a d 1 5d 2f 11 8 3 a 29 1e d 38 1a 24 1c a 3 31 2 9 7 2b 2 3 29 4 1 6 1 2 3 1 5 "
    ∷ "c0 40 116 2 6 2 26 2 6 2 8 1 1 1 1 1 1 1 1f 2 35 1 7 1 1 3 3 1 7 3 4 2 6 4 d 5 3 1 7 73 "
    ∷ "2 2 6 5 b 6 d 65 1 4 1 2 a 1 1 3 5 6 1 1 1 1 1 1 4 1 b 2 4 5 5 4 1 1 3a 2d6 3c 4e 16 "
    ∷ "276 1e 46c e5 6 4 3 2 9 1 2 26 1 1 5 1 2 38 7 1 10 17 9 7 1 7 1 7 1 7 1 7 1 7 1 7 1 7 "
    ∷ "50 1 1d5 3 19 9 7 5 2 5 4 56 6 3 1 5a 1 4 5 2b 1 5e 3 4 a 20 30 10 20 a 1e 8 1 f 20 a "
    ∷ "27 f 140 19c0 40 568d 43 2e 2 10d 3 1c 14 2f 10 1f 2 50 27 9 2 67 2 40 5 2 1 1 1 5 18 "
    ∷ "10 1 3 1 4 1 17 d 6 a 34 e 32 1c a 18 6 3 1 1 2 1 26 a 17 19 1d 7 2f 1c b 6 5 1 19 1 29 "
    ∷ "17 3 1 8 4 a 6 17 3 1 3 32 1 1 3 2 2 5 2 1 1 1 18 3 2 b 7 3 c 6 2 6 2 6 9 7 1 7 1 2b 1 "
    ∷ "e 6 73 d a 6 2ba4 c 17 4 31 2104 16e 2 6a 26 7 c 5 5 1 1 a 1 d 1 5 1 1 1 2 1 2 1 6c 21 "
    ∷ "16b 12 40 2 36 28 c 74 5 1 87 13 a 7 1a 6 1a b 59 3 6 2 6 2 6 2 3 23 c 1 1a 1 13 1 2 1 "
    ∷ "f 2 e 22 7b c 2d c 39 11 2 f4 1d 3 31 10 1b 4 24 9 1e 5 26 a 1e 2 24 4 8 1 5 2a 9e 2 a "
    ∷ "6 24 4 24 4 28 8 34 c b 1 f 1 7 1 2 1 b 1 f 1 7 1 2 43 137 9 16 a 8 18 6 1 2a 1 9 45 6 "
    ∷ "2 1 1 2c 1 2 3 1 2 17 2 1f 2 26 8 9 30 13 1 2 5 21 4 1a 46 38 4 14 2 2f f 4 1 3 1 1d a "
    ∷ "9 17 1f 1 20 20 8 1 1c 6 5 10 36 a 16 2 1b 5 1a 17 7 50 49 37 33 d 33 7 2a c a 126 1f 1 "
    ∷ "2a 6 2 4e 28 8 16 b 4 1b 12 2e 1c 14 17 c 35 1a 1e 1 2 2 1 d 2d 20 19 7 a 9 24 f a 4 1 "
    ∷ "2 1 8 23 3 1 c 30 e 4 b b 1 1 4 14 b 12 1 19 54 7 1 1 1 4 1 f 1 a 7 2f 11 a b 8 2 2 2 "
    ∷ "16 1 7 1 2 1 5 3 1 12 1 c 5 9e 35 12 4 5 a 5 3 1e 30 14 2 1 1 8 a a6 2f 29 4 24 30 14 1 "
    ∷ "b a 26 2b d 1 7 a 36 1b 15 c 4 7 b9 2c 74 53 c 8 2 1 2 8 1 2 1 18 f 1 1 1 e a 46 8 2 27 "
    ∷ "10 1 1 1 1c 1 a 28 7 1 15 1 b 2e 13 1 12 49 107 9 1 25 11 1 f 1d 5 1e 70 7 1 2 1 26 15 "
    ∷ "1 9 a 6 6 1 2 1 20 e 1 7 a 136 13 bd 1 f 15 2b 39a 66 6f 11 c4 a4c 61 f 42f fd1 247 "
    ∷ "21b9 239 7 1f 1 a 6 4f 1 a 6 1e 12 30 10 4 c a 1 7 1 15 5 13 2b0 57 69 4b 5 1 42 d 40 2 "
    ∷ "1 1 1c 17f8 8 4d6 2a 9 22e7 4 1 7 1 2 1 123 2d 3 11 4 8 18c 904 6b 5 d 3 9 7 a 1646 14 "
    ∷ "6c 19 87 55 1 47 1 2 2 1 2 2 2 4 1 c 1 1 1 7 1 41 1 4 2 8 1 7 1 1c 1 4 1 5 1 1 3 7 1 "
    ∷ "154 2 19 1 19 1 1f 1 19 1 1f 1 19 1 1f 1 19 1 1f 1 19 1 8 2 32 700 1f 1e1 2d a 7 2 a 4 "
    ∷ "1 141 1e 12 2c 4 a 4e6 7 1 4 1 2 1 f 1 c5 2 9 30 44 7 1 4 a 317 3b 1 3 1 4 4c 2d 1 f c2 "
    ∷ "4 1 1b 1 2 1 1 2 1 1 a 1 4 1 1 1 1 6 1 4 1 1 1 1 1 1 3 1 2 1 1 2 1 1 1 1 1 1 1 1 1 1 2 "
    ∷ "1 1 2 4 1 7 1 4 1 4 1 1 1 a 1 11 5 3 1 5 1 11 244 d ae3 a 406 a6e0 20 1039 7 de 2 1682 "
    ∷ "e 1d31 c1f 21e 5e2 134b " ∷ []

unfoldable pub wide_word : ℕ → Bool
wide_word c = is_some (place c false 0 0 (joined String.[] word_runs))

unfoldable pub wide_digit : ℕ → Bool
wide_digit c = is_some (place c false 0 0 (joined String.[] digit_runs))

-- What a digit stands for: every run begins with a zero.
unfoldable pub wide_value : ℕ → ℕ
wide_value c = elim (place c false 0 0 (joined String.[] digit_runs)) [ none ↦ 0 | some n ↦ n % 10 ]

abbrev wide_spaces : List ℕ
wide_spaces =
    133 ∷ 160 ∷ 5760 ∷ 8192 ∷ 8193 ∷ 8194 ∷ 8195 ∷ 8196 ∷ 8197 ∷ 8198 ∷ 8199 ∷ 8200 ∷ 8201 ∷ 8202
    ∷ 8232 ∷ 8233 ∷ 8239 ∷ 8287 ∷ 12288 ∷ []

abbrev one_of : ℕ → List ℕ → Bool
one_of c [] = false
one_of c (x ∷ xs) = c == x || one_of c xs

unfoldable pub wide_space : ℕ → Bool
wide_space c = one_of c wide_spaces

abbrev no_digits : List ℕ → Bool
no_digits [] = true
no_digits (x ∷ xs) = not (wide_digit x) && no_digits xs

no_digits-one_of :
    (c : ℕ) (xs : List ℕ) → no_digits xs ≡ true → one_of c xs ≡ true → wide_digit c ≡ false
no_digits-one_of c [] h m = absurd (cc)
no_digits-one_of c (x ∷ xs) h m = ground (arith, no_digits-one_of c xs)

spaces_no_digits : no_digits wide_spaces ≡ true
unfolding wide_digit place joined
spaces_no_digits = refl

-- No space is a digit.
pub wide_digit-wide_space : (c : ℕ) → wide_space c ≡ true → wide_digit c ≡ false
unfolding wide_space
wide_digit-wide_space c h = no_digits-one_of c wide_spaces spaces_no_digits h

-- The two letters that IGNORECASE takes for an i, a long s, and the sign of the kelvin.
pub wide_letters :
    (wide_word 304 ≡ true)
    × (wide_word 305 ≡ true)
    × (wide_word 383 ≡ true)
    × (wide_word 8490 ≡ true)
unfolding wide_word place joined
wide_letters = (refl, refl, refl, refl)
