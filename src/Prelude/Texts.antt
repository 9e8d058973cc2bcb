-- ===== src/Prelude/Texts.antt =====
-- Python's `str` as its list of code points, with the methods that the program calls.
-- The classes of characters are those of Unicode; the case of letters is that of ASCII.
use Prim.Native.Nat.{ℕ, ◌+◌}
use Prim.Native.Char.{code}
use Prim.Native.String.{String}
use mathlib.Core.Path.{◌≡◌, refl, ap, ◌∙◌}
use mathlib.Core.Logic.{◌↔◌}
use mathlib.Core.Bool.{Bool, true, false, ◌&&◌, ◌||◌}
use mathlib.Core.List.{List, [], ◌∷◌, ◌++◌, map}
use native.Mathlib.Omega.{arith}
use mathlib.Core.Logic.{inl, inr}
use insightkit.Prelude.Unicode.{wide_space, wide_digit, wide_value, wide_word}
use insightkit.Prelude.Tests.{leb, ltb, ◌==◌, if◌then◌else◌, Bool-cases}
use insightkit.Prelude.Lists.{all}

abbrev pub Text : Type 0
Text = List ℕ

abbrev pub text : String → Text
text String.[] = []
text (String.◌∷◌ c s) = code c ∷ text s

abbrev pub is_digit : ℕ → Bool
is_digit c = leb b'0' c && leb c b'9'

-- `str.isspace`, which `strip`, `split` and `\s` use
abbrev pub is_space : ℕ → Bool
is_space c = (leb 9 c && leb c 13) || (leb 28 c && leb c 32) || (ltb 127 c && wide_space c)

-- `\d`
abbrev pub is_decimal : ℕ → Bool
is_decimal c = is_digit c || (ltb 127 c && wide_digit c)

-- The ASCII digit for a digit of any script, as `int` reads it.
abbrev pub ascii_digit : ℕ → ℕ
ascii_digit c = if ltb 127 c then b'0' + wide_value c else c

abbrev pub is_upper : ℕ → Bool
is_upper c = leb b'A' c && leb c b'Z'

abbrev pub is_lower : ℕ → Bool
is_lower c = leb b'a' c && leb c b'z'

-- `\w`
abbrev pub is_word : ℕ → Bool
is_word c = is_lower c || is_upper c || is_digit c || c == b'_' || (ltb 127 c && wide_word c)

-- `str.lower` on ASCII, and on the sign of the kelvin, whose small letter is the k of ASCII
abbrev pub lower_char : ℕ → ℕ
lower_char c = if is_upper c then c + 32 else if c == 8490 then b'k' else c

-- A character as IGNORECASE compares it with an ASCII letter.
abbrev pub fold : ℕ → ℕ
fold c = if c == 304 || c == 305 then b'i' else if c == 383 then b's' else lower_char c

unfoldable pub lower : Text → Text
lower = map lower_char

abbrev pub text_eq : Text → Text → Bool
text_eq [] [] = true
text_eq [] (y ∷ ys) = false
text_eq (x ∷ xs) [] = false
text_eq (x ∷ xs) (y ∷ ys) = x == y && text_eq xs ys

pub text_eq_iff : (s t : Text) → (text_eq s t ≡ true) ↔ (s ≡ t)
text_eq_iff [] [] = (λ _. refl, λ _. refl)
text_eq_iff [] (y ∷ ys) = (λ h. cc, λ h. cc)
text_eq_iff (x ∷ xs) [] = (λ h. cc, λ h. cc)
text_eq_iff (x ∷ xs) (y ∷ ys) =
    (λ h. ground (arith, text_eq_iff xs ys), λ h. ground (arith, text_eq_iff xs ys))

pub text_eq_refl : (s : Text) → text_eq s s ≡ true
text_eq_refl s = (text_eq_iff s s).1 refl

-- `needle in items`
abbrev pub text_mem : Text → List Text → Bool
text_mem s [] = false
text_mem s (t ∷ ts) = text_eq s t || text_mem s ts

-- `not s`, for a text or a list
abbrev pub is_empty {ℓ} : {A : Type ℓ} → List A → Bool
is_empty [] = true
is_empty (x ∷ xs) = false

unfoldable pub lstrip_by : (ℕ → Bool) → Text → Text
lstrip_by p [] = []
lstrip_by p (x ∷ xs) = let rest = lstrip_by p xs in if p x then rest else x ∷ xs

unfoldable pub rstrip_by : (ℕ → Bool) → Text → Text
rstrip_by p [] = []
rstrip_by p (x ∷ xs) = let rest = rstrip_by p xs in if is_empty rest && p x then [] else x ∷ rest

unfoldable pub strip : Text → Text
strip s = rstrip_by is_space (lstrip_by is_space s)

abbrev pub starts_with : Text → Text → Bool
starts_with s [] = true
starts_with [] (p ∷ ps) = false
starts_with (x ∷ xs) (p ∷ ps) = x == p && starts_with xs ps

-- `needle in s`
abbrev pub contains : Text → Text → Bool
contains needle [] = is_empty needle
contains needle (x ∷ xs) = starts_with (x ∷ xs) needle || contains needle xs

unfoldable pub split_cons : ℕ → ℕ → List Text → List Text
split_cons c x [] = if x == c then [] ∷ [] ∷ [] else (x ∷ []) ∷ []
split_cons c x (w ∷ ws) = if x == c then [] ∷ w ∷ ws else (x ∷ w) ∷ ws

-- `s.split(c)`
unfoldable pub split_on : ℕ → Text → List Text
unfolding split_cons
split_on c [] = [] ∷ []
split_on c (x ∷ xs) = split_cons c x (split_on c xs)

-- The first of `s.split()`: the characters up to the next space.
unfoldable pub until_space : Text → Text
until_space [] = []
until_space (x ∷ xs) = let rest = until_space xs in if is_space x then [] else x ∷ rest

-- What `rstrip` takes off is a run of the class.
pub rstrip_by-append :
    (p : ℕ → Bool) (s : Text) → (t : Text) × (s ≡ rstrip_by p s ++ t) × (all p t ≡ true)
unfolding rstrip_by
rstrip_by-append p [] = ([], refl, refl)
rstrip_by-append p (x ∷ xs) =
    let (t, e, h) = rstrip_by-append p xs in rstrip_cons (rstrip_by p xs) t e h
  where
    rstrip_cons :
        (r t : Text)
        → xs ≡ r ++ t
        → all p t ≡ true
        → (u : Text) × (x ∷ xs ≡ (if is_empty r && p x then [] else x ∷ r) ++ u) × (all p u ≡ true)
    rstrip_cons [] t e h = elim (Bool-cases (p x)) [
      | inl yes' ↦ (x ∷ t, rw yes' (ap (◌∷◌ x) e), rw yes' h)
      | inr no' ↦ (t, rw no' (ap (◌∷◌ x) e), h)
    ]
    rstrip_cons (y ∷ r) t e h = (t, ap (◌∷◌ x) e, h)

pub lstrip_by-append :
    (p : ℕ → Bool) (s : Text) → (t : Text) × (s ≡ t ++ lstrip_by p s) × (all p t ≡ true)
unfolding lstrip_by
lstrip_by-append p [] = ([], refl, refl)
lstrip_by-append p (x ∷ xs) = elim (Bool-cases (p x)) [
  | inr no' ↦ ([], rw no', refl)
  | inl yes' ↦
      let (t, e, h) = lstrip_by-append p xs in (x ∷ t, rw yes' (ap (◌∷◌ x) e), ground arith)
]

-- `strip` takes spaces off both ends.
pub strip-append :
    (s : Text)
    → (a : Text) × (b : Text) × (s ≡ a ++ (strip s ++ b))
      × (all is_space a ≡ true)
      × (all is_space b ≡ true)
unfolding strip
strip-append s =
    let (a, ea, ha) = lstrip_by-append is_space s in
    let (b, eb, hb) = rstrip_by-append is_space (lstrip_by is_space s) in
    (a, b, ea ∙ ap (◌++◌ a) eb, ha, hb)
