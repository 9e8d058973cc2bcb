-- ===== src/Guard/Identifiers.antt =====
-- The identifiers that `check_forbidden_tables` of security/guard.py collects with `re.findall`:
-- every maximal identifier of the text is among them.
use insightkit.Prelude.{
  ℕ, zero, suc, ◌≤◌, ◌<◌, Bool, true, false, Option, none, some, List, [], ◌∷◌, ◌++◌, ◌≡◌, refl,
  sym, inl, inr, ◌&&◌, ◌||◌, Text, map, all, arith, Option-cases, length, text_mem, text_eq_refl,
  text_eq,
}
use insightkit.Re.Syntax.{holds, head}
use insightkit.Re.Matcher.{greedy, run, match_at, done}
use insightkit.Re.Language.{last_of, Matches}
use insightkit.Re.Sound.{match_at_sound}
use insightkit.Re.Scan.{Match, finditer, finditer_from}
use insightkit.Guard.Sql.{ident_re, is_ident, is_ident_start, identifiers}

-- `[a-z_][a-z0-9_\.]*`, in full
abbrev pub is_identifier : Text → Bool
is_identifier s = holds is_ident_start (head s) && all is_ident s

-- A star stops exactly where its class ends.
greedy_max :
    (c : ℕ → Bool) (p : Option ℕ) (u v : Text)
    → all c u ≡ true
    → holds c (head v) ≡ false
    → greedy c p (u ++ v) done ≡ some (u, v)
unfolding greedy
greedy_max c p [] [] h k = refl
greedy_max c p [] (x ∷ v) h k = rw k
greedy_max c p (x ∷ u) v h k =
    let e : c x ≡ true = ground arith in rw (e, greedy_max c (some x) u v (ground arith) k)

pub match_at-identifier :
    (p : Option ℕ) (name v : Text)
    → is_identifier name ≡ true
    → holds is_ident (head v) ≡ false
    → match_at ident_re p (name ++ v) ≡ some (name, v)
unfolding match_at run
match_at-identifier p [] v h k = absurd (ground arith)
match_at-identifier p (x ∷ name) v h k =
    let e : is_ident_start x ≡ true = ground arith in
    rw (e, greedy_max is_ident (some x) name v (ground arith) k)

-- A match of the pattern holds identifier characters only.
all-ident_of_Matches : (p : Option ℕ) (u v : Text) → Matches ident_re p u v → all is_ident u ≡ true
all-ident_of_Matches p u v (s, t, e, (x, e', h), m) = rw (e, e') (ground arith)

-- Two ways to split a text: a run of the class cannot pass a character outside it.
run_stays :
    (c : ℕ → Bool) (p : Option ℕ) (u v pre rest : Text)
    → all c u ≡ true
    → u ++ v ≡ pre ++ rest
    → holds c (last_of p pre) ≡ false
    → 0 < length pre
    → length u < length pre
run_stays c p [] v pre rest h e k n = n
run_stays c p (x ∷ u) v [] rest h e k n = absurd (omega arith)
run_stays c p (x ∷ u) v (y ∷ []) rest h e k n = absurd (ground arith)
run_stays c p (x ∷ u) v (y ∷ z ∷ pre) rest h e k n =
    omega (arith, run_stays c (some y) u v (z ∷ pre) rest (ground arith) (cc) k (omega arith))

or_right : (a b : Bool) → b ≡ true → a || b ≡ true
or_right a b e = ground arith

abbrev groups : List Match → List Text
groups = map (λ m. m.group)

finds :
    (name post : Text)
    → is_identifier name ≡ true
    → holds is_ident (head post) ≡ false
    → (pre : Text) (k : ℕ) (seen : Text) (p : Option ℕ) → holds is_ident (last_of p pre) ≡ false
    → k ≤ length pre
    → text_mem name (groups (finditer_from ident_re k seen p (pre ++ (name ++ post)))) ≡ true
unfolding finditer_from
finds [] post h k' [] k seen p q l = absurd (ground arith)
finds (x ∷ name) post h k' [] zero seen p q l =
    rw (match_at-identifier p (x ∷ name) post h k', finditer_from) (rw (text_eq_refl (x ∷ name)))
finds name post h k' [] (suc k) seen p q l = absurd (omega arith)
finds name post h k' (x ∷ pre) (suc k) seen p q l =
    finds name post h k' pre k (seen ++ x ∷ []) (some x) q (omega arith)
finds name post h k' (x ∷ pre) zero seen p q l =
    elim (Option-cases (match_at ident_re p (x ∷ pre ++ (name ++ post)))) [
      | inl e ↦
          rw (e, finditer_from)
            (finds name post h k' pre zero (seen ++ x ∷ []) (some x) q (omega arith))
      | inr (([], v), e) ↦
          rw (e, finditer_from)
            (finds name post h k' pre zero (seen ++ x ∷ []) (some x) q (omega arith))
      | inr ((y ∷ u, v), e) ↦
          let (e', m) = match_at_sound ident_re p (x ∷ pre ++ (name ++ post)) (y ∷ u) v e in
          let short : length (y ∷ u) < length (x ∷ pre) =
            run_stays is_ident p (y ∷ u) v (x ∷ pre) (name ++ post)
              (all-ident_of_Matches p (y ∷ u) v m) (sym e') q (omega arith) in
          rw (e, finditer_from)
            (or_right (text_eq name (y ∷ u)) _
              (finds name post h k' pre (length u) (seen ++ x ∷ []) (some x) q (omega arith)))
    ]

-- An identifier that stands in the text with no identifier character on either side is collected.
pub identifiers_complete :
    (pre name post : Text)
    → is_identifier name ≡ true
    → holds is_ident (last_of none pre) ≡ false
    → holds is_ident (head post) ≡ false
    → text_mem name (identifiers (pre ++ (name ++ post))) ≡ true
unfolding identifiers finditer
identifiers_complete pre name post h before after =
    finds name post h after pre zero [] none before (omega arith)
