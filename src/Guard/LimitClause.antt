-- ===== src/Guard/LimitClause.antt =====
-- LIMIT clauses: what it means that a text ends in one, and what the pattern of security/guard.py
-- matches.
use insightkit.Prelude.{
  ℕ, ◌≤◌, ◌<◌, Bool, true, false, Option, none, some, [], ◌∷◌, ◌++◌, ◌≡◌, refl, ap, all-imp,
  append-nil, fold, is_decimal, ascii_digit, leb, map, and_parts, Bool-cases, inl, inr, ◌⊎◌,
  wide_digit-wide_space, ◌∙◌, ◌||◌, Text, text, ==_iff, all, arith, is_space, is_digit, is_word,
  is_empty, lower, strip, strip-append, rstrip_by, rstrip_by-append, lstrip_by, length, drop,
  all-append, append_assoc,
}
use mathlib.Core.Path.{subst, ap₂}
use insightkit.Prelude.Decimal.{decimal, show, decimal-show, all-digit-show, length-show_pos}
use insightkit.Re.Syntax.{literal_ci, some_of, holds, head, at_boundary}
use insightkit.Re.Language.{last_of, Matches}
use insightkit.Guard.Keywords.{boundary_before}
use insightkit.Guard.Sql.{limit_re, limit_value, append_limit, limit_clause, trimmed, is_semicolon}

abbrev pub is_tail : ℕ → Bool
is_tail c = is_space c || is_semicolon c

abbrev pub is_ascii : ℕ → Bool
is_ascii c = leb c 127

-- The parts of the clause are those of ASCII: the letters of the word in any case, and its digits.
pub record IsPlain (keyword gap digits : Text) : Type 0 where
  pub letters : lower keyword ≡ text "limit"
  pub blanks : all is_ascii gap ≡ true
  pub numerals : all is_digit digits ≡ true

-- The text ends in a LIMIT clause as Python reads it: the word stands by itself, its letters compared
-- under IGNORECASE, spaces and digits are those of Unicode, the number is at most `limit`, and
-- nothing but spaces and semicolons comes behind it. In an ASCII text the clause is plain.
pub record EndsWithLimit (out : Text) (limit : ℕ) : Type 0 where
  pub pre : Text
  pub keyword : Text
  pub gap : Text
  pub digits : Text
  pub tail : Text
  pub parts : out ≡ pre ++ (keyword ++ (gap ++ (digits ++ tail)))
  pub alone : holds is_word (last_of none pre) ≡ false
  pub word : map fold keyword ≡ text "limit"
  pub spaced : (all is_space gap ≡ true) × (0 < length gap)
  pub numeral : (all is_decimal digits ≡ true) × (0 < length digits)
  pub within : decimal (map ascii_digit digits) ≤ limit
  pub ends : all is_tail tail ≡ true
  pub plain : (all is_ascii out ≡ false) ⊎ IsPlain keyword gap digits

fold-lower : (kw w : Text) → all is_ascii kw ≡ true → map fold kw ≡ w → lower kw ≡ w
unfolding lower
fold-lower [] w a h = h
fold-lower (x ∷ kw) [] a h = absurd (cc)
fold-lower (x ∷ kw) (y ∷ w) a h =
    ap₂ ◌∷◌ (ground arith) (fold-lower kw w (ground arith) (ground arith))

decimal-digit :
    (ds : Text) → all is_ascii ds ≡ true → all is_decimal ds ≡ true → all is_digit ds ≡ true
decimal-digit [] a h = refl
decimal-digit (x ∷ ds) a h = ground (arith, decimal-digit ds)

digit-decimal : (ds : Text) → all is_digit ds ≡ true → all is_decimal ds ≡ true
digit-decimal [] h = refl
digit-decimal (x ∷ ds) h = ground (arith, digit-decimal ds)

ascii-digits : (ds : Text) → all is_digit ds ≡ true → map ascii_digit ds ≡ ds
ascii-digits [] h = refl
ascii-digits (x ∷ ds) h = ap₂ ◌∷◌ (ground arith) (ascii-digits ds (ground arith))

halves :
    (xs ys : Text)
    → all is_ascii (xs ++ ys) ≡ true
    → (all is_ascii xs ≡ true) × (all is_ascii ys ≡ true)
halves xs ys h = and_parts _ _ (rw all-append at h)

pub in_ascii :
    (out pre keyword gap digits tail : Text)
    → out ≡ pre ++ (keyword ++ (gap ++ (digits ++ tail)))
    → map fold keyword ≡ text "limit"
    → all is_decimal digits ≡ true
    → (all is_ascii out ≡ false) ⊎ IsPlain keyword gap digits
in_ascii out pre keyword gap digits tail e w n = elim (Bool-cases (all is_ascii out)) [
  | inr wide ↦ inl wide
  | inl ascii ↦
      let parts : all is_ascii (pre ++ (keyword ++ (gap ++ (digits ++ tail)))) ≡ true =
        rw e at ascii in
      let (_, rest) = halves pre (keyword ++ (gap ++ (digits ++ tail))) parts in
      let (k, rest') = halves keyword (gap ++ (digits ++ tail)) rest in
      let (g, rest'') = halves gap (digits ++ tail) rest' in
      let (d, _) = halves digits tail rest'' in
      inr (record {
        letters = fold-lower keyword (text "limit") k w;
        blanks = g;
        numerals = decimal-digit digits d n;
      })
]

last_of-space : (p : Option ℕ) (s : Text) → holds is_word (last_of p (s ++ b' ' ∷ [])) ≡ false
last_of-space p [] = refl
last_of-space p (x ∷ s) = last_of-space (some x) s

pub clause-EndsWithLimit :
    (pre tail : Text) (limit : ℕ)
    → holds is_word (last_of none pre) ≡ false
    → all is_tail tail ≡ true
    → EndsWithLimit (pre ++ (limit_clause limit ++ tail)) limit
unfolding lower
clause-EndsWithLimit pre tail limit h t = record {
  pre = pre;
  keyword = text "LIMIT";
  gap = b' ' ∷ [];
  digits = show limit;
  tail = tail;
  parts = refl;
  alone = h;
  word = refl;
  spaced = (refl, omega arith);
  numeral = (digit-decimal (show limit) (all-digit-show limit), length-show_pos limit);
  within = rw (ascii-digits (show limit) (all-digit-show limit), decimal-show) (omega arith);
  ends = t;
  plain =
      in_ascii _ pre (text "LIMIT") (b' ' ∷ []) (show limit) tail refl refl
        (digit-decimal (show limit) (all-digit-show limit));
}

pub append_limit-EndsWithLimit :
    (sql : Text) (limit : ℕ) → EndsWithLimit (append_limit sql limit) limit
unfolding append_limit
append_limit-EndsWithLimit sql limit =
    let s = trimmed sql in
    let e : (s ++ b' ' ∷ []) ++ (limit_clause limit ++ []) ≡ s ++ (b' ' ∷ limit_clause limit) =
      simp (append_assoc, append-nil) in
    subst (λ x. EndsWithLimit x limit) e
      (clause-EndsWithLimit (s ++ b' ' ∷ []) [] limit (last_of-space none s) refl)

-- What a match of the LIMIT pattern is made of.
pub record LimitMatch (p : Option ℕ) (g : Text) : Type 0 where
  pub keyword : Text
  pub gap : Text
  pub digits : Text
  pub parts : g ≡ keyword ++ (gap ++ digits)
  pub alone : holds is_word p ≡ false
  pub word : map fold keyword ≡ text "limit"
  pub spaced : (all is_space gap ≡ true) × (0 < length gap)
  pub numeral : (all is_decimal digits ≡ true) × (0 < length digits)

fold_of_Matches :
    (w : Text) (p : Option ℕ) (u v : Text) → Matches (literal_ci w) p u v → map fold u ≡ w
fold_of_Matches [] p u v e = rw e
fold_of_Matches (x ∷ w) p u v (s, t, e, (c, e', h), m) =
    rw (e, e') (ap₂ ◌∷◌ ((==_iff (fold c) x).0 h) (fold_of_Matches w (last_of p s) t v m))

run_of_class :
    (c : ℕ → Bool) (p : Option ℕ) (u v : Text)
    → Matches (some_of c) p u v
    → (all c u ≡ true) × (0 < length u)
run_of_class c p u v (s, t, e, (x, e', h), m) = rw (e, e') (ground arith)

head_limit : (u v : Text) → map fold u ≡ text "limit" → holds is_word (head (u ++ v)) ≡ true
head_limit [] v h = absurd (cc)
head_limit (x ∷ u) v h = ground arith

pub limit_match : (p : Option ℕ) (g v : Text) → Matches limit_re p g v → LimitMatch p g
limit_match p g v (s, t, e, (e', b), (kw, r, er, mk, (sp, ds, ed, ms, md))) =
    let word = fold_of_Matches (text "limit") (last_of p s) kw (r ++ v) mk in
    let front : at_boundary p (kw ++ (r ++ v)) ≡ true = rw (← append_assoc kw r v, ← er) b in
    record {
      keyword = kw;
      gap = sp;
      digits = ds;
      parts = e ∙ rw e' (er ∙ ap (◌++◌ kw) ed);
      alone = boundary_before p (kw ++ (r ++ v)) front (head_limit kw (r ++ v) word);
      word = word;
      spaced = run_of_class is_space (last_of (last_of p s) kw) sp (ds ++ v) ms;
      numeral = run_of_class is_decimal (last_of (last_of (last_of p s) kw) sp) ds v md;
    }

lstrip_by-spaces :
    (sp ds : Text)
    → all is_space sp ≡ true
    → all is_decimal ds ≡ true
    → 0 < length ds
    → lstrip_by is_space (sp ++ ds) ≡ ds
unfolding lstrip_by
lstrip_by-spaces [] [] h k n = absurd (omega arith)
lstrip_by-spaces [] (d ∷ ds) h k n = ground (arith, wide_digit-wide_space d)
lstrip_by-spaces (x ∷ sp) ds h k n = ground (arith, lstrip_by-spaces sp ds)

drop_keyword : (kw rest w : Text) → map fold kw ≡ w → drop (length w) (kw ++ rest) ≡ rest
drop_keyword [] rest w h = rw (← h)
drop_keyword (x ∷ kw) rest [] h = absurd (cc)
drop_keyword (x ∷ kw) rest (y ∷ w) h = drop_keyword kw rest w (ground arith)

-- `int(last.group(1))` is the number that the digits of the match denote.
pub limit_value-digits :
    {p : Option ℕ} (g : Text) (m : LimitMatch p g)
    → limit_value g ≡ decimal (map ascii_digit m.digits)
unfolding limit_value
limit_value-digits g m =
    let e : drop 5 g ≡ m.gap ++ m.digits =
      rw m.parts (drop_keyword m.keyword (m.gap ++ m.digits) (text "limit") m.word) in
    ap (λ s. decimal (map ascii_digit (lstrip_by is_space s))) e
    ∙ ap (λ s. decimal (map ascii_digit s))
        (lstrip_by-spaces m.gap m.digits m.spaced.0 m.numeral.0 m.numeral.1)

is_empty-eq : (s : Text) → is_empty s ≡ true → s ≡ []
is_empty-eq [] h = refl
is_empty-eq (x ∷ s) h = absurd (cc)

-- `not tail`: only spaces and semicolons follow.
pub all-tail :
    (x : Text) → is_empty (strip (rstrip_by is_semicolon (strip x))) ≡ true → all is_tail x ≡ true
all-tail x h =
    let inner = rstrip_by is_semicolon (strip x) in
    let (a, b, e, ha, hb) = strip-append x in
    let (t, et, ht) = rstrip_by-append is_semicolon (strip x) in
    let (c, d, ei, hc, hd) = strip-append inner in
    let space = λ (y : Text) (k : all is_space y ≡ true).
      all-imp is_space is_tail y (λ z q. ground arith) k in
    let blank : all is_tail inner ≡ true =
      rw (ei, is_empty-eq (strip inner) h, all-append, space c hc, space d hd) in
    let semis : all is_tail t ≡ true = all-imp is_semicolon is_tail t (λ z q. ground arith) ht in
    rw (e, all-append, space a ha, all-append, et, all-append, blank, semis, space b hb)
