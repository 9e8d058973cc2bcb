-- ===== src/Guard/Qualified.antt =====
-- What passes by `check_forbidden_tables` of security/guard.py: a name behind its schema.
use insightkit.Prelude.{
  ℕ, zero, Bool, true, false, Option, none, some, [], ◌∷◌, ◌++◌, ◌≡◌, refl, ◌<◌, ◌||◌, Text, text,
  arith, Bool-cases, map, length, length-append, text_mem, text_eq_iff, text_eq, inl, inr, lower,
  lower_char, strip, contains, all, all-append, ◌==◌, not, ap, all-imp, lstrip_by, rstrip_by,
  is_space, append-nil,
}
use insightkit.Prelude.Result.{ok}
use insightkit.Re.Syntax.{Regex}
use insightkit.Re.Matcher.{match_at, run}
use insightkit.Re.Scan.{finditer, finditer_from, sub, sub_from}
use insightkit.Guard.Sql.{
  comment_re, ident_re, is_ident, identifiers, mentions, first_mentioned, check_forbidden_tables,
  strip_comments,
}
use insightkit.Guard.Identifiers.{is_identifier, match_at-identifier}

finditer_passed :
    (r : Regex) (xs seen : Text) (p : Option ℕ) → finditer_from r (length xs) seen p xs ≡ []
unfolding finditer_from
finditer_passed r [] seen p = refl
finditer_passed r (x ∷ xs) seen p = finditer_passed r xs (seen ++ x ∷ []) (some x)

-- An identifier is found as a whole.
finditer_whole :
    (seen : Text) (p : Option ℕ) (name : Text)
    → is_identifier name ≡ true
    → map (λ m. m.group) (finditer_from ident_re zero seen p name) ≡ name ∷ []
unfolding finditer_from
finditer_whole seen p [] h = absurd (cc)
finditer_whole seen p (x ∷ xs) h =
    let e : match_at ident_re p (x ∷ xs) ≡ some (x ∷ xs, []) =
      rw append-nil at (match_at-identifier p (x ∷ xs) [] h refl) in
    rw (e, finditer_from) (rw (finditer_passed ident_re xs (seen ++ x ∷ []) (some x)))

abbrev plain : ℕ → Bool
plain c = is_ident c || c == b' ' || c == b'*'

sub_plain :
    (p : Option ℕ) (xs : Text) → all plain xs ≡ true → sub_from comment_re (text " ") zero p xs ≡ xs
unfolding sub_from match_at
sub_plain p [] h = refl
sub_plain p (x ∷ xs) h =
    let e : match_at comment_re p (x ∷ xs) ≡ none = unfold match_at run in ground arith in
    rw (e, sub_from) (ap (◌∷◌ x) (sub_plain (some x) xs (ground arith)))

lower-plain : (xs : Text) → all plain xs ≡ true → lower xs ≡ xs
unfolding lower
lower-plain [] h = refl
lower-plain (x ∷ xs) h =
    let e : lower_char x ≡ x = ground arith in rw (e, lower-plain xs (ground arith))

contains_absent :
    (c : ℕ) (needle xs : Text)
    → all (λ x. not (x == c)) xs ≡ true
    → contains (c ∷ needle) xs ≡ false
contains_absent c needle [] h = refl
contains_absent c needle (x ∷ xs) h =
    let e : x == c ≡ false = ground arith in rw (e, contains_absent c needle xs (ground arith))

abbrev pub select_from : Text → Text
select_from source = text "select * from " ++ source

abbrev pub qualified : Text → Text → Text
qualified schema table = schema ++ (b'.' ∷ table)

lstrip_by-none : (xs : Text) → all is_ident xs ≡ true → lstrip_by is_space xs ≡ xs
unfolding lstrip_by
lstrip_by-none [] h = refl
lstrip_by-none (x ∷ xs) h = ground arith

rstrip_by-none : (xs : Text) → all is_ident xs ≡ true → rstrip_by is_space xs ≡ xs
unfolding rstrip_by
rstrip_by-none [] h = refl
rstrip_by-none (x ∷ xs) h = ground (arith, rstrip_by-none xs)

strip_ident : (xs : Text) → all is_ident xs ≡ true → strip xs ≡ xs
unfolding strip
strip_ident xs h = rw (lstrip_by-none xs h) (rstrip_by-none xs h)

text_eq_shorter : (s t : Text) → length s < length t → text_eq s t ≡ false
text_eq_shorter s t h = elim (Bool-cases (text_eq s t)) [
  | inl e ↦ absurd (omega (arith, ap (λ (x : Text). length x) ((text_eq_iff s t).0 e)))
  | inr e ↦ e
]

module _ (schema table : Text) (hs : is_identifier schema ≡ true)
    (ht : is_identifier table ≡ true) where
  ident_table : all is_ident table ≡ true
  ident_table = ground arith

  qualified-is_identifier : is_identifier (qualified schema table) ≡ true
  qualified-is_identifier = go schema hs
    where
      go : (s : Text) → is_identifier s ≡ true → is_identifier (qualified s table) ≡ true
      go [] h = absurd (cc)
      go (x ∷ s) h = rw (all-append is_ident s (b'.' ∷ table), ident_table) (ground arith)

  query_plain : all plain (select_from (qualified schema table)) ≡ true
  query_plain =
      all-imp is_ident plain (qualified schema table) (λ x h. ground arith)
        (ground (arith, qualified-is_identifier))

  identifiers_query :
      identifiers (select_from (qualified schema table))
      ≡ text "select" ∷ text "from" ∷ qualified schema table ∷ []
  unfolding identifiers finditer finditer_from match_at run
  identifiers_query =
      ap (λ l. text "select" ∷ text "from" ∷ l)
        (finditer_whole (text "select * from ") (some b' ') (qualified schema table)
          qualified-is_identifier)

  lacks_quote :
      (c : ℕ)
      → plain c ≡ false
      → all (λ x. not (x == c)) (select_from (qualified schema table)) ≡ true
  lacks_quote c h =
      all-imp plain (λ x. not (x == c)) (select_from (qualified schema table))
        (λ x k. ground (arith, ap plain)) query_plain

  not_itself : text_eq table (qualified schema table) ≡ false
  not_itself =
      text_eq_shorter table (qualified schema table)
        (omega (arith, length-append {0} schema (b'.' ∷ table)))

  module _ (other : text_mem table (text "select" ∷ text "from" ∷ []) ≡ false) where
    not_mentioned : mentions (select_from (qualified schema table)) table ≡ false
    unfolding mentions
    not_mentioned =
        rw
          (
            identifiers_query,
            contains_absent b'"' (table ++ text "\"") _ (lacks_quote b'"' refl),
            contains_absent 39 (table ++ text "'") _ (lacks_quote 39 refl),
            not_itself,
          )
          (ground arith)

    -- A blocked table is read through its schema: for identifiers in lower case, the query
    -- `select * from schema.table` passes the check that blocks `table`, if the table is not
    -- called select or from.
    pub check_forbidden_tables_passes_qualified :
        check_forbidden_tables (select_from (qualified schema table)) (table ∷ [])
        ≡ ok (select_from (qualified schema table))
    unfolding check_forbidden_tables first_mentioned
    check_forbidden_tables_passes_qualified =
        let q = select_from (qualified schema table) in
        let clean : strip_comments q ≡ q =
          unfold strip_comments sub in sub_plain none q query_plain in
        let name : lower (strip table) ≡ table =
          rw (strip_ident table ident_table)
            (lower-plain table (all-imp is_ident plain table (λ x h. ground arith) ident_table)) in
        let miss : first_mentioned (lower (strip_comments q)) (table ∷ []) ≡ none =
          rw (clean, lower-plain q query_plain, name, not_mentioned) (ground arith) in
        rw (miss, check_forbidden_tables)
