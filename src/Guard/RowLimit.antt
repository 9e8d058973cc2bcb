-- ===== src/Guard/RowLimit.antt =====
-- `enforce_row_limit` of security/guard.py: the returned text ends in a LIMIT clause within the
-- limit.
use insightkit.Prelude.{
  ℕ, ◌≤◌, true, Option, none, some, ◌++◌, ◌≡◌, refl, ap, ◌∙◌, inl, inr, Text, ◌==◌, all, arith,
  Bool-cases, is_empty, is_space, ◌⊎◌, strip, rstrip_by, rstrip_by-append, length, take,
  drop-append, take-append, length-append, All-last?, last?, append_assoc, ltb,
}
use insightkit.Prelude.Result.{ok, err}
use insightkit.Re.Language.{last_of}
use insightkit.Re.Scan.{Match, finditer}
use insightkit.Re.Scan.Iterate.{IsMatchOf, All-finditer}
use insightkit.Guard.LimitClause.{
  is_tail, EndsWithLimit, in_ascii, append_limit-EndsWithLimit, clause-EndsWithLimit, LimitMatch,
  limit_match, limit_value-digits, all-tail,
}
use insightkit.Guard.Sql.{
  bad_row_limit, limit_re, limit_value, limit_at, after_match, trimmed, enforce_row_limit,
  is_semicolon,
}

-- What `rstrip` took off can be put back.
trimmed-append : (sql : Text) → (t : Text) × (sql ≡ trimmed sql ++ t)
unfolding trimmed
trimmed-append sql =
    let (a, ea, _) = rstrip_by-append is_space sql in
    let (b, eb, _) = rstrip_by-append is_semicolon (rstrip_by is_space sql) in
    (
      b ++ a,
      ea ∙ ap (λ x. x ++ a) eb ∙ append_assoc (rstrip_by is_semicolon (rstrip_by is_space sql)) b a,
    )

module _ (sql : Text) (limit : ℕ) (m : Match) (rest : Text)
    (whole : sql ≡ m.before ++ (m.group ++ rest)) where
  after_match-eq : after_match sql m ≡ rest
  after_match-eq =
      rw (whole, ← append_assoc m.before m.group rest, ← length-append m.before m.group)
        (drop-append (m.before ++ m.group) rest)

  before-eq : take (length m.before) sql ≡ m.before
  before-eq = rw whole (take-append m.before (m.group ++ rest))

  parted :
      (l : LimitMatch (last_of none m.before) m.group)
      → sql ≡ m.before ++ (l.keyword ++ (l.gap ++ (l.digits ++ rest)))
  parted l = whole ∙ ap (λ g. m.before ++ (g ++ rest)) l.parts ∙ simp append_assoc

  kept-EndsWithLimit :
      LimitMatch (last_of none m.before) m.group
      → limit_value m.group ≤ limit
      → all is_tail rest ≡ true
      → EndsWithLimit sql limit
  kept-EndsWithLimit l small tail = record {
    pre = m.before;
    keyword = l.keyword;
    gap = l.gap;
    digits = l.digits;
    tail = rest;
    parts = parted l;
    alone = l.alone;
    word = l.word;
    spaced = l.spaced;
    numeral = l.numeral;
    within = rw (← limit_value-digits m.group l) small;
    ends = tail;
    plain = in_ascii sql m.before l.keyword l.gap l.digits rest (parted l) l.word l.numeral.0;
  }

  limit_at-EndsWithLimit :
      LimitMatch (last_of none m.before) m.group → EndsWithLimit (limit_at sql limit (some m)) limit
  unfolding limit_at
  limit_at-EndsWithLimit l =
      let last = strip (rstrip_by is_semicolon (strip (after_match sql m))) in
      elim (Bool-cases (is_empty last)) [
        | inr more ↦ rw more (append_limit-EndsWithLimit sql limit)
        | inl none' ↦
            let tail : all is_tail rest ≡ true =
              rw after_match-eq at (all-tail (after_match sql m) none') in
            elim (Bool-cases (ltb limit (limit_value m.group))) [
              | inl above ↦
                  rw (none', above, before-eq, after_match-eq)
                    (clause-EndsWithLimit m.before rest limit l.alone tail)
              | inr within ↦ rw (none', within) (kept-EndsWithLimit l (ground arith) tail)
            ]
      ]

-- The three ways out: no LIMIT, a LIMIT followed by more text, a LIMIT at the end.
limit_at_cases :
    (sql : Text) (limit : ℕ) (found : Option Match)
    → ((m : Match) → found ≡ some m → IsMatchOf limit_re (trimmed sql) m)
    → EndsWithLimit (limit_at sql limit found) limit
limit_at_cases sql limit none h = unfold limit_at in append_limit-EndsWithLimit sql limit
limit_at_cases sql limit (some m) h =
    let (t, e) = trimmed-append sql in
    let ok' = h m refl in
    let whole : sql ≡ m.before ++ (m.group ++ (m.after ++ t)) =
      e ∙ ap (λ x. x ++ t) ok'.splits ∙ simp append_assoc in
    limit_at-EndsWithLimit sql limit m (m.after ++ t) whole
      (limit_match (last_of none m.before) m.group m.after ok'.matches)

-- For a positive limit, `enforce_row_limit` returns a text that ends in a LIMIT clause as Python reads
-- it, with the letters of IGNORECASE and the spaces and digits of Unicode, whose number is at most
-- the limit; where the text returned is ASCII, the clause is the word LIMIT in any case, ASCII
-- spaces and ASCII digits. For limit 0 it raises.
pub enforce_row_limit-EndsWithLimit :
    (sql : Text) (limit : ℕ)
    → ((limit ≡ 0) × (enforce_row_limit sql limit ≡ err bad_row_limit))
      ⊎ ((out : Text) × (enforce_row_limit sql limit ≡ ok out) × EndsWithLimit out limit)
unfolding enforce_row_limit
enforce_row_limit-EndsWithLimit sql limit = elim (Bool-cases (limit == 0)) [
  | inl zero' ↦ inl (ground arith, rw zero')
  | inr positive ↦ inr (
    limit_at sql limit (last? (finditer limit_re (trimmed sql))),
    rw positive,
    limit_at_cases sql limit (last? (finditer limit_re (trimmed sql))) (λ m e.
        All-last? (IsMatchOf limit_re (trimmed sql)) (finditer limit_re (trimmed sql))
          (All-finditer limit_re (trimmed sql)) e),
  )
]
