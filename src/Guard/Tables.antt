-- ===== src/Guard/Tables.antt =====
-- `check_forbidden_tables` of security/guard.py: what it blocks, and what passes by it.
use insightkit.Prelude.{
  true, false, none, some, List, [], ◌∷◌, ◌++◌, ◌≡◌, refl, inl, inr, Text, Bool-cases, text_mem,
  is_empty, lower, strip,
}
use insightkit.Prelude.Result.{err}
use insightkit.Re.Syntax.{holds, head}
use insightkit.Re.Language.{last_of}
use insightkit.Guard.Sql.{
  is_ident, identifiers, mentions, first_mentioned, check_forbidden_tables, strip_comments,
  forbidden_table,
}
use insightkit.Guard.Identifiers.{is_identifier, identifiers_complete}

-- `name` stands in `t`, with no letter, digit, underscore or dot on either side.
abbrev pub HasIdentifier : Text → Text → Type 0
HasIdentifier name t =
    (pre : Text) × (post : Text) × (t ≡ pre ++ (name ++ post))
    × (holds is_ident (last_of none pre) ≡ false)
    × (holds is_ident (head post) ≡ false)

mentions-HasIdentifier :
    (name t : Text) → is_identifier name ≡ true → HasIdentifier name t → mentions t name ≡ true
unfolding mentions
mentions-HasIdentifier name t h (pre, post, e, before, after) =
    let found : text_mem name (identifiers t) ≡ true =
      rw e (identifiers_complete pre name post h before after) in
    rw found

not_empty : (name : Text) → is_identifier name ≡ true → is_empty name ≡ false
not_empty [] h = absurd (cc)
not_empty (x ∷ name) h = refl

first_mentioned_finds :
    (t : Text) (before : List Text) (table : Text) (after : List Text)
    → is_identifier (lower (strip table)) ≡ true
    → mentions t (lower (strip table)) ≡ true
    → (hit : Text) × (first_mentioned t (before ++ (table ∷ after)) ≡ some hit)
unfolding first_mentioned
first_mentioned_finds t [] table after h m = (table, rw (not_empty (lower (strip table)) h, m))
first_mentioned_finds t (other ∷ before) table after h m =
    let (hit, e) = first_mentioned_finds t before table after h m in
    elim (Bool-cases (is_empty (lower (strip other)))) [
      | inl blank ↦ (hit, rw blank e)
      | inr named ↦ elim (Bool-cases (mentions t (lower (strip other)))) [
        | inl here ↦ (other, rw (named, here))
        | inr miss ↦ (hit, rw (named, miss) e)
      ]
    ]

-- A query is refused whenever the name of a blocked table, which is an identifier, stands in it
-- outside comments, in any case, with no identifier character on either side.
pub check_forbidden_tables_blocks :
    (sql : Text) (before : List Text) (table : Text) (after : List Text)
    → is_identifier (lower (strip table)) ≡ true
    → HasIdentifier (lower (strip table)) (lower (strip_comments sql))
    → (hit : Text) × (check_forbidden_tables sql (before ++ (table ∷ after))
        ≡ err (forbidden_table hit))
unfolding check_forbidden_tables
check_forbidden_tables_blocks sql before table after h m =
    let (hit, e) =
      first_mentioned_finds (lower (strip_comments sql)) before table after h
        (mentions-HasIdentifier (lower (strip table)) (lower (strip_comments sql)) h m) in
    (hit, rw (e, check_forbidden_tables))
