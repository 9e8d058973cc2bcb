-- ===== src/Llm/Tables/Steps.antt =====
-- `relevant_tables` of llm/prompt.py: a visit changes nothing, or names a reference.
use insightkit.Prelude.{
  ℕ, ◌≤◌, ◌<◌, Bool, true, false, not, Option, none, some, List, [], ◌∷◌, ◌++◌, ◌≡◌, refl, ◌∙◌, sym,
  ◌⊎◌, inl, inr, Text, text_eq, text_eq_iff, text_mem, keep, length, All, if◌then◌else◌, Bool-cases,
  arith,
}
use mathlib.Core.Path.{subst}
use insightkit.Schema.{ColumnMeta, TableMeta, SchemaMetadata, table}
use insightkit.Llm.Tables.{
  Picking, ref_of, some_ref, column_refs, refs, add_table, visit_ref, visit_columns, visit_tables,
}

-- How many of the references have no name yet.
abbrev pub unnamed : List Text → List Text → ℕ
unnamed rs names = length (keep (λ r. not (text_mem r names)) rs)

unnamed-cons-le : (rs names : List Text) (x : Text) → unnamed rs (x ∷ names) ≤ unnamed rs names
unnamed-cons-le [] names x = omega arith
unnamed-cons-le (r ∷ rs) names x = ground (arith, unnamed-cons-le rs names x)

unnamed-cons-lt :
    (rs names : List Text) (x : Text)
    → text_mem x rs ≡ true
    → text_mem x names ≡ false
    → unnamed rs (x ∷ names) < unnamed rs names
unnamed-cons-lt [] names x h k = absurd (cc)
unnamed-cons-lt (r ∷ rs) names x h k = elim (Bool-cases (text_eq x r)) [
  | inl same ↦
      let e : x ≡ r = (text_eq_iff x r).0 same in
      let k' : text_mem r names ≡ false = subst (λ y. text_mem y names ≡ false) e k in
      let e' : text_eq r x ≡ true = (text_eq_iff r x).1 (sym e) in
      rw (e', k') (omega (arith, unnamed-cons-le rs names x))
  | inr differs ↦
      let h' : text_mem x rs ≡ true = rw differs at h in
      ground (arith, unnamed-cons-lt rs names x h' k)
]

module _ (schema : SchemaMetadata) where
  abbrev pub all_refs : List Text
  all_refs = refs schema.tables

  -- The references of the table are among those of the schema.
  abbrev pub IsListed : TableMeta → Type 0
  IsListed t = All (λ r. text_mem r all_refs ≡ true) (column_refs t.columns)

  -- The reference is named, or no table has its name.
  abbrev pub IsSettled : List Text → Text → Type 0
  IsSettled names ref = (text_mem ref names ≡ true) ⊎ (table schema ref ≡ none)

  abbrev pub AreSettled : List Text → List TableMeta → Type 0
  AreSettled names = All (λ t. All (IsSettled names) (column_refs t.columns))

  -- The number of unnamed references went down.
  abbrev Grew : Picking → Picking → Type 0
  Grew p q = (q.changed ≡ true) × (unnamed all_refs q.names < unnamed all_refs p.names)

  -- Nothing was changed, where `X` held, or a reference was named.
  abbrev pub Step : Picking → Picking → Type 0 → Type 0
  Step p q X = ((q ≡ p) × X) ⊎ Grew p q

  Step-after :
      (p p' q : Picking) (X : Type 0) (Y : Picking → Type 0)
      → Step p p' X
      → Step p' q (Y p')
      → Step p q (X × Y p)
  Step-after p p' q X Y (inl (e, x)) (inl (f, y)) = inl (f ∙ e, (x, subst Y e y))
  Step-after p p' q X Y (inl (e, x)) (inr g) = inr (subst (λ r. Grew r q) e g)
  Step-after p p' q X Y (inr g) (inl (f, y)) = inr (subst (λ r. Grew p r) (sym f) g)
  Step-after p p' q X Y (inr (c, l)) (inr (c', l')) = inr (c', omega arith)

  abbrev pub AllListed : Picking → Type 0
  AllListed p = All IsListed p.picked

  abbrev SomeSettled : Option Text → List Text → Type 0
  SomeSettled none names = Unit
  SomeSettled (some r) names = IsSettled names r

  pub All-snoc :
      (ts : List TableMeta) (t : TableMeta)
      → All IsListed ts
      → IsListed t
      → All IsListed (ts ++ t ∷ [])
  All-snoc [] t h k = (k, tt)
  All-snoc (u ∷ ts) t h k = (h.0, All-snoc ts t h.1 k)

  add-Step :
      (ref : Text) (o : Option TableMeta) (p : Picking)
      → table schema ref ≡ o
      → text_mem ref all_refs ≡ true
      → text_mem ref p.names ≡ false
      → Step p (add_table schema ref o p) (IsSettled p.names ref)
  add-Step ref none p e h k = inl (refl, inr e)
  add-Step ref (some t) p e h k = inr (refl, unnamed-cons-lt all_refs p.names ref h k)

  abbrev SomeListed : Option Text → Type 0
  SomeListed none = Unit
  SomeListed (some r) = text_mem r all_refs ≡ true

  visit_if :
      (ref : Text) (p : Picking) (b : Bool)
      → text_mem ref p.names ≡ b
      → text_mem ref all_refs ≡ true
      → Step p (if b then p else add_table schema ref (table schema ref) p) (IsSettled p.names ref)
  visit_if ref p true e h = inl (refl, inl e)
  visit_if ref p false e h = add-Step ref (table schema ref) p refl h e

  visit_ref-Step :
      (o : Option Text) (p : Picking)
      → SomeListed o
      → Step p (visit_ref schema o p) (SomeSettled o p.names)
  unfolding visit_ref
  visit_ref-Step none p h = inl (refl, tt)
  visit_ref-Step (some ref) p h = visit_if ref p (text_mem ref p.names) refl h

  -- What is asked of the references of a column and of those after it.
  split_refs :
      (P : Text → Type 0) (o : Option Text) (rs : List Text)
      → All P (some_ref o rs)
      → ((r : Text) → o ≡ some r → P r) × All P rs
  split_refs P none rs h = (λ r e. absurd (cc), h)
  split_refs P (some x) rs h = (λ r e. subst P (cc) h.0, h.1)

  listed_of :
      (o : Option Text) → ((r : Text) → o ≡ some r → text_mem r all_refs ≡ true) → SomeListed o
  listed_of none h = tt
  listed_of (some r) h = h r refl

  join_refs :
      (names : List Text) (o : Option Text) (rs : List Text)
      → SomeSettled o names
      → All (IsSettled names) rs
      → All (IsSettled names) (some_ref o rs)
  join_refs names none rs h k = k
  join_refs names (some r) rs h k = (h, k)

  visit_columns-Step :
      (cs : List ColumnMeta) (p : Picking)
      → All (λ r. text_mem r all_refs ≡ true) (column_refs cs)
      → Step p (visit_columns schema cs p) (All (IsSettled p.names) (column_refs cs))
  unfolding visit_columns column_refs
  visit_columns-Step [] p h = inl (refl, tt)
  visit_columns-Step (c ∷ cs) p h =
      let (first, later) =
        split_refs (λ r. text_mem r all_refs ≡ true) (ref_of c.fk_ref) (column_refs cs) h in
      let p' = visit_ref schema (ref_of c.fk_ref) p in
      joined c cs p (visit_columns schema cs p') (
        Step-after p p' (visit_columns schema cs p') (SomeSettled (ref_of c.fk_ref) p.names)
          (λ q. All (IsSettled q.names) (column_refs cs))
          (visit_ref-Step (ref_of c.fk_ref) p (listed_of (ref_of c.fk_ref) first))
          (visit_columns-Step cs p' later))
    where
      joined :
          (c : ColumnMeta) (cs : List ColumnMeta) (p q : Picking)
          → Step p q
              (SomeSettled (ref_of c.fk_ref) p.names × All (IsSettled p.names) (column_refs cs))
          → Step p q (All (IsSettled p.names) (some_ref (ref_of c.fk_ref) (column_refs cs)))
      joined c cs p q (inl (e, (x, y))) =
          inl (e, join_refs p.names (ref_of c.fk_ref) (column_refs cs) x y)
      joined c cs p q (inr g) = inr g

  pub visit_tables-Step :
      (ts : List TableMeta) (p : Picking)
      → All IsListed ts
      → Step p (visit_tables schema ts p) (AreSettled p.names ts)
  unfolding visit_tables
  visit_tables-Step [] p h = inl (refl, tt)
  visit_tables-Step (t ∷ ts) p h =
      let p' = visit_columns schema t.columns p in
      Step-after p p' (visit_tables schema ts p') _ (λ q. AreSettled q.names ts)
        (visit_columns-Step t.columns p h.0) (visit_tables-Step ts p' h.1)
