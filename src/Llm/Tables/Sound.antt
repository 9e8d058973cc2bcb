-- ===== src/Llm/Tables/Sound.antt =====
-- `relevant_tables` of llm/prompt.py: the loop ends, with every reference settled.
use insightkit.Prelude.{
  ℕ, zero, suc, ◌<◌, Bool, true, false, Option, none, some, List, [], ◌∷◌, ◌++◌, ◌≡◌, refl, sym, ap,
  inl, inr, Text, text_eq, text_mem, any, lower, All, if◌then◌else◌, Bool-cases, arith,
}
use mathlib.Core.Path.{subst}
use insightkit.Schema.{ColumnMeta, TableMeta, SchemaMetadata, table, find_table}
use insightkit.Llm.Tables.{
  Picking, ref_of, add_table, visit_ref, visit_columns, visit_tables, one_pass, close,
}
use insightkit.Llm.Tables.Steps.{
  unnamed, all_refs, IsListed, AreSettled, Step, AllListed, All-snoc, visit_tables-Step,
}

module _ (schema : SchemaMetadata) where
  -- The table that a reference means, whatever the case.
  abbrev pub HasTable : List TableMeta → Text → Type 0
  HasTable ts n = any (λ t. text_eq (lower t.name) (lower n)) ts ≡ true

  pub record IsSound (p : Picking) : Type 0 where
    pub listed : AllListed schema p
    pub named : All (HasTable p.picked) p.names

  any-snoc :
      (f : TableMeta → Bool) (ts : List TableMeta) (t : TableMeta)
      → any f ts ≡ true
      → any f (ts ++ t ∷ []) ≡ true
  any-snoc f [] t h = absurd (cc)
  any-snoc f (u ∷ ts) t h = ground (arith, any-snoc f ts t)

  any-last :
      (f : TableMeta → Bool) (ts : List TableMeta) (t : TableMeta)
      → f t ≡ true
      → any f (ts ++ t ∷ []) ≡ true
  any-last f [] t h = rw h
  any-last f (u ∷ ts) t h = ground (arith, any-last f ts t h)

  named-snoc :
      (ts : List TableMeta) (t : TableMeta) (names : List Text)
      → All (HasTable ts) names
      → All (HasTable (ts ++ t ∷ [])) names
  named-snoc ts t [] h = tt
  named-snoc ts t (n ∷ ns) h = (any-snoc _ ts t h.0, named-snoc ts t ns h.1)

  -- What `find_table` returns has the name and, like every table, the property.
  find_table-All :
      (P : TableMeta → Type 0) (ts : List TableMeta) (n : Text) (t : TableMeta)
      → All P ts
      → find_table ts n ≡ some t
      → P t × (text_eq (lower t.name) (lower n) ≡ true)
  unfolding find_table
  find_table-All P [] n t h e = absurd (cc)
  find_table-All P (u ∷ ts) n t h e = elim (Bool-cases (text_eq (lower u.name) (lower n))) [
    | inl same ↦
        let k : u ≡ t = cc (rw same at e) in
        subst (λ x. P x × (text_eq (lower x.name) (lower n) ≡ true)) k (h.0, same)
    | inr differs ↦ find_table-All P ts n t h.1 (rw differs at e)
  ]

  module _ (all_listed : All (IsListed schema) schema.tables) where
    add-IsSound :
        (ref : Text) (o : Option TableMeta) (p : Picking)
        → table schema ref ≡ o
        → IsSound p
        → IsSound (add_table schema ref o p)
    unfolding table
    add-IsSound ref none p e h = h
    add-IsSound ref (some t) p e h =
        let (l, same) = find_table-All (IsListed schema) schema.tables ref t all_listed e in
        record {
          listed = All-snoc schema p.picked t h.listed l;
          named = (any-last _ p.picked t same, named-snoc p.picked t p.names h.named);
        }

    visit_ref-IsSound : (o : Option Text) (p : Picking) → IsSound p → IsSound (visit_ref schema o p)
    unfolding visit_ref
    visit_ref-IsSound none p h = h
    visit_ref-IsSound (some ref) p h = elim (Bool-cases (text_mem ref p.names)) [
      | inl old ↦ rw old h
      | inr new ↦ rw new (add-IsSound ref (table schema ref) p refl h)
    ]

    visit_columns-IsSound :
        (cs : List ColumnMeta) (p : Picking) → IsSound p → IsSound (visit_columns schema cs p)
    unfolding visit_columns
    visit_columns-IsSound [] p h = h
    visit_columns-IsSound (c ∷ cs) p h =
        visit_columns-IsSound cs (visit_ref schema (ref_of c.fk_ref) p)
          (visit_ref-IsSound (ref_of c.fk_ref) p h)

    visit_tables-IsSound :
        (ts : List TableMeta) (p : Picking) → IsSound p → IsSound (visit_tables schema ts p)
    unfolding visit_tables
    visit_tables-IsSound [] p h = h
    visit_tables-IsSound (t ∷ ts) p h =
        visit_tables-IsSound ts (visit_columns schema t.columns p)
          (visit_columns-IsSound t.columns p h)

    abbrev pub Closed : Picking → Type 0
    Closed p = IsSound p × AreSettled schema p.names p.picked

    -- A pass that changes nothing found every reference settled.
    pass_ends :
        (p : Picking)
        → IsSound p
        → Step schema
            (record p { changed = false })
            (one_pass schema p)
            (AreSettled schema p.names p.picked)
        → (one_pass schema p).changed ≡ false
        → Closed (one_pass schema p)
    pass_ends p h (inl (e, s)) c =
        subst Closed (sym e) (record { listed = h.listed; named = h.named }, s)
    pass_ends p h (inr (c', l)) c = absurd (cc)

    Closed-if :
        (b : Bool) (p q : Picking)
        → (b ≡ true → Closed p)
        → (b ≡ false → Closed q)
        → Closed (if b then p else q)
    Closed-if true p q f g = f refl
    Closed-if false p q f g = g refl

    pub close-Closed :
        (n : ℕ) (p : Picking)
        → IsSound p
        → unnamed (all_refs schema) p.names < n
        → Closed (close schema n p)
    unfolding close
    close-Closed zero p h l = absurd (omega arith)
    close-Closed (suc n) p h l =
        let q = one_pass schema p in
        let start = record p { changed = false } in
        let step = visit_tables-Step schema p.picked start h.listed in
        let sound =
          visit_tables-IsSound p.picked start (record { listed = h.listed; named = h.named }) in
        Closed-if q.changed (close schema n q) q
          (λ more. close-Closed n q sound (shrinks step more)) (λ done. pass_ends p h step done)
      where
        shrinks :
            Step schema
              (record p { changed = false })
              (one_pass schema p)
              (AreSettled schema p.names p.picked)
            → (one_pass schema p).changed ≡ true
            → unnamed (all_refs schema) (one_pass schema p).names < n
        shrinks (inl (e, s)) c = absurd (cc (ap (λ q. q.changed) e))
        shrinks (inr (c', k)) c = omega arith
