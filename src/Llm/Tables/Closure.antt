-- ===== src/Llm/Tables/Closure.antt =====
-- `relevant_tables` of llm/prompt.py: the tables that it keeps are closed under foreign keys.
use insightkit.Prelude.{
  ℕ, suc, true, not, none, List, [], ◌∷◌, map, ◌≡◌, refl, sym, ◌⊎◌, inl, inr, Text, text_eq,
  text_eq_iff, text_mem, leb, length, length-keep-le, lower, All, Bool-cases, arith,
}
use mathlib.Core.Path.{subst}
use insightkit.Schema.{TableMeta, SchemaMetadata, table, find_table}
use insightkit.Llm.Tables.{tokens, Picking, column_refs, refs, close, relevant_tables}
use insightkit.Llm.Tables.Steps.{IsSettled, AreSettled}
use insightkit.Llm.Tables.Sound.{HasTable, IsSound, close-Closed}
use insightkit.Llm.Tables.Picked.{All-pick, AllIn, refs-listed}

module _ (schema : SchemaMetadata) where
  has_later :
      (t : TableMeta) (ts : List TableMeta) (names : List Text)
      → All (HasTable schema ts) names
      → All (HasTable schema (t ∷ ts)) names
  has_later t ts [] h = tt
  has_later t ts (n ∷ ns) h = (ground (arith, h.0), has_later t ts ns h.1)

  has_names : (ts : List TableMeta) → All (HasTable schema ts) (map (λ t. t.name) ts)
  has_names [] = tt
  has_names (t ∷ ts) =
      (ground (arith, text_eq_iff (lower t.name) (lower t.name)), has_later t ts _ (has_names ts))

  has_named :
      (ts : List TableMeta) (r : Text) (names : List Text)
      → All (HasTable schema ts) names
      → text_mem r names ≡ true
      → HasTable schema ts r
  has_named ts r [] h e = absurd (cc)
  has_named ts r (n ∷ ns) h e = elim (Bool-cases (text_eq r n)) [
    | inl same ↦ subst (HasTable schema ts) (sym ((text_eq_iff r n).0 same)) h.0
    | inr differs ↦ has_named ts r ns h.1 (rw differs at e)
  ]

  find_table-cases :
      (ts : List TableMeta) (n : Text) → HasTable schema ts n ⊎ (find_table ts n ≡ none)
  unfolding find_table
  find_table-cases [] n = inr refl
  find_table-cases (t ∷ ts) n = elim (Bool-cases (text_eq (lower t.name) (lower n))) [
    | inl same ↦ inl (rw same refl)
    | inr differs ↦ elim (find_table-cases ts n) [
      | inl h ↦ inl (rw differs h)
      | inr e ↦ inr (rw differs e)
    ]
  ]

  -- The reference is to one of the tables, or to none of the schema's.
  abbrev pub Resolves : List TableMeta → Text → Type 0
  Resolves ts r = HasTable schema ts r ⊎ (table schema r ≡ none)

  -- So is every foreign key of the tables.
  abbrev pub AreClosed : List TableMeta → Type 0
  AreClosed ts = All (λ t. All (Resolves ts) (column_refs t.columns)) ts

  closed_refs :
      (ts : List TableMeta) (names rs : List Text)
      → All (HasTable schema ts) names
      → All (IsSettled schema names) rs
      → All (Resolves ts) rs
  closed_refs ts names [] h k = tt
  closed_refs ts names (r ∷ rs) h k = (resolved k.0, closed_refs ts names rs h k.1)
    where
      resolved : IsSettled schema names r → Resolves ts r
      resolved (inl m) = inl (has_named ts r names h m)
      resolved (inr e) = inr e

  closed_tables :
      (ts us : List TableMeta) (names : List Text)
      → All (HasTable schema ts) names
      → AreSettled schema names us
      → All (λ t. All (Resolves ts) (column_refs t.columns)) us
  closed_tables ts [] names h k = tt
  closed_tables ts (u ∷ us) names h k =
      (closed_refs ts names (column_refs u.columns) h k.0, closed_tables ts us names h k.1)

  whole_refs : (rs : List Text) → All (Resolves schema.tables) rs
  unfolding table
  whole_refs [] = tt
  whole_refs (r ∷ rs) = (find_table-cases schema.tables r, whole_refs rs)

  whole_tables :
      (us : List TableMeta) → All (λ t. All (Resolves schema.tables) (column_refs t.columns)) us
  whole_tables [] = tt
  whole_tables (u ∷ us) = (whole_refs (column_refs u.columns), whole_tables us)

  abbrev closing : (picked : List TableMeta) → Picking
  closing picked = record { picked = picked; names = map (λ t. t.name) picked; changed = true }

  close-AreClosed :
      (picked : List TableMeta)
      → All (λ t. AllIn (refs schema.tables) (column_refs t.columns)) picked
      → AreClosed
          (close schema
            (suc (length (refs schema.tables)))
            (record { picked = picked; names = map (λ t. t.name) picked; changed = true })).picked
  close-AreClosed picked h =
      let sound : IsSound schema (closing picked) = record {
        listed = h;
        named = has_names picked;
      } in
      let (s, k) =
        close-Closed schema (refs-listed schema.tables) (suc (length (refs schema.tables)))
          (closing picked) sound
          (omega (
            arith,
            length-keep-le (λ r. not (text_mem r (closing picked).names)) (refs schema.tables),
          )) in
      closed_tables _ _ _ s.named k

  -- Whatever the question and the bound, each foreign key of the tables that are kept refers to a
  -- table that is kept too, whatever the case of its name, or to none of the schema.
  pub relevant_tables-AreClosed :
      (question : Text) (max_tables : ℕ)
      → AreClosed (relevant_tables schema question max_tables).tables
  unfolding relevant_tables
  relevant_tables-AreClosed question max_tables =
      elim (Bool-cases (leb (length schema.tables) max_tables)) [
        | inl small ↦ rw small (whole_tables schema.tables)
        | inr large ↦ rw large (
            close-AreClosed _ (
              All-pick (λ t. AllIn (refs schema.tables) (column_refs t.columns)) (tokens question)
                max_tables schema.tables (refs-listed schema.tables)))
      ]
