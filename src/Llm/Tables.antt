-- ===== src/Llm/Tables.antt =====
-- `relevant_tables` of llm/prompt.py.
pub mod Steps
pub mod Sound
pub mod Picked
pub mod Closure
use insightkit.Prelude.{
  ℕ, zero, suc, ◌+◌, Bool, true, false, not, ◌||◌, Option, none, some, List, [], ◌∷◌, ◌++◌, map,
  Text, text_mem, ltb, leb, any, keep, take, length, is_lower, is_digit, is_empty, ◌==◌, lower,
  split_on, if◌then◌else◌,
}
use insightkit.Re.Syntax.{Regex, some_of}
use insightkit.Re.Scan.{finditer}
use insightkit.Schema.{ColumnMeta, TableMeta, SchemaMetadata, table}

abbrev pub is_token : ℕ → Bool
is_token c = is_lower c || is_digit c || c == b'_'

-- `set(re.findall(r"[a-z0-9_]+", text.lower()))`
unfoldable pub tokens : Text → List Text
tokens s = map (λ m. m.group) (finditer (some_of is_token) (lower s))

-- `a & b`
unfoldable pub overlap : List Text → List Text → Bool
overlap a b = any (λ s. text_mem s b) a

unfoldable pub column_score : List Text → List ColumnMeta → ℕ
column_score q [] = 0
column_score q (c ∷ cs) = (if overlap (tokens c.name) q then 1 else 0) + column_score q cs

-- `score`
unfoldable pub score : List Text → TableMeta → ℕ
score q t = (if overlap (tokens t.name) q then 3 else 0) + column_score q t.columns

-- `sorted(tables, key=score, reverse=True)`, which keeps equals in their order.
unfoldable pub insert_by : (TableMeta → ℕ) → TableMeta → List TableMeta → List TableMeta
insert_by key t [] = t ∷ []
insert_by key t (u ∷ us) =
    let rest = insert_by key t us in if ltb (key t) (key u) then u ∷ rest else t ∷ u ∷ us

unfoldable pub sort_by : (TableMeta → ℕ) → List TableMeta → List TableMeta
sort_by key [] = []
sort_by key (t ∷ ts) = insert_by key t (sort_by key ts)

-- `if not picked: picked = scored[:max_tables]`
abbrev pub or_first : List TableMeta → List TableMeta → List TableMeta
or_first [] scored = scored
or_first (t ∷ ts) scored = t ∷ ts

unfoldable pub pick : List Text → ℕ → List TableMeta → List TableMeta
pick q max_tables tables =
    let scored = sort_by (score q) tables in
    or_first (take max_tables (keep (λ t. ltb 0 (score q t)) scored)) (take max_tables scored)

-- The variables of the closure.
pub record Picking : Type 0 where
  pub picked : List TableMeta
  pub names : List Text
  pub changed : Bool

-- `c.fk_ref.split(".")[0]`, if the reference is no empty text
abbrev pub first_part : List Text → Text
first_part [] = []
first_part (s ∷ ss) = s

unfoldable pub ref_of : Option Text → Option Text
ref_of none = none
ref_of (some []) = none
ref_of (some (x ∷ xs)) = some (first_part (split_on b'.' (x ∷ xs)))

-- The reference, if there is one, before the others.
abbrev pub some_ref : Option Text → List Text → List Text
some_ref none rs = rs
some_ref (some r) rs = r ∷ rs

-- The references of all tables: every pass but the last adds the name of one.
unfoldable pub column_refs : List ColumnMeta → List Text
column_refs [] = []
column_refs (c ∷ cs) = some_ref (ref_of c.fk_ref) (column_refs cs)

unfoldable pub refs : List TableMeta → List Text
refs [] = []
refs (t ∷ ts) = column_refs t.columns ++ refs ts

module _ (schema : SchemaMetadata) where
  abbrev pub add_table : Text → Option TableMeta → Picking → Picking
  add_table ref none p = p
  add_table ref (some t) p = record {
    picked = p.picked ++ t ∷ [];
    names = ref ∷ p.names;
    changed = true;
  }

  unfoldable pub visit_ref : Option Text → Picking → Picking
  visit_ref none p = p
  visit_ref (some ref) p = if text_mem ref p.names then p else add_table ref (table schema ref) p

  -- `for c in t.columns`
  unfoldable pub visit_columns : List ColumnMeta → Picking → Picking
  visit_columns [] p = p
  visit_columns (c ∷ cs) p = visit_columns cs (visit_ref (ref_of c.fk_ref) p)

  -- `for t in list(picked)`
  unfoldable pub visit_tables : List TableMeta → Picking → Picking
  visit_tables [] p = p
  visit_tables (t ∷ ts) p = visit_tables ts (visit_columns t.columns p)

  abbrev pub one_pass : Picking → Picking
  one_pass p = visit_tables p.picked (record p { changed = false })

  -- `while changed`, with a bound on the passes.
  unfoldable pub close : ℕ → Picking → Picking
  close zero p = p
  close (suc n) p = let q = one_pass p in let rest = close n q in if q.changed then rest else q

  unfoldable pub relevant_tables : Text → ℕ → SchemaMetadata
  relevant_tables question max_tables =
      if leb (length schema.tables) max_tables
      then schema
      else let picked = pick (tokens question) max_tables schema.tables in
        record schema {
          tables =
              (close (suc (length (refs schema.tables))) (record {
                picked = picked;
                names = map (λ t. t.name) picked;
                changed = true;
              })).picked;
        }
