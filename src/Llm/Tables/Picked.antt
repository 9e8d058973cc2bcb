-- ===== src/Llm/Tables/Picked.antt =====
-- `relevant_tables` of llm/prompt.py: the tables that are picked are tables of the schema.
use insightkit.Prelude.{
  ℕ, zero, suc, Bool, true, List, [], ◌∷◌, ◌++◌, ◌≡◌, inl, inr, Text, text_eq_iff, text_mem, ltb,
  keep, take, All, Bool-cases, arith,
}
use insightkit.Schema.{TableMeta}
use insightkit.Llm.Tables.{score, insert_by, sort_by, pick, or_first, column_refs, refs}

-- What holds of all tables holds of those that are picked.
module _ (P : TableMeta → Type 0) where
  All-insert_by :
      (key : TableMeta → ℕ) (t : TableMeta) (ts : List TableMeta)
      → P t
      → All P ts
      → All P (insert_by key t ts)
  unfolding insert_by
  All-insert_by key t [] h k = (h, tt)
  All-insert_by key t (u ∷ us) h k = elim (Bool-cases (ltb (key t) (key u))) [
    | inl less ↦ rw less (k.0, All-insert_by key t us h k.1)
    | inr more ↦ rw more (h, k)
  ]

  All-sort_by : (key : TableMeta → ℕ) (ts : List TableMeta) → All P ts → All P (sort_by key ts)
  unfolding sort_by
  All-sort_by key [] h = tt
  All-sort_by key (t ∷ ts) h = All-insert_by key t (sort_by key ts) h.0 (All-sort_by key ts h.1)

  All-keep : (f : TableMeta → Bool) (ts : List TableMeta) → All P ts → All P (keep f ts)
  All-keep f [] h = tt
  All-keep f (t ∷ ts) h = elim (Bool-cases (f t)) [
    | inl held ↦ rw held (h.0, All-keep f ts h.1)
    | inr failed ↦ rw failed (All-keep f ts h.1)
  ]

  All-take : (n : ℕ) (ts : List TableMeta) → All P ts → All P (take n ts)
  All-take zero ts h = tt
  All-take (suc n) [] h = tt
  All-take (suc n) (t ∷ ts) h = (h.0, All-take n ts h.1)

  All-or_first : (xs ys : List TableMeta) → All P xs → All P ys → All P (or_first xs ys)
  All-or_first [] ys h k = k
  All-or_first (x ∷ xs) ys h k = h

  pub All-pick : (q : List Text) (n : ℕ) (ts : List TableMeta) → All P ts → All P (pick q n ts)
  unfolding pick
  All-pick q n ts h =
      let s = All-sort_by (score q) ts h in
      All-or_first _ _ (All-take n _ (All-keep _ _ s)) (All-take n _ s)

mem-append-left :
    (x : Text) (xs ys : List Text) → text_mem x xs ≡ true → text_mem x (xs ++ ys) ≡ true
mem-append-left x [] ys h = absurd (cc)
mem-append-left x (y ∷ xs) ys h = ground (arith, mem-append-left x xs ys)

mem-append-right :
    (x : Text) (xs ys : List Text) → text_mem x ys ≡ true → text_mem x (xs ++ ys) ≡ true
mem-append-right x [] ys h = h
mem-append-right x (y ∷ xs) ys h = ground (arith, mem-append-right x xs ys h)

abbrev pub AllIn : List Text → List Text → Type 0
AllIn all_refs = All (λ r. text_mem r all_refs ≡ true)

AllIn-weaken :
    (rs xs ys : List Text)
    → ((r : Text) → text_mem r xs ≡ true → text_mem r ys ≡ true)
    → AllIn xs rs
    → AllIn ys rs
AllIn-weaken [] xs ys f h = tt
AllIn-weaken (r ∷ rs) xs ys f h = (f r h.0, AllIn-weaken rs xs ys f h.1)

AllIn-self : (rs : List Text) → AllIn rs rs
AllIn-self [] = tt
AllIn-self (r ∷ rs) = (
  ground (arith, text_eq_iff r r),
  AllIn-weaken rs rs (r ∷ rs) (λ x h. ground arith) (AllIn-self rs),
)

tables_weaken :
    (ts : List TableMeta) (xs ys : List Text)
    → ((r : Text) → text_mem r xs ≡ true → text_mem r ys ≡ true)
    → All (λ t. AllIn xs (column_refs t.columns)) ts
    → All (λ t. AllIn ys (column_refs t.columns)) ts
tables_weaken [] xs ys f h = tt
tables_weaken (t ∷ ts) xs ys f h = (AllIn-weaken _ xs ys f h.0, tables_weaken ts xs ys f h.1)

pub refs-listed : (ts : List TableMeta) → All (λ t. AllIn (refs ts) (column_refs t.columns)) ts
unfolding refs
refs-listed [] = tt
refs-listed (t ∷ ts) = (
  AllIn-weaken (column_refs t.columns) _ _
      (λ r h. mem-append-left r (column_refs t.columns) (refs ts) h)
      (AllIn-self (column_refs t.columns)),
  tables_weaken ts (refs ts) (column_refs t.columns ++ refs ts)
      (λ r h. mem-append-right r (column_refs t.columns) (refs ts) h) (refs-listed ts),
)
