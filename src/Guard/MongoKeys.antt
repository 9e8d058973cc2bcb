-- ===== src/Guard/MongoKeys.antt =====
-- The search for forbidden keys of security/guard.py, `_mongo_has_forbidden`.
use insightkit.Prelude.{
  Bool, true, not, List, ◌∷◌, ◌++◌, ◌≡◌, refl, ◌↔◌, Option, none, some, Text, text_mem,
  if◌then◌else◌, all, all-append, arith, Bool-cases, inl, inr,
}
use insightkit.Json.{
  Json, null, bool, num, str, arr, obj, Items, nil, cons, Fields, end, field, all_keys,
  all_keys_items, all_keys_fields,
}
use insightkit.Guard.Mongo.{
  is_forbidden_key, or_next, has_forbidden, has_forbidden_items, has_forbidden_fields, write_stages,
  forbidden_operators,
}

abbrev pub allowed : List Text → Bool
allowed = all (λ k. not (is_forbidden_key k))

or_next-none :
    (a b : Option Text) (ks ls : List Text)
    → (a ≡ none) ↔ (allowed ks ≡ true)
    → (b ≡ none) ↔ (allowed ls ≡ true)
    → (or_next a b ≡ none) ↔ (allowed (ks ++ ls) ≡ true)
or_next-none none b ks ls ia ib = (
  λ h. rw (all-append, ia.0 refl, ib.0 h),
  λ h. ib.1 (ground (arith, all-append (λ k. not (is_forbidden_key k)) ks ls)),
)
or_next-none (some k) b ks ls ia ib = (
  λ h. absurd (cc),
  λ h.
      absurd
        (ground (arith, ia.1 (ground (arith, all-append (λ k. not (is_forbidden_key k)) ks ls)))),
)

key_none :
    (k : Text) (rest : Option Text) (ls : List Text)
    → (rest ≡ none) ↔ (allowed ls ≡ true)
    → ((if text_mem k write_stages
          then some k
          else if text_mem k forbidden_operators
          then some k
          else rest)
        ≡ none)
      ↔ (allowed (k ∷ ls) ≡ true)
key_none k rest ls i = elim (Bool-cases (is_forbidden_key k)) [
  | inl e ↦ (λ h. absurd (ground arith), λ h. absurd (ground arith))
  | inr e ↦ (λ h. ground (arith, i.0), λ h. ground (arith, i.1))
]

mutual
  unfolding has_forbidden all_keys

  forbidden_none : (j : Json) → (has_forbidden j ≡ none) ↔ (allowed (all_keys j) ≡ true)
  forbidden_none null = (λ h. refl, λ h. refl)
  forbidden_none (bool b) = (λ h. refl, λ h. refl)
  forbidden_none (num n) = (λ h. refl, λ h. refl)
  forbidden_none (str s) = (λ h. refl, λ h. refl)
  forbidden_none (arr xs) = forbidden_none_items xs
  forbidden_none (obj fs) = forbidden_none_fields fs

  forbidden_none_items :
      (xs : Items) → (has_forbidden_items xs ≡ none) ↔ (allowed (all_keys_items xs) ≡ true)
  forbidden_none_items nil = (λ h. refl, λ h. refl)
  forbidden_none_items (cons x xs) =
      or_next-none (has_forbidden x) (has_forbidden_items xs) (all_keys x) (all_keys_items xs)
        (forbidden_none x) (forbidden_none_items xs)

  forbidden_none_fields :
      (fs : Fields) → (has_forbidden_fields fs ≡ none) ↔ (allowed (all_keys_fields fs) ≡ true)
  forbidden_none_fields end = (λ h. refl, λ h. refl)
  forbidden_none_fields (field k v fs) =
      key_none k (or_next (has_forbidden v) (has_forbidden_fields fs))
        (all_keys v ++ all_keys_fields fs)
        (or_next-none (has_forbidden v) (has_forbidden_fields fs) (all_keys v) (all_keys_fields fs)
          (forbidden_none v) (forbidden_none_fields fs))

-- The recursive search through a JSON value finds nothing exactly when none of its keys, at any
-- depth, is a write stage or a forbidden operator.
pub has_forbidden_iff : (j : Json) → (has_forbidden j ≡ none) ↔ (allowed (all_keys j) ≡ true)
has_forbidden_iff j = forbidden_none j
