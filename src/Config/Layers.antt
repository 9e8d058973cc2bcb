-- ===== src/Config/Layers.antt =====
-- That the environment of config.py wins over the YAML file.
use insightkit.Prelude.{
  Bool, true, false, ◌&&◌, not, Option, none, some, List, [], ◌∷◌, ◌≡◌, refl, sym, ap, ◌∙◌, Text,
  text_eq, text_eq_iff, Bool-cases, Option-cases, inl, inr, and_parts, or_parts, not_parts,
}
use insightkit.Json.{Json, Fields, get, put, get-put, has_key}
use insightkit.Json.{str, obj, end, field}
use insightkit.Config.{merge_value, deep_merge}
use insightkit.Config.Paths.{at_path}

-- Dictionaries that have each key once, at every depth.
unfoldable mutual
  pub is_dict : Json → Bool
  is_dict (obj fs) = is_dict_fields fs
  is_dict v = true

  pub is_dict_fields : Fields → Bool
  is_dict_fields end = true
  is_dict_fields (field k v fs) = not (has_key k fs) && is_dict v && is_dict_fields fs

-- What the merge has under a key.
abbrev overlaid : Option Json → Option Json → Option Json
overlaid b none = b
overlaid b (some v) = some (merge_value v b)

get-absent : (k : Text) (fs : Fields) → has_key k fs ≡ false → get k fs ≡ none
unfolding get
get-absent k end h = refl
get-absent k (field i v fs) h =
    let (differs, rest) = or_parts (text_eq i k) (has_key k fs) h in
    rw differs (get-absent k fs rest)

pub field_parts :
    (k : Text) (v : Json) (fs : Fields)
    → is_dict_fields (field k v fs) ≡ true
    → (has_key k fs ≡ false) × (is_dict v ≡ true) × (is_dict_fields fs ≡ true)
unfolding is_dict
field_parts k v fs h =
    let (front, rest) = and_parts (not (has_key k fs) && is_dict v) (is_dict_fields fs) h in
    let (fresh, inner) = and_parts (not (has_key k fs)) (is_dict v) front in
    (not_parts (has_key k fs) fresh, inner, rest)

-- The merge, key by key.
pub get-deep_merge :
    (k : Text) (b o : Fields)
    → is_dict_fields o ≡ true
    → get k (deep_merge b o) ≡ overlaid (get k b) (get k o)
unfolding deep_merge is_dict get
get-deep_merge k b end h = refl
get-deep_merge k b (field j v rest) h =
    let (fresh, _, rest') = field_parts j v rest h in
    let w = merge_value v (get j b) in
    get-deep_merge k (put j w b) rest rest'
    ∙ ap (λ x. overlaid x (get k rest)) (get-put k j w b)
    ∙ elim (Bool-cases (text_eq j k)) [
      | inr other ↦ rw other refl
      | inl same ↦
          let e : j ≡ k = (text_eq_iff j k).0 same in
          let none' : get k rest ≡ none =
            get-absent k rest (ap (λ n. has_key n rest) (sym e) ∙ fresh) in
          rw (same, none') (ap (λ n. some (merge_value v (get n b))) e)
    ]

pub is_dict-get :
    (k : Text) (fs : Fields) (v : Json)
    → is_dict_fields fs ≡ true
    → get k fs ≡ some v
    → is_dict v ≡ true
unfolding get
is_dict-get k end v h e = absurd (cc)
is_dict-get k (field j w fs) v h e =
    let (_, inner, rest) = field_parts j w fs h in
    elim (Bool-cases (text_eq j k)) [
      | inl same ↦ let e' : w ≡ v = cc (rw same at e) in rw⁻¹ e' inner
      | inr other ↦ is_dict-get k fs v rest (rw other at e)
    ]

-- A text that the override has at the end of a path.
at_path-merge_value :
    (p : List Text) (s : Text) (w : Json) (base : Option Json)
    → ((b o : Fields)
        → is_dict_fields o ≡ true
        → at_path p (obj o) ≡ some (str s)
        → at_path p (obj (deep_merge b o)) ≡ some (str s))
    → is_dict w ≡ true
    → at_path p w ≡ some (str s)
    → at_path p (merge_value w base) ≡ some (str s)
unfolding deep_merge is_dict
at_path-merge_value p s (obj o) none f d h = h
at_path-merge_value p s (obj o) (some (obj b)) f d h = f b o d h
at_path-merge_value p s (obj o) (some Json.null) f d h = h
at_path-merge_value p s (obj o) (some (Json.bool x)) f d h = h
at_path-merge_value p s (obj o) (some (Json.num n)) f d h = h
at_path-merge_value p s (obj o) (some (str t)) f d h = h
at_path-merge_value p s (obj o) (some (Json.arr xs)) f d h = h
at_path-merge_value p s Json.null base f d h = h
at_path-merge_value p s (Json.bool x) base f d h = h
at_path-merge_value p s (Json.num n) base f d h = h
at_path-merge_value p s (str t) base f d h = h
at_path-merge_value p s (Json.arr xs) base f d h = h

pub at_path-deep_merge :
    (p : List Text) (s : Text) (b o : Fields)
    → is_dict_fields o ≡ true
    → at_path p (obj o) ≡ some (str s)
    → at_path p (obj (deep_merge b o)) ≡ some (str s)
unfolding at_path
at_path-deep_merge [] s b o d h = absurd (cc)
at_path-deep_merge (k ∷ p) s b o d h = elim (Option-cases (get k o)) [
  | inl none' ↦ absurd (cc (rw none' at h))
  | inr (w, found) ↦
      rw (get-deep_merge k b o d, found)
        (at_path-merge_value p s w (get k b) (at_path-deep_merge p s) (is_dict-get k o w d found)
          (rw found at h))
]
