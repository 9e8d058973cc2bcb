-- ===== src/Config/EnvWins.antt =====
-- What a variable of the environment decides in the configuration of config.py.
use insightkit.Prelude.{
  Bool, true, false, ◌&&◌, ◌||◌, not, Option, none, some, List, [], ◌∷◌, ◌++◌, ◌≡◌, refl, sym, ◌∙◌,
  Text, text_eq, text_eq_iff, all, ◌==◌, lower, drop, Bool-cases, Option-cases, inl, inr, arith,
  and_parts,
}
use insightkit.Json.{Json, Fields, get, put, has_key}
use insightkit.Json.{str, obj, end, field}
use insightkit.Config.{
  split_sections, set_path, parts_of, is_ours, next_override, overrides_from, env_overrides,
  deep_merge, layers,
}
use insightkit.Config.Paths.{
  at_path, apart, section, walked-some, at_path-set_path, at_path-set_path-apart,
}
use insightkit.Config.Layers.{is_dict, is_dict_fields, field_parts, is_dict-get, at_path-deep_merge}

split_sections-cons : (s : Text) → (k : Text) × (ks : List Text) × (split_sections s ≡ k ∷ ks)
unfolding split_sections
split_sections-cons [] = ([], [], refl)
split_sections-cons (c ∷ []) = (c ∷ [], [], refl)
split_sections-cons (c ∷ d ∷ s) = elim (Bool-cases (c == b'_' && d == b'_')) [
  | inl cut ↦ ([], split_sections s, rw cut refl)
  | inr go ↦ let (k, ks, e) = split_sections-cons (d ∷ s) in (c ∷ k, ks, rw (go, e) refl)
]

has_key-put :
    (k j : Text) (v : Json) (fs : Fields) → has_key k (put j v fs) ≡ text_eq j k || has_key k fs
unfolding put
has_key-put k j v end = refl
has_key-put k j v (field i w fs) =
    ground (arith, text_eq_iff i j, text_eq_iff i k, text_eq_iff j k, has_key-put k j v fs)

text_eq-flip : (s t : Text) → text_eq s t ≡ false → text_eq t s ≡ false
text_eq-flip s t h = ground (arith, text_eq_iff s t, text_eq_iff t s)

is_dict-put :
    (k : Text) (v : Json) (fs : Fields)
    → is_dict v ≡ true
    → is_dict_fields fs ≡ true
    → is_dict_fields (put k v fs) ≡ true
unfolding put is_dict
is_dict-put k v end h d = rw h refl
is_dict-put k v (field i w fs) h d =
    let (fresh, inner, rest) = field_parts i w fs d in
    elim (Bool-cases (text_eq i k)) [
      | inl same ↦ rw (same, fresh, h, rest) refl
      | inr other ↦
          rw
            (
              other,
              has_key-put i k v fs,
              text_eq-flip i k other,
              fresh,
              inner,
              is_dict-put k v fs h rest,
            )
            refl
    ]

abbrev all_dict : Option Json → Bool
all_dict none = true
all_dict (some v) = is_dict v

is_dict_section : (o : Option Json) → all_dict o ≡ true → is_dict_fields (section o) ≡ true
unfolding is_dict
is_dict_section none h = refl
is_dict_section (some (obj g)) h = h
is_dict_section (some Json.null) h = refl
is_dict_section (some (Json.bool b)) h = refl
is_dict_section (some (Json.num n)) h = refl
is_dict_section (some (str s)) h = refl
is_dict_section (some (Json.arr xs)) h = refl

is_dict-section :
    (k : Text) (f : Fields) → is_dict_fields f ≡ true → is_dict_fields (section (get k f)) ≡ true
is_dict-section k f d = elim (Option-cases (get k f)) [
  | inl none' ↦ rw none' (is_dict_section none refl)
  | inr (v, found) ↦ rw found (is_dict_section (some v) (is_dict-get k f v d found))
]

is_dict-set_path :
    (p : List Text) (v : Text) (f f' : Fields)
    → is_dict_fields f ≡ true
    → set_path p v f ≡ some f'
    → is_dict_fields f' ≡ true
unfolding set_path is_dict
is_dict-set_path [] v f f' d h = let e : f ≡ f' = cc in rw⁻¹ e d
is_dict-set_path (k ∷ []) v f f' d h =
    let e : f' ≡ put k (str v) f = cc in rw e (is_dict-put k (str v) f refl d)
is_dict-set_path (k ∷ j ∷ ks) v f f' d h =
    let (g, inner, e) = walked-some k f f' (get k f) (set_path (j ∷ ks) v) h in
    rw e (
      is_dict-put k (obj g) f
        (is_dict-set_path (j ∷ ks) v (section (get k f)) g (is_dict-section k f d) inner) d)

next_override-some :
    (v : Text × Text) (o : Option Fields) (f : Fields)
    → next_override v o ≡ some f
    → (g : Fields) × (o ≡ some g)
next_override-some (key, value) none f h = absurd (cc)
next_override-some (key, value) (some g) f h = (g, refl)

overrides_from-some :
    (vs : List (Text × Text)) (o : Option Fields) (f : Fields)
    → overrides_from vs o ≡ some f
    → (g : Fields) × (o ≡ some g)
unfolding overrides_from
overrides_from-some [] o f h = (f, h)
overrides_from-some (v ∷ vs) o f h =
    let (g, e) = overrides_from-some vs (next_override v o) f h in next_override-some v o g e

next_override-IsDict :
    (v : Text × Text) (g f : Fields)
    → is_dict_fields g ≡ true
    → next_override v (some g) ≡ some f
    → is_dict_fields f ≡ true
next_override-IsDict (key, value) g f d h = elim (Bool-cases (is_ours key)) [
  | inl ours ↦ is_dict-set_path (parts_of key) value g f d (rw ours at h)
  | inr theirs ↦ let e : g ≡ f = cc (rw theirs at h) in rw⁻¹ e d
]

-- The variables after another leave its path alone.
abbrev pub leaves : List Text → Text × Text → Bool
leaves p (key, value) = not (is_ours key) || apart p (parts_of key)

next_override-leaves :
    (p : List Text) (v : Text × Text) (g f : Fields)
    → leaves p v ≡ true
    → next_override v (some g) ≡ some f
    → at_path p (obj f) ≡ at_path p (obj g)
next_override-leaves p (key, value) g f l h = elim (Bool-cases (is_ours key)) [
  | inl ours ↦ at_path-set_path-apart p (parts_of key) value g f (rw ours at l) (rw ours at h)
  | inr theirs ↦ let e : f ≡ g = cc (rw theirs at h) in rw e refl
]

overrides_from-leaves :
    (p : List Text) (vs : List (Text × Text)) (g f : Fields)
    → is_dict_fields g ≡ true
    → all (leaves p) vs ≡ true
    → overrides_from vs (some g) ≡ some f
    → (at_path p (obj f) ≡ at_path p (obj g)) × (is_dict_fields f ≡ true)
unfolding overrides_from
overrides_from-leaves p [] g f d l h = let e : g ≡ f = cc in (rw e refl, rw⁻¹ e d)
overrides_from-leaves p (v ∷ vs) g f d l h =
    let (here, rest) = and_parts (leaves p v) (all (leaves p) vs) l in
    let (g', e) = overrides_from-some vs (next_override v (some g)) f h in
    let (kept, dict) =
      overrides_from-leaves p vs g' f (next_override-IsDict v g g' d e) rest (rw e at h) in
    (kept ∙ next_override-leaves p v g g' here e, dict)

overrides_from-append :
    (xs ys : List (Text × Text)) (o : Option Fields)
    → overrides_from (xs ++ ys) o ≡ overrides_from ys (overrides_from xs o)
unfolding overrides_from
overrides_from-append [] ys o = refl
overrides_from-append (x ∷ xs) ys o = overrides_from-append xs ys (next_override x o)

overrides_from-IsDict :
    (vs : List (Text × Text)) (g f : Fields)
    → is_dict_fields g ≡ true
    → overrides_from vs (some g) ≡ some f
    → is_dict_fields f ≡ true
unfolding overrides_from
overrides_from-IsDict [] g f d h = let e : g ≡ f = cc in rw⁻¹ e d
overrides_from-IsDict (v ∷ vs) g f d h =
    let (g', e) = overrides_from-some vs (next_override v (some g)) f h in
    overrides_from-IsDict vs g' f (next_override-IsDict v g g' d e) (rw e at h)

layers-some :
    (yaml : Option Fields) (o : Option Fields) (merged : Fields)
    → layers yaml o ≡ some merged
    → (b : Fields) × (out : Fields) × (o ≡ some out) × (merged ≡ deep_merge b out)
unfolding layers
layers-some yaml none merged h = absurd (cc)
layers-some none (some out) merged h = (end, out, refl, cc)
layers-some (some b) (some out) merged h = (b, out, refl, cc)

at_path-next_override :
    (key value : Text) (g f : Fields)
    → is_ours key ≡ true
    → next_override (key, value) (some g) ≡ some f
    → at_path (parts_of key) (obj f) ≡ some (str value)
unfolding parts_of
at_path-next_override key value g f ours h =
    let (k, ks, e) = split_sections-cons (lower (drop 11 key)) in
    rw e (at_path-set_path k ks value g f (rw (ours, e) at h))

-- A variable with the prefix decides the configuration, whatever the file says: its value is at the
-- path of its name, where the variables after it lead elsewhere and none of the walks raises.
pub env_wins :
    (yaml : Option Fields) (before rest : List (Text × Text)) (key value : Text) (merged : Fields)
    → layers yaml (env_overrides (before ++ (key, value) ∷ rest)) ≡ some merged
    → is_ours key ≡ true
    → all (leaves (parts_of key)) rest ≡ true
    → at_path (parts_of key) (obj merged) ≡ some (str value)
unfolding env_overrides overrides_from is_dict
env_wins yaml before rest key value merged h ours l =
    let (b, out, made, e) =
      layers-some yaml (env_overrides (before ++ (key, value) ∷ rest)) merged h in
    let split = sym (overrides_from-append before ((key, value) ∷ rest) (some end)) ∙ made in
    let (g2, after2) =
      overrides_from-some rest (next_override (key, value) (overrides_from before (some end))) out
        split in
    let (g1, after1) =
      next_override-some (key, value) (overrides_from before (some end)) g2 after2 in
    let own : next_override (key, value) (some g1) ≡ some g2 = rw after1 at after2 in
    let dict1 = overrides_from-IsDict before end g1 refl after1 in
    let dict2 = next_override-IsDict (key, value) g1 g2 dict1 own in
    let (kept, dict) =
      overrides_from-leaves (parts_of key) rest g2 out dict2 l (rw after2 at split) in
    rw e (
      at_path-deep_merge (parts_of key) value b out dict
        (kept ∙ at_path-next_override key value g1 g2 ours own))
