-- ===== src/Config/Paths.antt =====
-- The values that the environment variables of config.py put into their tree.
use insightkit.Prelude.{
  Bool, true, false, Option, none, some, List, [], ◌∷◌, ◌≡◌, refl, ap, ◌∙◌, Text, text_eq,
  text_eq_iff, text_eq_refl, if◌then◌else◌, Bool-cases, inl, inr,
}
use insightkit.Json.{get-put, Json, Fields, get, put}
use insightkit.Json.{str, obj, end}
use insightkit.Config.{set_path, walked, placed}

abbrev pub then_at : (Json → Option Json) → Option Json → Option Json
then_at f none = none
then_at f (some v) = f v

abbrev pub in_dict : (Fields → Option Json) → Json → Option Json
in_dict f (obj fs) = f fs
in_dict f v = none

-- The value at the end of a path of keys.
unfoldable pub at_path : List Text → Json → Option Json
at_path [] v = some v
at_path (k ∷ ks) v = in_dict (λ fs. then_at (at_path ks) (get k fs)) v

-- Two paths that part, so that neither is the beginning of the other.
unfoldable pub apart : List Text → List Text → Bool
apart [] q = false
apart (k ∷ p) [] = false
apart (k ∷ p) (j ∷ q) = if text_eq j k then apart p q else true

get-put_same : (k : Text) (v : Json) (fs : Fields) → get k (put k v fs) ≡ some v
get-put_same k v fs = rw (get-put k k v fs, text_eq_refl k) refl

-- What the walk returns was made by putting a value under its first part.
placed-some :
    (k : Text) (f f' : Fields) (o : Option Fields)
    → placed k f o ≡ some f'
    → (g : Fields) × (o ≡ some g) × (f' ≡ put k (obj g) f)
placed-some k f f' none h = absurd (cc)
placed-some k f f' (some g) h = (g, refl, cc)

-- The dictionary in which the walk goes on.
abbrev pub section : Option Json → Fields
section (some (obj g)) = g
section o = end

pub walked-some :
    (k : Text) (f f' : Fields) (o : Option Json) (walk : Fields → Option Fields)
    → walked k f o walk ≡ some f'
    → (g : Fields) × (walk (section o) ≡ some g) × (f' ≡ put k (obj g) f)
walked-some k f f' none walk h = placed-some k f f' (walk end) h
walked-some k f f' (some (obj g)) walk h = placed-some k f f' (walk g) h
walked-some k f f' (some Json.null) walk h = absurd (cc)
walked-some k f f' (some (Json.bool b)) walk h = absurd (cc)
walked-some k f f' (some (Json.num n)) walk h = absurd (cc)
walked-some k f f' (some (str s)) walk h = absurd (cc)
walked-some k f f' (some (Json.arr xs)) walk h = absurd (cc)

-- The value is found where it was put.
pub at_path-set_path :
    (k : Text) (ks : List Text) (v : Text) (f f' : Fields)
    → set_path (k ∷ ks) v f ≡ some f'
    → at_path (k ∷ ks) (obj f') ≡ some (str v)
unfolding at_path set_path
at_path-set_path k [] v f f' h =
    let e : f' ≡ put k (str v) f = cc in rw (e, get-put_same k (str v) f) refl
at_path-set_path k (j ∷ ks) v f f' h =
    let (g, inner, e) = walked-some k f f' (get k f) (set_path (j ∷ ks) v) h in
    rw (e, get-put_same k (obj g) f) (at_path-set_path j ks v (section (get k f)) g inner)

at_path-section :
    (k : Text) (ks : List Text) (o : Option Json)
    → at_path (k ∷ ks) (obj (section o)) ≡ then_at (at_path (k ∷ ks)) o
unfolding at_path get
at_path-section k ks none = refl
at_path-section k ks (some (obj g)) = refl
at_path-section k ks (some Json.null) = refl
at_path-section k ks (some (Json.bool b)) = refl
at_path-section k ks (some (Json.num n)) = refl
at_path-section k ks (some (str s)) = refl
at_path-section k ks (some (Json.arr xs)) = refl

at_path-apart :
    (p q : List Text) (o : Option Json)
    → apart p q ≡ true
    → at_path p (obj (section o)) ≡ then_at (at_path p) o
unfolding apart
at_path-apart [] q o h = absurd (cc)
at_path-apart (k ∷ p) q o h = at_path-section k p o

apart_none : (p : List Text) → apart p [] ≡ false
unfolding apart
apart_none [] = refl
apart_none (k ∷ p) = refl

-- A path that parts from it leads where it led before.
pub at_path-set_path-apart :
    (p q : List Text) (v : Text) (f f' : Fields)
    → apart p q ≡ true
    → set_path q v f ≡ some f'
    → at_path p (obj f') ≡ at_path p (obj f)
unfolding at_path set_path apart
at_path-set_path-apart [] q v f f' a h = absurd (cc)
at_path-set_path-apart (k ∷ p) [] v f f' a h = absurd (cc)
at_path-set_path-apart (k ∷ p) (j ∷ []) v f f' a h =
    let e : f' ≡ put j (str v) f = cc in
    elim (Bool-cases (text_eq j k)) [
      | inl same ↦ absurd (cc (apart_none p, rw same at a))
      | inr other ↦ rw (e, get-put k j (str v) f, other) refl
    ]
at_path-set_path-apart (k ∷ p) (j ∷ i ∷ q) v f f' a h =
    let (g, inner, e) = walked-some j f f' (get j f) (set_path (i ∷ q) v) h in
    elim (Bool-cases (text_eq j k)) [
      | inr other ↦ rw (e, get-put k j (obj g) f, other) refl
      | inl same ↦
          let further : apart p (i ∷ q) ≡ true = rw same at a in
          rw (e, get-put k j (obj g) f, same)
            (at_path-set_path-apart p (i ∷ q) v (section (get j f)) g further inner
              ∙ at_path-apart p (i ∷ q) (get j f) further
              ∙ ap (λ n. then_at (at_path p) (get n f)) ((text_eq_iff j k).0 same))
    ]
