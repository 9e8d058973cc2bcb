-- ===== src/Json.antt =====
-- JSON values as Python holds them: `dict`, `list`, `str`, `bool`, `None` and numbers, which are
-- kept as numerals. An object's fields stand in insertion order, each key once.
use insightkit.Prelude.{
  Bool, false, List, [], ◌∷◌, ◌++◌, Option, none, some, Text, text_eq, text_eq_iff, arith, ◌≡◌,
  refl, ◌||◌, if◌then◌else◌,
}

mutual
  pub data Json : Type 0 where
    null : Json
    bool : Bool → Json
    num : Text → Json
    str : Text → Json
    arr : Items → Json
    obj : Fields → Json

  pub data Items : Type 0 where
    nil : Items
    cons : Json → Items → Items

  pub data Fields : Type 0 where
    end : Fields
    field : Text → Json → Fields → Fields

-- `d.get(k)`
unfoldable pub get : Text → Fields → Option Json
get k end = none
get k (field j v fs) = if text_eq j k then some v else get k fs

-- `k in d`
abbrev pub has_key : Text → Fields → Bool
has_key k end = false
has_key k (field j v fs) = text_eq j k || has_key k fs

-- `d[k] = v`
unfoldable pub put : Text → Json → Fields → Fields
put k v end = field k v end
put k v (field j w fs) = if text_eq j k then field j v fs else field j w (put k v fs)

pub get-put :
    (k j : Text) (v : Json) (fs : Fields)
    → get k (put j v fs) ≡ (if text_eq j k then some v else get k fs)
unfolding get put
get-put k j v end = refl
get-put k j v (field i w fs) =
    ground (arith, text_eq_iff j k, text_eq_iff i k, text_eq_iff i j, get-put k j v fs)

-- `items.append(v)`
unfoldable pub append : Items → Json → Items
append nil v = cons v nil
append (cons x xs) v = cons x (append xs v)

-- The keys at any depth.
unfoldable mutual
  pub all_keys : Json → List Text
  all_keys null = []
  all_keys (bool b) = []
  all_keys (num n) = []
  all_keys (str s) = []
  all_keys (arr xs) = all_keys_items xs
  all_keys (obj fs) = all_keys_fields fs

  pub all_keys_items : Items → List Text
  all_keys_items nil = []
  all_keys_items (cons x xs) = all_keys x ++ all_keys_items xs

  pub all_keys_fields : Fields → List Text
  all_keys_fields end = []
  all_keys_fields (field k v fs) = k ∷ (all_keys v ++ all_keys_fields fs)
