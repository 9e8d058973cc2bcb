-- ===== src/Config.antt =====
-- The layers of config.py: the environment variables, read into a tree, over the YAML file. A tree
-- is a value of Json; the checks of pydantic are not modelled, but for that of the language.
pub mod Paths
pub mod Layers
pub mod EnvWins
use insightkit.Prelude.{
  ℕ, Bool, true, false, ◌&&◌, ◌||◌, Option, none, some, List, [], ◌∷◌, Text, text, text_eq,
  if◌then◌else◌, ◌==◌, drop, lower, starts_with,
}
use insightkit.Json.{Json, Fields, get, put}
use insightkit.Json.{str, obj, end, field}

abbrev pub env_prefix : Text
env_prefix = text "INSIGHTKIT_"

abbrev pub cons_char : ℕ → List Text → List Text
cons_char c [] = (c ∷ []) ∷ []
cons_char c (w ∷ ws) = (c ∷ w) ∷ ws

-- `s.split("__")`
unfoldable pub split_sections : Text → List Text
split_sections [] = [] ∷ []
split_sections (c ∷ []) = (c ∷ []) ∷ []
split_sections (c ∷ d ∷ s) =
    let after = split_sections s in
    let next = split_sections (d ∷ s) in
    if c == b'_' && d == b'_' then [] ∷ after else cons_char c next

-- What `set_path` does with the dictionary that it has filled.
abbrev pub placed : Text → Fields → Option Fields → Option Fields
placed k f none = none
placed k f (some g) = some (put k (obj g) f)

-- `node.setdefault(part, {})`, for the value under the part, and the rest of the walk: a value that
-- is no dictionary makes it raise, which gives none.
abbrev pub walked : Text → Fields → Option Json → (Fields → Option Fields) → Option Fields
walked k f none walk = placed k f (walk end)
walked k f (some (obj g)) walk = placed k f (walk g)
walked k f (some v) walk = none

-- The walk along the parts of a name, and `node[parts[-1]] = value`.
unfoldable pub set_path : List Text → Text → Fields → Option Fields
set_path [] v f = some f
set_path (k ∷ []) v f = some (put k (str v) f)
set_path (k ∷ j ∷ ks) v f = walked k f (get k f) (set_path (j ∷ ks) v)

-- `key[len(_ENV_PREFIX):].lower().split("__")`
unfoldable pub parts_of : Text → List Text
parts_of key = split_sections (lower (drop 11 key))

abbrev pub is_ours : Text → Bool
is_ours key = starts_with key env_prefix

abbrev pub next_override : Text × Text → Option Fields → Option Fields
next_override (key, value) none = none
next_override (key, value) (some out) =
    if is_ours key then set_path (parts_of key) value out else some out

unfoldable pub overrides_from : List (Text × Text) → Option Fields → Option Fields
overrides_from [] out = out
overrides_from (v ∷ vs) out = overrides_from vs (next_override v out)

-- `_env_overrides`
unfoldable pub env_overrides : List (Text × Text) → Option Fields
env_overrides environ = overrides_from environ (some end)

-- `_deep_merge`: the values of `override`, one after the other, over those of `base`.
unfoldable mutual
  pub merge_value : Json → Option Json → Json
  merge_value (obj o) (some (obj b)) = obj (deep_merge b o)
  merge_value v b = v

  pub deep_merge : Fields → Fields → Fields
  deep_merge merged end = merged
  deep_merge merged (field k v rest) = deep_merge (put k (merge_value v (get k merged)) merged) rest

-- `from_yaml`, up to the checks of pydantic; a file that is empty is an empty dictionary.
unfoldable pub layers : Option Fields → Option Fields → Option Fields
layers yaml none = none
layers none (some o) = some (deep_merge end o)
layers (some b) (some o) = some (deep_merge b o)

-- `_check_language`
unfoldable pub is_language : Text → Bool
is_language language = text_eq language (text "en") || text_eq language (text "id")
