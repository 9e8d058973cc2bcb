-- ===== src/Guard/Mongo.antt =====
-- The MongoDB half of security/guard.py. `json.loads`, `json.dumps` and `repr` are parameters of
-- `validate_mongo`: all that is proved holds for any of them.
use insightkit.Prelude.{
  ℕ, Bool, false, not, ◌&&◌, ◌||◌, ltb, List, [], ◌∷◌, Option, none, some, Text, text, text_mem,
  if◌then◌else◌,
}
use insightkit.Prelude.Result.{Result, ok, err, ◌>>=◌, ◌>>◌}
use insightkit.Prelude.Decimal.{show}
use insightkit.Json.{
  Json, null, bool, num, str, arr, obj, Items, nil, cons, Fields, end, field, get, put, has_key,
  append,
}
use insightkit.Guard.Sql.{
  GuardError, invalid_json, invalid_shape, invalid_stage, forbidden_stage, forbidden_operator,
}

abbrev pub write_stages : List Text
write_stages = text "$out" ∷ text "$merge" ∷ text "$delete" ∷ text "$sql" ∷ []

abbrev pub forbidden_operators : List Text
forbidden_operators = text "$where" ∷ text "$function" ∷ text "$accumulator" ∷ []

abbrev pub is_forbidden_key : Text → Bool
is_forbidden_key k = text_mem k write_stages || text_mem k forbidden_operators

-- `if found: return found`, else go on
abbrev pub or_next : Option Text → Option Text → Option Text
or_next none b = b
or_next (some k) b = some k

unfoldable mutual
  pub has_forbidden : Json → Option Text
  has_forbidden null = none
  has_forbidden (bool b) = none
  has_forbidden (num n) = none
  has_forbidden (str s) = none
  has_forbidden (arr xs) = has_forbidden_items xs
  has_forbidden (obj fs) = has_forbidden_fields fs

  pub has_forbidden_items : Items → Option Text
  has_forbidden_items nil = none
  has_forbidden_items (cons x xs) = or_next (has_forbidden x) (has_forbidden_items xs)

  pub has_forbidden_fields : Fields → Option Text
  has_forbidden_fields end = none
  has_forbidden_fields (field k v fs) =
      let rest = or_next (has_forbidden v) (has_forbidden_fields fs) in
      if text_mem k write_stages
      then some k
      else if text_mem k forbidden_operators
      then some k
      else rest

-- `for key in stage: if key in MONGO_WRITE_STAGES: raise`
unfoldable pub check_stage_keys : Fields → Result GuardError (Unit {0})
check_stage_keys end = ok tt
check_stage_keys (field k v fs) =
    if text_mem k write_stages then err (forbidden_stage k) else check_stage_keys fs

abbrev pub bad_shape : GuardError
bad_shape =
    invalid_shape (text "MongoDB query must be {\"collection\": \"...\", \"pipeline\": [...]}")

abbrev pub limit_stage : ℕ → Json
limit_stage limit = obj (field (text "$limit") (num (show limit)) end)

-- `isinstance(s, dict) and "$limit" in s`
abbrev pub is_limit : Json → Bool
is_limit (obj fs) = has_key (text "$limit") fs
is_limit _ = false

abbrev pub any_limit : Items → Bool
any_limit nil = false
any_limit (cons s ss) = is_limit s || any_limit ss

-- The pipeline after the row limit is appended.
unfoldable pub with_limit : ℕ → Items → Items
with_limit limit stages =
    if ltb 0 limit && not (any_limit stages) then append stages (limit_stage limit) else stages

-- `except json.JSONDecodeError`
unfoldable pub decoded : Result Text Json → Result GuardError Json
decoded (ok j) = ok j
decoded (err e) = err (invalid_json e)

module _ (repr : Json → Text) where
  unfoldable pub check_stage : Json → Result GuardError (Unit {0})
  check_stage (obj (field k v fs)) = do
    check_stage_keys (field k v fs)
    elim (has_forbidden (obj (field k v fs))) [
      | some op ↦ err (forbidden_operator op)
      | none ↦ ok tt
    ]
  check_stage s = err (invalid_stage (repr s))

  unfoldable pub check_stages : Items → Result GuardError (Unit {0})
  check_stages nil = ok tt
  check_stages (cons s ss) = do check_stage s; check_stages ss

  unfoldable pub check_pipeline : ℕ → Fields → Option Json → Option Json → Result GuardError Json
  check_pipeline limit fs (some (str (c ∷ cs))) (some (arr stages)) = do
    check_stages stages
    ok (obj (put (text "pipeline") (arr (with_limit limit stages)) fs))
  check_pipeline limit fs _ _ = err bad_shape

  unfoldable pub check_query : ℕ → Json → Result GuardError Json
  check_query limit (obj fs) =
      check_pipeline limit fs (get (text "collection") fs) (get (text "pipeline") fs)
  check_query limit _ = err bad_shape

  module _ (loads : Text → Result Text Json) (dumps : Json → Text) where
    unfoldable pub validate_mongo : Text → ℕ → Result GuardError Text
    validate_mongo payload limit = do
      j ← decoded (loads payload)
      checked ← check_query limit j
      ok (dumps checked)
