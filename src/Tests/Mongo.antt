-- ===== src/Tests/Mongo.antt =====
-- The MongoDB guard of security/guard.py at concrete inputs.
use insightkit.Prelude.{◌≡◌, refl, Text, text, some}
use insightkit.Prelude.Result.{Result, ok}
use insightkit.Prelude.Decimal.{show, show_fuel}
use insightkit.Json.{Json, str, arr, obj, Items, nil, cons, Fields, end, field, get, put, append}
use insightkit.Guard.Mongo.{
  has_forbidden, check_stage_keys, with_limit, decoded, check_stage, check_stages, check_pipeline,
  check_query, validate_mongo, limit_stage,
}
use insightkit.Guard.MongoSafe.{IsSafeQuery, validate_mongo-IsSafe}

program : Unit {0}
unfolding validate_mongo check_query check_pipeline check_stages check_stage check_stage_keys
    decoded with_limit has_forbidden get put append show show_fuel
program = tt

abbrev match_stage : Json
match_stage = obj (field (text "$match") (obj end) end)

abbrev orders : Items → Json
orders stages =
    obj (field (text "collection") (str (text "orders")) (field (text "pipeline") (arr stages) end))

abbrev plain : Items
plain = cons match_stage nil

abbrev limited : Items
limited = cons match_stage (cons (limit_stage 5) nil)

abbrev loads : Text → Result Text Json
loads payload = ok (orders plain)

abbrev dumps : Json → Text
dumps (obj (field k v (field j (arr (cons s (cons l nil))) end))) = text "two stages"
dumps j = text "other"

abbrev repr : Json → Text
repr j = text "a stage"

bounded : validate_mongo repr loads dumps (text "{}") 5 ≡ ok (text "two stages")
unfolding program
bounded = refl

validate_mongo-IsSafe_example :
    (query : Json) × (checked : Json) × (loads (text "{}") ≡ ok query)
    × (text "two stages" ≡ dumps checked)
    × IsSafeQuery 5 query checked
validate_mongo-IsSafe_example =
    validate_mongo-IsSafe repr loads dumps (text "{}") 5 (text "two stages") bounded

abbrev orders_fields : Fields
orders_fields =
    field (text "collection") (str (text "orders")) (field (text "pipeline") (arr limited) end)

pipeline_is : get (text "pipeline") orders_fields ≡ some (arr limited)
unfolding get
pipeline_is = refl
