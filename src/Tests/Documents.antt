-- ===== src/Tests/Documents.antt =====
-- The backend of MongoDB at a concrete query, whose two documents have different keys.
use insightkit.Prelude.{◌<◌, Bool, true, [], ◌∷◌, ◌≡◌, refl, Text, text, text_eq, arith}
use insightkit.Prelude.Decimal.{show, show_fuel}
use insightkit.Prelude.Dict
use insightkit.Prelude.Result.{Result, ok, err}
use insightkit.Json as Json
use insightkit.Json.{Json, str, arr, obj, Items, nil, cons, end, field}
use insightkit.Guard.Mongo.{
  has_forbidden, check_stage_keys, with_limit, check_stage, check_stages, check_pipeline,
  check_query, limit_stage, any_limit,
}
use insightkit.Guard.MongoSafe.{AreReadOnly}
use insightkit.Pipeline.Types.{Cell, num, list, null, Cells}
use insightkit.Backends.Mongo.{
  Aggregate, documents, bad_query, add_keys, keys_of, flatten, row_of, is_falsy, named, request_of,
  parsed, tabulated, loaded, execute,
}
use insightkit.Backends.Mongo.Guarded.{execute-check_query}

program : Unit {0}
unfolding check_query check_pipeline check_stages check_stage check_stage_keys with_limit
    has_forbidden Json.get Json.put Json.append show show_fuel add_keys keys_of flatten row_of
    is_falsy named request_of parsed tabulated loaded execute Dict.get
program = tt

abbrev orders : Items → Json
orders stages =
    obj (field (text "collection") (str (text "orders")) (field (text "pipeline") (arr stages) end))

abbrev match_stage : Json
match_stage = obj (field (text "$match") (obj end) end)

abbrev checked : Json
checked = orders (cons match_stage (cons (limit_stage 5) nil))

abbrev loads : Text → Result Text Json
loads q = ok checked

abbrev aggregate : Text → Items → Aggregate
aggregate collection stages = documents (
    ((text "n", num (text "1")) ∷ [])
    ∷ ((text "tags", list Cells.nil) ∷ (text "n", num (text "2")) ∷ [])
    ∷ [])

abbrev dump : Cell → Text
dump v = text "[]"

abbrev is_zero : Text → Bool
is_zero n = text_eq n (text "0")

-- A key that a document lacks is null, and a list is its JSON.
two_rows :
    execute dump (λ keys rows. []) is_zero loads aggregate (text "q")
    ≡ ok (record {
      columns = text "n" ∷ text "tags" ∷ [];
      numeric = [];
      rows =
          ((text "n", num (text "1")) ∷ (text "tags", null) ∷ [])
          ∷ ((text "n", num (text "2")) ∷ (text "tags", Cell.str (text "[]")) ∷ [])
          ∷ [];
    })
unfolding program
two_rows = refl

no_pipeline :
    parsed is_zero (obj (field (text "collection") (str (text "orders")) end)) ≡ err bad_query
unfolding program
no_pipeline = refl

accepted : check_query (λ s. text "a stage") 5 (orders (cons match_stage nil)) ≡ ok checked
unfolding program
accepted = refl

some_limit : 0 < 5
some_limit = omega arith

execute-check_query_example :
    (collection : Text) × (stages : Items) × AreReadOnly stages
    × (any_limit stages ≡ true)
    × (execute dump (λ keys rows. []) is_zero loads aggregate (text "q")
        ≡ tabulated dump (λ keys rows. []) (aggregate collection stages))
execute-check_query_example =
    execute-check_query (λ s. text "a stage") dump (λ keys rows. []) is_zero loads aggregate 5
      (orders (cons match_stage nil)) checked (text "q") some_limit accepted refl
