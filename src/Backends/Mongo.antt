-- ===== src/Backends/Mongo.antt =====
-- `MongoBackend.execute` of db/backends.py. The server is a parameter, and so are `json.loads`,
-- `json.dumps` and the test of a number for 0.
pub mod Guarded
use insightkit.Prelude.{
  ℕ, Bool, true, false, Option, none, some, List, [], ◌∷◌, ◌++◌, map, Text, text, text_mem,
  if◌then◌else◌,
}
use insightkit.Prelude.Dict.{Dict, get}
use insightkit.Prelude.Result.{Result, ok, err, ◌>>=◌}
use insightkit.Json as Json
use insightkit.Json.{Json, obj, arr, str, Items, Fields}
use insightkit.Pipeline.Types.{Cell, Frame}

-- The ways in which `execute` raises: no JSON, no object, the ValueError, a collection that has no
-- text for its name, the timeout, and an error of the server.
pub data MongoError : Type 0 where
  invalid_json : Text → MongoError
  no_object bad_query bad_name timed_out : MongoError
  server_error : Text → MongoError

-- What the server does with a pipeline: the documents, each with its keys in order.
pub data Aggregate : Type 0 where
  documents : List (Dict Cell) → Aggregate
  late : Aggregate
  failed : Text → Aggregate

abbrev pub Request : Type 0
Request = Text × Items

-- `if k not in keys: keys.append(k)`
unfoldable pub add_keys : List Text → Dict Cell → List Text
add_keys keys [] = keys
add_keys keys ((k, v) ∷ doc) = add_keys (if text_mem k keys then keys else keys ++ k ∷ []) doc

unfoldable pub keys_of : List Text → List (Dict Cell) → List Text
keys_of keys [] = keys
keys_of keys (doc ∷ docs) = keys_of (add_keys keys doc) docs

-- `_flatten`
unfoldable pub flatten : (Cell → Text) → Cell → Cell
flatten dump (Cell.list xs) = Cell.str (dump (Cell.list xs))
flatten dump (Cell.dict fs) = Cell.str (dump (Cell.dict fs))
flatten dump v = v

abbrev pub or_null : Option Cell → Cell
or_null none = Cell.null
or_null (some v) = v

-- A row of the frame: `_flatten(doc.get(k))` for every key.
unfoldable pub row_of : (Cell → Text) → List Text → Dict Cell → List (Text × Cell)
row_of dump keys doc = map (λ k. (k, flatten dump (or_null (get k doc)))) keys

module _ (is_zero : Text → Bool) where
  -- `not collection`
  unfoldable pub is_falsy : Json → Bool
  is_falsy Json.null = true
  is_falsy (Json.bool true) = false
  is_falsy (Json.bool false) = true
  is_falsy (Json.num n) = is_zero n
  is_falsy (str []) = true
  is_falsy (str (c ∷ cs)) = false
  is_falsy (arr Json.nil) = true
  is_falsy (arr (Json.cons x xs)) = false
  is_falsy (obj Json.end) = true
  is_falsy (obj (Json.field k v fs)) = false

  unfoldable pub named : Json → Items → Result MongoError Request
  named (str (c ∷ cs)) stages = ok (c ∷ cs, stages)
  named collection stages = if is_falsy collection then err bad_query else err bad_name

  unfoldable pub request_of : Option Json → Option Json → Result MongoError Request
  request_of (some collection) (some (arr stages)) = named collection stages
  request_of _ _ = err bad_query

  -- The shape of the query.
  unfoldable pub parsed : Json → Result MongoError Request
  parsed (obj fs) = request_of (Json.get (text "collection") fs) (Json.get (text "pipeline") fs)
  parsed _ = err no_object

module _ (dump : Cell → Text) (numeric : List Text → List (List (Text × Cell)) → List Text) where
  unfoldable pub tabulated : Aggregate → Result MongoError Frame
  tabulated late = err timed_out
  tabulated (failed e) = err (server_error e)
  tabulated (documents []) = ok (record { columns = []; numeric = []; rows = [] })
  tabulated (documents (doc ∷ docs)) =
      let keys = keys_of [] (doc ∷ docs) in
      let rows = map (row_of dump keys) (doc ∷ docs) in
      ok (record { columns = keys; numeric = numeric keys rows; rows = rows })

  module _ (is_zero : Text → Bool) (loads : Text → Result Text Json)
      (aggregate : Text → Items → Aggregate) where
    unfoldable pub loaded : Text → Result MongoError Json
    loaded q = elim (loads q) [ ok j ↦ ok j | err e ↦ err (invalid_json e) ]

    -- `execute`
    unfoldable pub execute : Text → Result MongoError Frame
    execute q = do
      j ← loaded q
      request ← parsed is_zero j
      tabulated (aggregate request.0 request.1)
