-- ===== src/Cache/Store.antt =====
-- The rows of the query cache and its operations (cache.py).
use insightkit.Prelude.{
  ℕ, ◌+◌, ◌*◌, Bool, Option, none, some, ◌∷◌, ◌++◌, Text, text, ltb, not, if◌then◌else◌, is_space,
}
use insightkit.Prelude.Dict
use insightkit.Prelude.Dict.{Dict}
use insightkit.Re.Syntax.{Regex, seq, alt, many, boundary, literal_ci, chr}
use insightkit.Re.Scan.{search}

-- A row of the table `cache`, under its key `query_hash`. `expires_at` is none where the stored
-- text is no date.
pub record CacheRow : Type 0 where
  pub result_json : Text
  pub expires_at : Option ℕ

abbrev pub CacheTable : Type 0
CacheTable = Dict CacheRow

abbrev pub volatile_names : Regex
volatile_names = alt (literal_ci (text "now")) (
    alt (literal_ci (text "current_timestamp")) (
      alt (literal_ci (text "current_date")) (
        alt (literal_ci (text "current_time")) (
          alt (literal_ci (text "random")) (
            alt (literal_ci (text "uuid")) (
              alt (literal_ci (text "newid"))
                (alt (literal_ci (text "getdate")) (literal_ci (text "rand")))))))))

-- `\b(now|…|rand)\s*\(`
abbrev pub volatile_re : Regex
volatile_re = seq boundary (seq volatile_names (seq (many is_space) (chr b'(')))

unfoldable pub is_cacheable : Text → Bool
is_cacheable sql = not (search volatile_re sql)

-- The text whose hash is the key.
unfoldable pub key_text : Text → Text → Text → Text → Text
key_text question role schema_version model =
    role ++ (b'|' ∷ schema_version ++ (b'|' ∷ model ++ (b'|' ∷ question)))

module _ (sha256 : Text → Text) where
  unfoldable pub query_hash : Text → Text → Text → Text → Text
  query_hash question role schema_version model =
      sha256 (key_text question role schema_version model)

module _ {ℓ} {Payload : Type ℓ} (encode : Payload → Option Text)
    (decode : Text → Option Payload) where
  -- The row that was found, at the time `now`.
  unfoldable pub read_row : ℕ → Option CacheRow → Option Payload
  read_row now none = none
  read_row now (some row) = elim row.expires_at [
    | none ↦ none
    | some expires ↦ if ltb expires now then none else decode row.result_json
  ]

  -- `QueryCache.get`
  unfoldable pub get : ℕ → Text → CacheTable → Option Payload
  get now key rows = read_row now (Dict.get key rows)

  -- `INSERT OR REPLACE`, unless the payload cannot be encoded.
  unfoldable pub store : ℕ → ℕ → Text → Option Text → CacheTable → CacheTable
  store ttl_s now key none rows = rows
  store ttl_s now key (some encoded) rows =
      Dict.put key (record { result_json = encoded; expires_at = some (now + ttl_s * 1_000_000) })
        rows

  -- `QueryCache.set`
  unfoldable pub set : ℕ → ℕ → Text → Payload → CacheTable → CacheTable
  set ttl_s now key payload rows = store ttl_s now key (encode payload) rows
