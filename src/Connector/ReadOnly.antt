-- ===== src/Connector/ReadOnly.antt =====
-- Which engines of db/connector.py are read-only.
use insightkit.Prelude.{
  if◌then◌else◌, List, split_on, any, ◌==◌, ℕ, Bool, true, ◌||◌, not, [], ◌∷◌, ◌≡◌, ◌⊎◌, Text, text,
  text_eq, text_mem, contains, starts_with, is_empty,
}
use insightkit.Prelude.Result.{Result}
use insightkit.Connector.{Engine, sqlite_prefix, path_of, pg_options, mysql_init}

abbrev pub mode_ro : Text
mode_ro = text "mode=ro"

abbrev pub has : ℕ → Text → Bool
has c s = any (λ x. x == c) s

-- The URLs that are left alone, which are those of other drivers, databases in memory, SQLite's own
-- `file:` URLs, and every path in which `mode=ro` stands somewhere, if only in a name.
abbrev pub is_exempt : Text → Bool
is_exempt url =
    not (starts_with url sqlite_prefix)
    || (is_empty (path_of url) || text_eq (path_of url) (text ":memory:"))
    || contains mode_ro (path_of url)
    || starts_with (path_of url) (text "file:")

-- How SQLite reads a URI: what a `#` begins is no part of it, and its options stand behind the first
-- `?`, with a `&` between them.
unfoldable pub before_hash : Text → Text
before_hash [] = []
before_hash (x ∷ xs) = let rest = before_hash xs in if x == b'#' then [] else x ∷ rest

unfoldable pub query_of : Text → Text
query_of [] = []
query_of (x ∷ xs) = let rest = query_of xs in if x == b'?' then xs else rest

unfoldable pub options_of : Text → List Text
options_of url = split_on b'&' (query_of (before_hash url))

abbrev tail_of : List Text → List Text
tail_of [] = []
tail_of (w ∷ ws) = ws

-- How an engine is kept from writing: by an option of the session, or, of SQLite, by an option of the
-- URL. A SQLite URL that is left alone, or whose path has a `#`, may be open for writing.
unfoldable pub IsReadOnly : Text → Engine → Type 0
IsReadOnly raw e =
    (e.connect_args ≡ pg_options)
    ⊎ (e.connect_args ≡ mysql_init)
    ⊎ (e.backend ≡ text "sqlite")
      × ((is_exempt raw ≡ true)
          ⊎ (has b'#' (path_of raw) ≡ true)
          ⊎ (text_mem mode_ro (options_of e.url) ≡ true))
