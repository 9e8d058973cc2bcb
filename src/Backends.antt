-- ===== src/Backends.antt =====
-- db/backends.py: which backend a URL names, and the backend of Trino.
pub mod Mongo
pub mod Trino
use insightkit.Prelude.{
  Bool, true, false, List, [], ◌∷◌, Text, text, text_mem, text_eq, if◌then◌else◌,
}

-- The four classes.
pub data Kind : Type 0 where
  mongo_backend open_search_backend trino_backend sql_backend : Kind

-- `get_backend`, on the scheme of the URL
unfoldable pub get_backend : Text → Kind
get_backend scheme =
    if text_mem scheme (text "mongodb" ∷ text "mongodb+srv" ∷ [])
    then mongo_backend
    else if text_mem scheme (text "opensearch" ∷ text "opensearchs" ∷ [])
    then open_search_backend
    else if text_eq scheme (text "trino")
    then trino_backend
    else sql_backend
