-- ===== src/Connector.antt =====
-- db/connector.py: the engine of a SQL database and how it is made read-only. SQLAlchemy's reading of
-- the backend's name from a URL is a parameter.
pub mod ReadOnly
use insightkit.Prelude.{
  ℕ, Bool, true, false, ◌||◌, not, Option, none, some, List, [], ◌∷◌, ◌++◌, Text, text, text_eq,
  text_mem, contains, starts_with, strip, drop, is_empty, if◌then◌else◌,
}
use insightkit.Prelude.Result.{Result, ok, err}

abbrev pub sqlite_prefix : Text
sqlite_prefix = text "sqlite+aiosqlite:///"

abbrev pub supported : List Text
supported = text "postgresql" ∷ text "mysql" ∷ text "sqlite" ∷ []

-- `url[len(_SQLITE_PREFIX):]`
abbrev pub path_of : Text → Text
path_of url = drop 20 url

-- `"&" if "?" in path_part else "?"`
abbrev pub separator : Text → Text
separator path = if contains (text "?") path then text "&" else text "?"

-- `_sqlite_read_only`
unfoldable pub sqlite_read_only : Text → Text
sqlite_read_only url =
    let path = path_of url in
    if not (starts_with url sqlite_prefix)
    then url
    else if is_empty path || text_eq path (text ":memory:") || contains (text "mode=ro") path
    then url
    else if starts_with path (text "file:")
    then url
    else sqlite_prefix ++ (text "file:" ++ (path ++ (separator path ++ text "mode=ro&uri=true")))

pub data ConnectArgs : Type 0 where
  no_args : ConnectArgs
  options init_command : Text → ConnectArgs

pub record Engine : Type 0 where
  pub url : Text
  pub backend : Text
  pub connect_args : ConnectArgs

-- The three texts of ValueError
pub data EngineError : Type 0 where
  empty_url invalid_url : EngineError
  unsupported : Text → EngineError

abbrev pub pg_options : ConnectArgs
pg_options = options (text "-c default_transaction_read_only=on")

abbrev pub mysql_init : ConnectArgs
mysql_init = init_command (text "SET SESSION TRANSACTION READ ONLY")

unfoldable pub args_for : Text → ConnectArgs
args_for scheme =
    if text_eq scheme (text "postgresql")
    then pg_options
    else if text_eq scheme (text "mysql")
    then mysql_init
    else no_args

unfoldable pub engine_for : Text → Option Text → Result EngineError Engine
engine_for url none = err invalid_url
engine_for url (some scheme) =
    if text_mem scheme supported
    then ok (record { url = url; backend = scheme; connect_args = args_for scheme })
    else err (unsupported scheme)

-- `build_engine`
unfoldable pub build_engine : (Text → Option Text) → Text → Result EngineError Engine
build_engine backend_name database_url =
    let raw = strip database_url in
    if is_empty raw
    then err empty_url
    else engine_for (sqlite_read_only raw) (backend_name (sqlite_read_only raw))
