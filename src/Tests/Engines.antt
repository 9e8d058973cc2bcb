-- ===== src/Tests/Engines.antt =====
-- Engines at concrete URLs: `url_backend` reads what stands before the `+` of a driver's name.
use insightkit.Prelude.{
  Option, none, some, ◌≡◌, refl, Text, text, starts_with, strip, if◌then◌else◌, rstrip_by,
  lstrip_by,
}
use insightkit.Prelude.Result.{err}
use insightkit.Connector.{
  Engine, no_args, unsupported, sqlite_read_only, args_for, engine_for, build_engine,
}

program : Unit {0}
unfolding sqlite_read_only args_for engine_for build_engine strip rstrip_by lstrip_by
program = tt

abbrev url_backend : Text → Option Text
url_backend url =
    if starts_with url (text "sqlite+")
    then some (text "sqlite")
    else if starts_with url (text "oracle+")
    then some (text "oracle")
    else none

abbrev engine : Engine
engine = record {
  url = text "sqlite+aiosqlite:///file:shop.db?mode=ro&uri=true";
  backend = text "sqlite";
  connect_args = no_args;
}

-- A name that contains the mode is taken for the mode.
opened_writable :
    sqlite_read_only (text "sqlite+aiosqlite:///mode=rock.db")
    ≡ text "sqlite+aiosqlite:///mode=rock.db"
unfolding program
opened_writable = refl

refused : build_engine url_backend (text "oracle+x://db") ≡ err (unsupported (text "oracle"))
unfolding program
refused = refl
