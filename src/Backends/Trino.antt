-- ===== src/Backends/Trino.antt =====
-- TrinoBackend of db/backends.py: the statement API, whose pages are polled, and the tables it finds.
-- The server is a parameter, a function of its own state.
pub mod Polls
use insightkit.Prelude.{
  ℕ, zero, suc, Bool, true, false, Option, none, some, List, [], ◌∷◌, ◌++◌, map, Text, text,
  is_empty, length, if◌then◌else◌, all, leb,
}
use insightkit.Prelude.Action.{Action, pure, raise, from_result, ◌>>=◌}
use insightkit.Prelude.Result.{Result, ok, err}
use insightkit.Executor.{put_cells, distinct}
use insightkit.Pipeline.Types.{Cell, Frame}

-- A response of the statement API; the columns are their names.
pub record Page : Type 0 where
  pub columns : List Text
  pub data_rows : List (List Cell)
  pub next_uri : Option Text

-- What ends a statement early: a status that is an error, the timeout, or a row with fewer cells than
-- there are columns.
pub data TrinoError : Type 0 where
  status : ℕ → TrinoError
  timed_out index_error : TrinoError

-- `if state.get("columns"): cols = …`
abbrev pub columns_after : Page → List Text → List Text
columns_after page cols = if is_empty page.columns then cols else page.columns

-- `if not uri: break`
unfoldable pub following : Page → Option Text
following page = elim page.next_uri [
  | none ↦ none
  | some uri ↦ if is_empty uri then none else some uri
]

abbrev pub Table : Type 0
Table = List (List Cell) × List Text

module _ {World : Type 0} (get_page : Text → Action TrinoError World Page) where
  -- The loop of `_query` at a page, with the number of responses that still arrive before the timeout.
  unfoldable pub poll : ℕ → Page → List Text → List (List Cell) → Action TrinoError World Table
  poll zero page cols rows = elim (following page) [
    | none ↦ pure (rows ++ page.data_rows, columns_after page cols)
    | some uri ↦ raise timed_out
  ]
  poll (suc left) page cols rows = elim (following page) [
    | none ↦ pure (rows ++ page.data_rows, columns_after page cols)
    | some uri ↦
        get_page uri >>= λ next. poll left next (columns_after page cols) (rows ++ page.data_rows)
  ]

module _ {World : Type 0} (post : Text → Action TrinoError World Page)
    (get_page : Text → Action TrinoError World Page) where
  -- `_query`, with `polls` responses before the timeout
  unfoldable pub query : ℕ → Text → Action TrinoError World Table
  query polls sql = post sql >>= λ page. poll get_page polls page [] []

  -- `execute`
  module _ (numeric : List Text → List (List (Text × Cell)) → List Text) where
    unfoldable pub framed : Table → Result TrinoError Frame
    framed (rows, []) = ok (record { columns = []; numeric = []; rows = [] })
    framed ([], c ∷ cs) = ok (record { columns = c ∷ cs; numeric = []; rows = [] })
    framed (row ∷ more, c ∷ cs) =
        let kept = map (λ r. put_cells (c ∷ cs) r []) (row ∷ more) in
        if all (λ r. leb (length (c ∷ cs)) (length r)) (row ∷ more)
        then ok (record {
          columns = distinct [] (c ∷ cs);
          numeric = numeric (c ∷ cs) kept;
          rows = kept;
        })
        else err index_error

    unfoldable pub execute : ℕ → Text → Action TrinoError World Frame
    execute polls sql = query polls sql >>= λ table. from_result (framed table)
