-- ===== src/Tests/Backends.antt =====
-- A statement that a server answers in two pages; its state counts the requests.
use insightkit.Prelude.{ℕ, suc, none, some, [], ◌∷◌, ◌≡◌, ◌↔◌, refl, Text, text}
use insightkit.Prelude.Action.{Action, pure, raise, from_result, ◌>>=◌}
use insightkit.Prelude.Dict
use insightkit.Prelude.Result.{ok, err}
use insightkit.Executor
use insightkit.Pipeline.Types.{num}
use insightkit.Backends.{get_backend, open_search_backend, sql_backend}
use insightkit.Backends.Trino.{
  Page, TrinoError, timed_out, Table, following, poll, query, framed, execute,
}
use insightkit.Backends.Trino.Polls.{Collects, query_iff}

program : Unit {0}
unfolding following poll query framed execute pure raise from_result ◌>>=◌ Executor.put_cells
    Executor.distinct Dict.put get_backend
program = tt

abbrev first : Page
first = record { columns = []; data_rows = []; next_uri = some (text "/v1/statement/1") }

abbrev second : Page
second = record {
  columns = text "n" ∷ [];
  data_rows = (num (text "1") ∷ []) ∷ (num (text "2") ∷ []) ∷ [];
  next_uri = none;
}

abbrev post : Text → Action TrinoError ℕ Page
post statement n = (ok first, suc n)

abbrev get_page : Text → Action TrinoError ℕ Page
get_page uri n = (ok second, suc n)

abbrev numbers : Table
numbers = ((num (text "1") ∷ []) ∷ (num (text "2") ∷ []) ∷ [], text "n" ∷ [])

polled : query post get_page 1 (text "SELECT n") 0 ≡ (ok numbers, 2)
unfolding program
polled = refl

too_late : query post get_page 0 (text "SELECT n") 0 ≡ (err timed_out, 1)
unfolding program
too_late = refl

framed_numbers : execute post get_page (λ cols rows. cols) 1 (text "SELECT n") 0 ≡ (
  ok (record {
    columns = text "n" ∷ [];
    numeric = text "n" ∷ [];
    rows = ((text "n", num (text "1")) ∷ []) ∷ ((text "n", num (text "2")) ∷ []) ∷ [];
  }),
  2,
)
unfolding program
framed_numbers = refl

search_backend : get_backend (text "opensearchs") ≡ open_search_backend
unfolding program
search_backend = refl

other_backend : get_backend (text "sqlite+aiosqlite") ≡ sql_backend
unfolding program
other_backend = refl

query_iff_example : (query post get_page 1 (text "SELECT n") 0 ≡ (ok numbers, 2)) ↔ (
    (p : Page) × (w1 : ℕ) × (post (text "SELECT n") 0 ≡ (ok p, w1))
    × Collects get_page 1 p [] [] w1 numbers 2)
query_iff_example = query_iff post get_page 1 (text "SELECT n") 0 numbers 2
