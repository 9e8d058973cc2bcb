-- ===== src/Tests/Sql.antt =====
-- The SQL guard of security/guard.py and the cache at concrete inputs.
use insightkit.Prelude.{
  false, ℕ, ◌≡◌, refl, true, [], ◌∷◌, ◌++◌, Text, text, ◌↔◌, ◌⊎◌, if◌then◌else◌, text_eq, ltb, ◌+◌,
  ◌*◌, none, some,
}
use insightkit.Prelude.{
  wide_space, lower, strip, lstrip_by, rstrip_by, until_space, split_cons, split_on,
}
use insightkit.Prelude.Result.{ok, err}
use insightkit.Prelude.Decimal.{show, show_fuel, decimal, decimal_from}
use insightkit.Re.Matcher.{match_at, greedy, reluctant, run}
use insightkit.Re.Scan.{search, search_from, sub, sub_from, finditer, finditer_from}
use insightkit.Guard.Sql.{
  GuardError, forbidden_keyword, forbidden_table, validate, check_read_only, statements,
  strip_comments, only_statement, check_statement, contains_forbidden, first_word_in,
  check_forbidden_tables, first_mentioned, mentions, identifiers, enforce_row_limit, limit_at,
  trimmed, append_limit, limit_value, bad_row_limit, message,
}
use insightkit.Guard.ReadOnly.{IsReadOnly, check_read_only_iff}
use insightkit.Guard.LimitClause.{EndsWithLimit}
use insightkit.Guard.RowLimit.{enforce_row_limit-EndsWithLimit}
use insightkit.Guard.Identifiers.{is_identifier}
use insightkit.Guard.Tables.{HasIdentifier, check_forbidden_tables_blocks}
use insightkit.Guard.Qualified.{select_from, qualified, check_forbidden_tables_passes_qualified}
use insightkit.Cache.Store
use insightkit.Cache.Lifetime.{get-set}

program : Unit {0}
unfolding validate check_read_only statements strip_comments only_statement check_statement
    contains_forbidden first_word_in check_forbidden_tables first_mentioned mentions identifiers
    enforce_row_limit limit_at trimmed append_limit limit_value search search_from sub sub_from
    finditer finditer_from match_at greedy reluctant run lower strip lstrip_by rstrip_by until_space
    split_cons split_on show show_fuel decimal decimal_from message
program = tt

abbrev query : Text
query = text "SELECT a FROM t -- x\n LIMIT 50;"

abbrev checked : Text
checked = text "SELECT a FROM t  \n LIMIT 10"

refuses_two_statements :
    validate (text "select 1; drop table x") 10 [] ≡ err GuardError.multiple_statements
unfolding program
refuses_two_statements = refl

refuses_hidden_delete :
    validate (text "with x as (Delete from y) select /* a */ 1") 10 []
    ≡ err (forbidden_keyword (text "delete"))
unfolding program
refuses_hidden_delete = refl

refuses_users :
    validate (text "select * from Users") 10 (text "users" ∷ [])
    ≡ err (forbidden_table (text "users"))
unfolding program
refuses_users = refl

abbrev only : Text
only = text "SELECT a FROM t  \n LIMIT 50"

accepted : check_read_only query ≡ ok only
unfolding program
accepted = refl

check_read_only_iff_example :
    (check_read_only query ≡ ok only) ↔ ((statements query ≡ only ∷ []) × IsReadOnly only)
check_read_only_iff_example = check_read_only_iff query only

abbrev row_limit : ℕ
row_limit = 10

enforce_row_limit-EndsWithLimit_example :
    ((row_limit ≡ 0) × (enforce_row_limit only row_limit ≡ err bad_row_limit))
    ⊎ ((out : Text) × (enforce_row_limit only row_limit ≡ ok out) × EndsWithLimit out row_limit)
enforce_row_limit-EndsWithLimit_example = enforce_row_limit-EndsWithLimit only row_limit

-- A clause with an offset gets a second LIMIT.
enforce_row_limit_offset :
    enforce_row_limit (text "select a from t limit 10 offset 5") 10
    ≡ ok (text "select a from t limit 10 offset 5 LIMIT 10")
unfolding program
enforce_row_limit_offset = refl

abbrev from_users : Text
from_users = text "select a from Users where b = 1"

users_named : HasIdentifier (lower (strip (text "users"))) (lower (strip_comments from_users))
unfolding program
users_named = (text "select a from ", text " where b = 1", refl, refl, refl)

users_identifier : is_identifier (lower (strip (text "users"))) ≡ true
unfolding program
users_identifier = refl

check_forbidden_tables_blocks_example :
    (hit : Text) × (check_forbidden_tables from_users ((text "logs" ∷ []) ++ (text "users" ∷ []))
      ≡ err (forbidden_table hit))
check_forbidden_tables_blocks_example =
    check_forbidden_tables_blocks from_users (text "logs" ∷ []) (text "users") [] users_identifier
      users_named

check_forbidden_tables_passes_qualified_example :
    check_forbidden_tables
      (select_from (qualified (text "public") (text "users")))
      (text "users" ∷ [])
    ≡ ok (select_from (qualified (text "public") (text "users")))
check_forbidden_tables_passes_qualified_example =
    check_forbidden_tables_passes_qualified (text "public") (text "users") refl refl refl

get-set_example :
    Store.get some some 9_000_000
      (text "k")
      (Store.set some some 5 1_000_000 (text "k") (text "{}") [])
    ≡ (if text_eq (text "k") (text "k")
        then (if ltb (1_000_000 + 5 * 1_000_000) 9_000_000 then none else some (text "{}"))
        else Store.get some some 9_000_000 (text "k") [])
get-set_example =
    get-set some some 5 1_000_000 9_000_000 (text "k") (text "k") (text "{}") (text "{}") [] refl

volatile_call : Store.is_cacheable (text "select Now ( )") ≡ false
unfolding program Store.is_cacheable
volatile_call = refl

-- Python takes a no-break space for a space, and the query is kept as it is.
abbrev no_break : Text
no_break = text "select * from t limit" ++ (160 ∷ text "5")

no_break_kept : enforce_row_limit no_break 10 ≡ ok no_break
unfolding program wide_space
no_break_kept = refl
