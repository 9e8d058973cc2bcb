-- ===== src/Guard/Sql.antt =====
-- The SQL half of security/guard.py.
use insightkit.Prelude.{
  ℕ, ◌+◌, Bool, true, ◌||◌, not, Option, none, some, List, [], ◌∷◌, ◌++◌, map, Text, text, ◌==◌,
  ltb, if◌then◌else◌, is_space, is_lower, is_digit, is_decimal, ascii_digit, is_empty, lower, strip,
  lstrip_by, rstrip_by, until_space, split_on, text_mem, contains, keep, length, take, drop, last?,
}
use insightkit.Prelude.Result.{Result, ok, err, ◌>>=◌}
use insightkit.Prelude.Decimal.{decimal, show}
use insightkit.Re.Syntax.{
  Regex, cls, seq, alt, many, lazy, boundary, literal, literal_ci, some_of, whole_word,
}
use insightkit.Re.Scan.{Match, search, sub, finditer}

pub data GuardError : Type 0 where
  empty_statement multiple_statements bad_row_limit : GuardError
  not_allowed forbidden_keyword forbidden_table : Text → GuardError
  -- the MongoDB half
  invalid_json invalid_shape : Text → GuardError
  invalid_stage forbidden_stage forbidden_operator : Text → GuardError

-- `str(exc)`
unfoldable pub message : GuardError → Text
message empty_statement = text "Empty SQL statement"
message multiple_statements = text "Multiple statements are not allowed (single SELECT only)"
message bad_row_limit = text "row_limit must be positive"
message (not_allowed w) = text "Statement type not allowed: '" ++ (w ++ text "'")
message (forbidden_keyword w) = text "Forbidden keyword: '" ++ (w ++ text "'")
message (forbidden_table t) = text "Access to table '" ++ (t ++ text "' is forbidden")
message (invalid_json e) = text "Invalid MongoDB query JSON: " ++ e
message (invalid_shape e) = e
message (invalid_stage r) = text "Invalid aggregation stage: " ++ r
message (forbidden_stage k) = text "Forbidden aggregation stage: " ++ k
message (forbidden_operator k) = text "Forbidden aggregation operator: " ++ k

-- `sorted(FORBIDDEN_KEYWORDS)`, then `sorted(MULTIWORD_FORBIDDEN)`
abbrev pub forbidden_words : List Text
forbidden_words =
    text "alter"
    ∷ text "attach"
    ∷ text "create"
    ∷ text "delete"
    ∷ text "detach"
    ∷ text "drop"
    ∷ text "grant"
    ∷ text "insert"
    ∷ text "merge"
    ∷ text "reindex"
    ∷ text "revoke"
    ∷ text "truncate"
    ∷ text "update"
    ∷ text "vacuum"
    ∷ text "replace into"
    ∷ []

abbrev pub allowed_starts : List Text
allowed_starts =
    text "select" ∷ text "with" ∷ text "explain" ∷ text "show" ∷ text "pragma" ∷ text "values" ∷ []

-- `--[^\n]*|/\*.*?\*/`, where the dot takes newlines too
abbrev pub comment_re : Regex
comment_re =
    alt (seq (literal (text "--")) (many (λ c. not (c == 10))))
      (seq (literal (text "/*")) (seq (lazy (λ c. true)) (literal (text "*/"))))

-- `\blimit\s+(\d+)`, whatever the case
abbrev pub limit_re : Regex
limit_re =
    seq boundary (seq (literal_ci (text "limit")) (seq (some_of is_space) (some_of is_decimal)))

abbrev pub is_ident_start : ℕ → Bool
is_ident_start c = is_lower c || c == b'_'

abbrev pub is_ident : ℕ → Bool
is_ident c = is_lower c || is_digit c || c == b'_' || c == b'.'

-- `[a-z_][a-z0-9_\.]*`
abbrev pub ident_re : Regex
ident_re = seq (cls is_ident_start) (many is_ident)

unfoldable pub strip_comments : Text → Text
strip_comments sql = sub comment_re (text " ") sql

unfoldable pub statements : Text → List Text
statements sql =
    keep (λ p. not (is_empty p)) (map (λ p. strip p) (split_on b';' (strip_comments sql)))

-- The first keyword of the list that stands in the text as a whole word.
unfoldable pub first_word_in : List Text → Text → Option Text
first_word_in [] lowered = none
first_word_in (w ∷ ws) lowered =
    if search (whole_word (literal w)) lowered then some w else first_word_in ws lowered

unfoldable pub contains_forbidden : Text → Option Text
contains_forbidden lowered = first_word_in forbidden_words lowered

-- The part of `check_read_only` after the statements are counted.
unfoldable pub check_statement : Text → Result GuardError Text
check_statement stmt =
    if is_empty (lstrip_by is_space stmt)
    then err empty_statement
    else let first_word = lower (until_space (lstrip_by is_space stmt)) in
      if not (text_mem first_word allowed_starts)
      then err (not_allowed first_word)
      else elim (contains_forbidden (lower stmt)) [
        | some word ↦ err (forbidden_keyword word)
        | none ↦ ok stmt
      ]

unfoldable pub only_statement : List Text → Result GuardError Text
only_statement [] = err empty_statement
only_statement (stmt ∷ []) = check_statement stmt
only_statement (stmt ∷ other ∷ more) = err multiple_statements

unfoldable pub check_read_only : Text → Result GuardError Text
check_read_only sql = only_statement (statements sql)

abbrev pub is_semicolon : ℕ → Bool
is_semicolon c = c == b';'

-- `sql.rstrip().rstrip(';')`
unfoldable pub trimmed : Text → Text
trimmed sql = rstrip_by is_semicolon (rstrip_by is_space sql)

abbrev pub limit_clause : ℕ → Text
limit_clause limit = text "LIMIT " ++ show limit

-- `f"{sql.rstrip().rstrip(';')} LIMIT {limit}"`
unfoldable pub append_limit : Text → ℕ → Text
append_limit sql limit = trimmed sql ++ (b' ' ∷ limit_clause limit)

-- `int(last.group(1))`: the digits after the five letters and the spaces.
unfoldable pub limit_value : Text → ℕ
limit_value group = decimal (map ascii_digit (lstrip_by is_space (drop 5 group)))

-- `sql[last.end():]`
abbrev pub after_match : Text → Match → Text
after_match sql m = drop (length m.before + length m.group) sql

unfoldable pub limit_at : Text → ℕ → Option Match → Text
limit_at sql limit none = append_limit sql limit
limit_at sql limit (some m) =
    if not (is_empty (strip (rstrip_by is_semicolon (strip (after_match sql m)))))
    then append_limit sql limit
    else if ltb limit (limit_value m.group)
    then take (length m.before) sql ++ (limit_clause limit ++ after_match sql m)
    else sql

unfoldable pub enforce_row_limit : Text → ℕ → Result GuardError Text
enforce_row_limit sql limit =
    if limit == 0
    then err bad_row_limit
    else ok (limit_at sql limit (last? (finditer limit_re (trimmed sql))))

-- `set(re.findall(...))`
unfoldable pub identifiers : Text → List Text
identifiers cleaned = map (λ m. m.group) (finditer ident_re cleaned)

unfoldable pub mentions : Text → Text → Bool
mentions cleaned name =
    text_mem name (identifiers cleaned)
    || contains (b'"' ∷ name ++ text "\"") cleaned
    || contains (39 ∷ name ++ text "'") cleaned

unfoldable pub first_mentioned : Text → List Text → Option Text
first_mentioned cleaned [] = none
first_mentioned cleaned (table ∷ tables) =
    let name = lower (strip table) in
    let rest = first_mentioned cleaned tables in
    if is_empty name then rest else if mentions cleaned name then some table else rest

unfoldable pub check_forbidden_tables : Text → List Text → Result GuardError Text
check_forbidden_tables sql forbidden =
    elim (first_mentioned (lower (strip_comments sql)) forbidden) [
      | some table ↦ err (forbidden_table table)
      | none ↦ ok sql
    ]

unfoldable pub validate : Text → ℕ → List Text → Result GuardError Text
validate sql limit forbidden_tables = do
  stmt ← check_read_only sql
  stmt' ← check_forbidden_tables stmt forbidden_tables
  enforce_row_limit stmt' limit
