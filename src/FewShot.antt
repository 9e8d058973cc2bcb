-- ===== src/FewShot.antt =====
-- fewshot.py: the question and SQL pairs that the prompts show as examples. The rows of `few_shots`
-- stand in the order of their ids.
pub mod Best
pub mod Adding
use insightkit.Prelude.{
  ℕ, zero, suc, Bool, true, false, ◌||◌, List, [], ◌∷◌, ◌++◌, map, Text, text_eq, text_mem, ltb,
  any, keep, take, length, is_lower, fold, is_digit, is_empty, ◌==◌, lower, strip, if◌then◌else◌,
}
use mathlib.Core.List.{reverse}
use insightkit.Prelude.Result.{Result, ok, err}
use insightkit.Re.Syntax.{some_of}
use insightkit.Re.Scan.{finditer}

pub record FewShot : Type 0 where
  pub question_hash : Text
  pub question : Text
  pub sql : Text
  pub tags : Text
  pub source : Text
  pub created_at : Text

-- The ValueError of `add`
pub data FewShotError : Type 0 where
  blank_example : FewShotError

-- `[a-z0-9_]`, whatever the case
abbrev pub is_token : ℕ → Bool
is_token c = is_lower (fold c) || is_digit c || c == b'_'

-- The elements of a list, each once.
unfoldable pub distinct : List Text → List Text
distinct [] = []
distinct (t ∷ ts) = let rest = distinct ts in if text_mem t rest then rest else t ∷ rest

-- `{t for t in _tokens(s) if len(t) > 2}`
unfoldable pub long_tokens : Text → List Text
long_tokens s =
    distinct
      (keep (λ t. ltb 2 (length t)) (map (λ m. lower m.group) (finditer (some_of is_token) s)))

-- `len(q_tokens & …)`
unfoldable pub overlap : List Text → Text × Text → ℕ
overlap q_tokens (question, sql) =
    let stored = long_tokens question in length (keep (λ t. text_mem t stored) q_tokens)

-- `sort(key=…, reverse=True)`, which keeps equals in their order.
module _ {A : Type 0} (key : A → ℕ) where
  unfoldable pub insert_by : A → List A → List A
  insert_by x [] = x ∷ []
  insert_by x (y ∷ ys) =
      let rest = insert_by x ys in if ltb (key x) (key y) then y ∷ rest else x ∷ y ∷ ys

  unfoldable pub sort_by : List A → List A
  sort_by [] = []
  sort_by (x ∷ xs) = insert_by x (sort_by xs)

abbrev pub pair_of : FewShot → Text × Text
pair_of r = (r.question, r.sql)

-- The list `scored`, best first, for the tokens of a question.
unfoldable pub ranked : List Text → List FewShot → List (Text × Text)
ranked q_tokens rows =
    sort_by (overlap q_tokens) (keep (λ p. ltb 0 (overlap q_tokens p)) (map pair_of rows))

-- `search`; a `k` below 0 asks for as much as 0.
unfoldable pub search : Text → ℕ → List FewShot → List (Text × Text)
search question zero rows = []
search question (suc k) rows =
    let q_tokens = long_tokens question in
    if is_empty rows || is_empty q_tokens then [] else take (suc k) (ranked q_tokens rows)

-- `INSERT OR IGNORE`, and whether it inserted.
unfoldable pub insert_or_ignore : FewShot → List FewShot → Bool × List FewShot
insert_or_ignore r rows =
    if any (λ q. text_eq q.question_hash r.question_hash) rows
    then (false, rows)
    else (true, rows ++ r ∷ [])

unfoldable pub added : Bool × List FewShot → Result FewShotError Bool × List FewShot
added (inserted, rows) = (ok inserted, rows)

module _ (sha256 : Text → Text) (now tags source : Text) where
  unfoldable pub add_stripped : Text → Text → List FewShot → Result FewShotError Bool × List FewShot
  add_stripped question sql rows =
      if is_empty question || is_empty sql
      then (err blank_example, rows)
      else added (
          insert_or_ignore
            (record {
              question_hash = sha256 question;
              question = question;
              sql = sql;
              tags = tags;
              source = source;
              created_at = now;
            })
            rows)

  -- `add`
  unfoldable pub add : Text → Text → List FewShot → Result FewShotError Bool × List FewShot
  add question sql rows = add_stripped (strip question) (strip sql) rows

-- `count`
unfoldable pub count : List FewShot → ℕ
count rows = length rows

-- `list_all`
unfoldable pub list_all : ℕ → List FewShot → List FewShot
list_all limit rows = take limit (reverse rows)
