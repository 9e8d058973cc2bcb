-- ===== src/Pipeline/Types.antt =====
-- The data of pipeline.py: result frames, answers, events, and the configuration that it reads.
use insightkit.Prelude.{ℕ, Bool, true, false, Option, none, List, [], map, Text, take}
use insightkit.Audit.{Status, ok_status}
use insightkit.Guard.Pii.{mask_pii}

-- A value of a result: `decimal` holds the numeral of its float, `date` its ISO text, `bytes`
-- its decoded text, and `other` the text of a value that JSON has no form for, such as a `timedelta`, a
-- `time` or a `UUID`.
mutual
  pub data Cell : Type 0 where
    null : Cell
    bool : Bool → Cell
    num : Text → Cell
    str : Text → Cell
    decimal : Text → Cell
    date : Text → Cell
    bytes : Text → Cell
    list : Cells → Cell
    dict : CellFields → Cell
    other : Text → Cell

  pub data Cells : Type 0 where
    nil : Cells
    cons : Cell → Cells → Cells

  pub data CellFields : Type 0 where
    end : CellFields
    field : Text → Cell → CellFields → CellFields

-- `_json_safe`: a value of another class is left as it is.
unfoldable mutual
  pub json_safe : Cell → Cell
  json_safe null = null
  json_safe (bool b) = bool b
  json_safe (num n) = num n
  json_safe (str s) = str s
  json_safe (decimal n) = num n
  json_safe (date d) = str d
  json_safe (bytes s) = str s
  json_safe (list cs) = list (json_safe_items cs)
  json_safe (dict fs) = dict (json_safe_fields fs)
  json_safe (other v) = other v

  pub json_safe_items : Cells → Cells
  json_safe_items nil = nil
  json_safe_items (cons c cs) = cons (json_safe c) (json_safe_items cs)

  pub json_safe_fields : CellFields → CellFields
  json_safe_fields end = end
  json_safe_fields (field k c fs) = field k (json_safe c) (json_safe_fields fs)

-- A DataFrame: the names of its columns, those that are numeric, and its rows.
pub record Frame : Type 0 where
  pub columns : List Text
  pub numeric : List Text
  pub rows : List (List (Text × Cell))

abbrev pub OutRow : Type 0
OutRow = List (Text × Cell)

-- `mask_pii(str(v)) if isinstance(v, str) else v`
unfoldable pub masked : Cell → Cell
masked (str s) = str (mask_pii s)
masked c = c

unfoldable pub out_cell : Text × Cell → Text × Cell
out_cell (k, c) = (k, json_safe (masked c))

abbrev pub output_limit : ℕ
output_limit = 50

-- `_rows_for_output(df)`
unfoldable pub rows_for_output : Frame → List OutRow
rows_for_output df = map (λ row. map out_cell row) (take output_limit df.rows)

pub record AskResult : Type 0 where
  pub question : Text
  pub sql : Text
  pub reasoning : Text
  pub insight : Text
  pub chart : Option Text
  pub row_count : ℕ
  pub latency_ms : ℕ
  pub tokens : ℕ
  pub model : Text
  pub status : Status
  pub error : Option Text
  pub cached : Bool
  pub attempts : ℕ
  pub rows : Option (List OutRow)

-- `AskResult(question=question)` with its defaults, for a model.
abbrev pub new_result : Text → Text → AskResult
new_result question model = record {
  question = question;
  sql = [];
  reasoning = [];
  insight = [];
  chart = none;
  row_count = 0;
  latency_ms = 0;
  tokens = 0;
  model = model;
  status = ok_status;
  error = none;
  cached = false;
  attempts = 1;
  rows = none;
}

-- The fields of an answer that the cache keeps.
pub record Payload : Type 0 where
  pub sql : Text
  pub reasoning : Text
  pub insight : Text
  pub chart : Option Text
  pub row_count : ℕ
  pub rows : Option (List OutRow)
  pub tokens : ℕ
  pub model : Text
  pub status : Status
  pub attempts : ℕ

unfoldable pub payload_of : AskResult → Payload
payload_of r = record {
  sql = r.sql;
  reasoning = r.reasoning;
  insight = r.insight;
  chart = r.chart;
  row_count = r.row_count;
  rows = r.rows;
  tokens = r.tokens;
  model = r.model;
  status = r.status;
  attempts = r.attempts;
}

-- `AskResult(**{**cached, "question": question, "cached": True})`
unfoldable pub result_of : Text → Payload → AskResult
result_of question p = record {
  question = question;
  sql = p.sql;
  reasoning = p.reasoning;
  insight = p.insight;
  chart = p.chart;
  row_count = p.row_count;
  latency_ms = 0;
  tokens = p.tokens;
  model = p.model;
  status = p.status;
  error = none;
  cached = true;
  attempts = p.attempts;
  rows = p.rows;
}

-- What `stream` is called with.
pub data Event : Type 0 where
  cached : Text → Event
  plan : Text → ℕ → Bool → Event
  retry : ℕ → Text → Event
  sql : Text → Event
  schema_refresh : Text → Event
  result : List Text → Option (List OutRow) → ℕ → Event
  insight : Text → Event
  chart : Text → Event
  done : Status → ℕ → ℕ → Bool → ℕ → Option Text → Event

pub record Config : Type 0 where
  pub model : Text
  pub fast_model : Option Text
  pub max_retries : ℕ
  pub row_limit : ℕ
  pub forbidden_tables : List Text
  pub relevant_tables : ℕ
  pub ttl_s : ℕ
  -- `insight.language == "id"`
  pub indonesian : Bool

-- What `backend.execute` does: a frame, one of the two database errors, or another exception.
pub data Outcome : Type 0 where
  frame : Frame → Outcome
  table_not_found db_error crash : Text → Outcome

-- A message list of a completion: the two first contents, and the failed answer with the nudge.
pub record Request : Type 0 where
  pub system : Text
  pub user : Text
  pub repair : Option (Text × Text)
  pub json_mode : Bool
  pub model : Text
  pub max_tokens : ℕ

pub data Failure : Type 0 where
  llm_failed crashed : Text → Failure
  meta_failed : Failure
