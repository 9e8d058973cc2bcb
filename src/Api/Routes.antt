-- ===== src/Api/Routes.antt =====
-- The other routes of api/app.py. FastAPI resolves the dependencies of a route before its body
-- runs, and a request whose parameters are not valid ends with status 422 after them.
pub mod Tokens
pub mod Audits
pub mod CachedAsk
use insightkit.Prelude.{
  ℕ, ◌+◌, ◌*◌, Bool, true, false, Option, none, some, List, Text, text, if◌then◌else◌, map, length,
  drop,
}
use insightkit.Prelude.Result.{Result, ok, err}
use insightkit.Prelude.Integers.{ℤ, pos, negsuc, at_most}
use insightkit.Schema.{ColumnMeta, TableMeta, SchemaMetadata}
use insightkit.Audit.{AuditRow, query}
use insightkit.Access.Limiter.{RateLimiter}
use insightkit.Access.Users.{UserRow, User, verify}
use insightkit.Access.Auth.{Claims, HttpError, unauthorized, unprocessable, require_role}
use insightkit.Access.Metrics.{Metrics}
use insightkit.Pipeline.Types.{Failure, Event, Config}
use insightkit.Pipeline.Kit.{Kit, State, get_schema, refresh_schema}
use insightkit.Pipeline.Ask.{ask}
use insightkit.Api.Stream.{Stream, start}

-- The claims of `create_jwt`; the times are those of its clock.
pub record JwtPayload : Type 0 where
  pub sub : Text
  pub role : Text
  pub iat : ℕ
  pub exp : ℕ

abbrev pub minute : ℕ
minute = 60_000_000

-- `create_jwt`
unfoldable pub create_jwt : (JwtPayload → Text) → ℕ → ℕ → Text → Text → Text
create_jwt encode expire_min now username role =
    encode (record { sub = username; role = role; iat = now; exp = now + expire_min * minute })

pub record TokenReply : Type 0 where
  pub token : Text
  pub username : Text
  pub role : Text
  pub expires_in_min : ℕ

abbrev pub token_reply : (JwtPayload → Text) → ℕ → ℕ → User → TokenReply
token_reply encode expire_min now u = record {
  token = create_jwt encode expire_min now u.username u.role;
  username = u.username;
  role = u.role;
  expires_in_min = expire_min;
}

-- `exchange_api_key`, for what `verify` found
unfoldable pub token_for : (JwtPayload → Text) → ℕ → ℕ → Option User → Result HttpError TokenReply
token_for encode expire_min now none = err unauthorized
token_for encode expire_min now (some u) = ok (token_reply encode expire_min now u)

unfoldable pub exchange_api_key :
    (JwtPayload → Text)
    → (Text → Text)
    → Bool
    → List UserRow
    → ℕ
    → ℕ
    → Text
    → Result HttpError TokenReply
exchange_api_key encode sha256 readable users expire_min now key =
    token_for encode expire_min now (verify sha256 readable key users)

-- `app.state`, and the users of the meta database
pub record App (kit : Kit) : Type 0 where
  pub state : State kit
  pub limiter : RateLimiter
  pub metrics : Metrics
  pub users : List UserRow

-- The two headers that `get_auth` reads, and the time of the request.
pub record Headers : Type 0 where
  pub authorization : Text
  pub api_key : Text
  pub now : ℕ

-- What a route ends with: a reply, an HTTP exception, or a failure that nothing catches.
pub data Refusal : Type 0 where
  http : HttpError → Refusal
  internal : Failure → Refusal

abbrev pub Reply : Kit → Type 0 → Type 0
Reply kit A = Result Refusal A × App kit

module _ {A : Type 0} (kit : Kit) (handler : User → App kit → Reply kit A) where
  unfoldable pub admitted : App kit → Result HttpError User × RateLimiter → Reply kit A
  admitted app (err e, l) = (err (http e), record app { limiter = l })
  admitted app (ok u, l) = handler u (record app { limiter = l })

module _ (decode : Text → Option Claims) (readable : Bool) {A : Type 0} (kit : Kit) where
  -- A route with `Depends(require_role(required))`.
  unfoldable pub with_role : Text → (User → App kit → Reply kit A) → Headers → App kit → Reply kit A
  with_role required handler h app = admitted kit handler app (
      require_role decode kit.sha256 readable app.users required h.authorization h.api_key h.now
        app.limiter)

unfoldable pub of_kit :
    {A B : Type 0} (kit : Kit) → (A → B) → App kit → Result Failure A × State kit → Reply kit B
of_kit kit f app (ok a, s) = (ok (f a), record app { state = s })
of_kit kit f app (err e, s) = (err (internal e), record app { state = s })

pub record ColumnView : Type 0 where
  pub name : Text
  pub type : Text
  pub nullable : Bool
  pub pk : Bool
  pub fk_ref : Option Text

pub record TableView : Type 0 where
  pub name : Text
  pub row_count : Option ℕ
  pub columns : List ColumnView

pub record SchemaView : Type 0 where
  pub db_key : Text
  pub dialect : Text
  pub tables : List TableView

unfoldable pub view_column : ColumnMeta → ColumnView
view_column c = record {
  name = c.name;
  type = c.data_type;
  nullable = c.nullable;
  pk = c.is_pk;
  fk_ref = c.fk_ref;
}

unfoldable pub view_table : TableMeta → TableView
view_table t = record {
  name = t.name;
  row_count = t.row_count;
  columns = map view_column t.columns;
}

unfoldable pub view_schema : Text → SchemaMetadata → SchemaView
view_schema key s = record { db_key = key; dialect = s.dialect; tables = map view_table s.tables }

-- The reply of `health`; the status is "ok" exactly when the database answers.
pub record Health : Type 0 where
  pub status : Text
  pub database : Bool
  pub model : Text
  pub schema_cached : Bool

abbrev pub is_some : {A : Type 0} → Option A → Bool
is_some none = false
is_some (some a) = true

-- A ping that raises counts as no answer.
abbrev pub answered : Result Unit Bool → Bool
answered (ok b) = b
answered (err e) = false

-- `ORDER BY id DESC LIMIT ?`: SQLite takes a negative limit for none.
unfoldable pub limited_query : Option Text → Option Text → ℤ → List AuditRow → List AuditRow
limited_query user since (pos limit) rows = query user since limit rows
limited_query user since (negsuc _) rows = query user since (length rows) rows

abbrev pub max_audit_limit : ℕ
max_audit_limit = 1000

-- The body of `audit`
unfoldable pub audit_rows :
    (kit : Kit) → Option Text → Option Text → ℤ → User → App kit → Reply kit (List AuditRow)
audit_rows kit user since limit u app =
    if at_most limit max_audit_limit
    then (ok (limited_query user since limit app.state.audit), app)
    else (err (http unprocessable), app)

module _ (decode : Text → Option Claims) (readable : Bool) (kit : Kit) where
  -- `schema_view`; `key` is the kit's `db_key`.
  unfoldable pub schema_view : Text → Headers → App kit → Reply kit SchemaView
  schema_view key =
      with_role decode readable kit (text "viewer")
        (λ u app. of_kit kit (view_schema key) app (get_schema kit app.state))

  -- `schema_refresh`
  unfoldable pub schema_refresh : Text → Headers → App kit → Reply kit (Text × Text)
  schema_refresh key =
      with_role decode readable kit (text "admin")
        (λ u app. of_kit kit (λ meta. (text "ok", key)) app (refresh_schema kit app.state))

  -- `health`, which asks for no role
  unfoldable pub health :
      (kit.World → Result Unit Bool × kit.World) → Text → App kit → Health × App kit
  health ping model app =
      let (r, w) = ping app.state.world in
      (
        record {
          status = if answered r then text "ok" else text "degraded";
          database = answered r;
          model = model;
          schema_cached = is_some app.state.schema;
        },
        record app { state = record (app.state) { world = w } },
      )

  -- `audit`
  unfoldable pub audit :
      Option Text → Option Text → ℤ → Headers → App kit → Reply kit (List AuditRow)
  audit user since limit =
      with_role decode readable kit (text "admin") (audit_rows kit user since limit)

-- The events that a run adds to those of the state.
unfoldable pub streamed : (kit : Kit) → State kit → State kit → List Event
streamed kit s t = drop (length s.events) t.events

-- The request that `ask` starts for the user of its headers.
unfoldable pub ask_stream : (kit : Kit) → Config → Text → Option Text → User → App kit → Stream
ask_stream kit cfg question model u app =
    start (streamed kit app.state (ask kit cfg question u.username u.role true model app.state).1)
      app.metrics

-- `ask`: the reply is the event stream of the request, and the run leaves the kit in a new state.
unfoldable pub ask_route :
    (decode : Text → Option Claims)
    → Bool
    → (kit : Kit) → Config
    → Text
    → Option Text
    → Headers
    → App kit
    → Reply kit Stream
ask_route decode readable kit cfg question model =
    with_role decode readable kit (text "viewer") (λ u app. (
      ok (ask_stream kit cfg question model u app),
      record app { state = (ask kit cfg question u.username u.role true model app.state).1 },
    ))
