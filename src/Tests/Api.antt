-- ===== src/Tests/Api.antt =====
-- api/app.py at concrete inputs: an event stream that ends, the routes, and the metrics.
use insightkit.Prelude.{
  ℕ, Bool, leb, wide_space, ◌+◌, ◌≤◌, if◌then◌else◌, ◌≡◌, ◌≤◌, ◌<◌, ◌+◌, ◌*◌, refl, true, false, [],
  ◌∷◌, ◌++◌, Option, none, some, Text, text, length, List, drop, take, take-append, drop-append,
  lower, strip, lstrip_by, rstrip_by, keep, ◌&&◌, arith,
}
use mathlib.Core.List.{reverse}
use insightkit.Prelude.Dict
use insightkit.Prelude.Result.{ok}
use insightkit.Prelude.Integers.{pos, negsuc}
use insightkit.Audit.{AuditRow, ok_status, query, user_is, ts_from}
use insightkit.Access.Limiter.{RateLimiter, new_limiter, allow, hits_of}
use insightkit.Access.Users.{UserRow, User, verify, find_row}
use insightkit.Access.Auth.{
  Claims, require_role, get_auth, check_role, identify, by_token, by_key, bearer_token,
  complete_user, within_rate, admit, role_sufficient, role_level,
}
use insightkit.Access.Gate.{IsKnown}
use insightkit.Access.Metrics.{Metrics, new_metrics, record_request, push_bounded}
use insightkit.Access.Snapshot.{snapshot, sorted, insert, p50, p95, above, snapshot-percentiles}
use insightkit.Pipeline.Types.{Event, payload_of, result_of, new_result}
use insightkit.Prelude.Action.{pure, ◌>>=◌}
use insightkit.Pipeline.Kit
use insightkit.Pipeline.Kit.{Kit, State, reading}
use insightkit.Pipeline.Attempts.{Call}
use insightkit.Pipeline.Ask.{answer, answer_cached}
use insightkit.Api.Stream.{
  Stream, start, cb, stop, deliver, is_done, record_done, Step, emit, finish, receive, wait, Reach,
  here, next, time_out,
}
use insightkit.Api.Stream.Delivery.{until_done, recorded, stream_completes}
use insightkit.Api.Routes.{
  minute, App, Headers, JwtPayload, TokenReply, create_jwt, token_for, exchange_api_key, with_role,
  admitted, audit, audit_rows, limited_query, streamed,
}
use insightkit.Api.Routes.Tokens.{no_space, exchange_api_key-identify}
use insightkit.Api.Routes.Audits.{audit-IsLimited, audit_negative_limit}
use insightkit.Api.Routes.CachedAsk.{cached_ask_unrecorded}
use insightkit.Tests.Pipeline.{toy, config, small_schema}

program : Unit {0}
unfolding cb stop deliver is_done record_done time_out until_done recorded record_request
    push_bounded snapshot sorted insert p50 p95 above create_jwt token_for exchange_api_key
    with_role admitted audit audit_rows limited_query query allow hits_of Dict.get Dict.put verify
    find_row require_role get_auth check_role identify by_token by_key bearer_token complete_user
    within_rate admit role_sufficient role_level lower strip lstrip_by rstrip_by
program = tt

abbrev first : Event
first = Event.sql (text "select 1")

abbrev last : Event
last = Event.done ok_status 12 5 false 1 none

abbrev script : List Event
script = first ∷ last ∷ []

abbrev idle_metrics : Metrics
idle_metrics = new_metrics 500

abbrev every : Event → Bool
every e = true

-- The task sends both events before the generator takes the first.
abbrev s1 : Stream
s1 = record (start script idle_metrics) { left = last ∷ []; queue = first ∷ [] }

abbrev s2 : Stream
s2 = record s1 { left = []; queue = first ∷ last ∷ []; result_holder = some last }

abbrev s3 : Stream
s3 = record s2 { queue = last ∷ []; sent = first ∷ [] }

abbrev s4 : Stream
s4 = record s3 {
  queue = [];
  sent = script;
  metrics = record_request 12 5 false true idle_metrics;
  active = false;
}

step1 : Step every (start script idle_metrics) s1
unfolding program
step1 = emit (start script idle_metrics) first (last ∷ []) refl refl

step2 : Step every s1 s2
unfolding program
step2 = emit s1 last [] refl refl

step3 : Step every s2 s3
unfolding program
step3 = receive s2 first (last ∷ []) refl refl

step4 : Step every s3 s4
unfolding program
step4 = receive s3 last [] refl refl

to_s2 : Reach every (start script idle_metrics) s2
to_s2 = next (next here step1) step2

to_s4 : Reach every (start script idle_metrics) s4
to_s4 = next (next to_s2 step3) step4

stream_completes_example :
    (s4.sent ≡ until_done script) × (s4.metrics ≡ recorded idle_metrics (until_done script))
stream_completes_example = stream_completes every script idle_metrics s4 to_s4 refl refl refl

abbrev busy : Metrics
busy = record_request 7 1 false true (record_request 30 1 false true (new_metrics 500))

the_median_is_the_slower : (snapshot 1 busy).median ≡ 30
unfolding program
the_median_is_the_slower = refl

has_samples : 0 < length busy.latencies
unfolding program
has_samples = omega arith

snapshot-percentiles_example :
    (2 * above (snapshot 1 busy).median busy.latencies < length busy.latencies)
    × (20 * above (snapshot 1 busy).slow busy.latencies < length busy.latencies)
    × ((snapshot 1 busy).median ≤ (snapshot 1 busy).slow)
snapshot-percentiles_example = snapshot-percentiles 1 busy has_samples

-- A stand-in for the JWT library: when the token expires, the length of the name, the name and the
-- role.
abbrev encode : JwtPayload → Text
encode p = p.exp ∷ (length p.sub ∷ (p.sub ++ p.role))

abbrev decode : ℕ → Text → Option Claims
decode sent (e ∷ (n ∷ t)) =
    if leb (sent + 1_000_000) e
    then some (record { sub = some (take n t); role = some (drop n t) })
    else none
decode sent _ = none

decode-encode :
    (p : JwtPayload)
    → p.iat ≤ 20
    → 20 + 1_000_000 ≤ p.exp
    → decode 20 (encode p) ≡ some (record { sub = some p.sub; role = some p.role })
decode-encode p issued live =
    let fresh : leb (20 + 1_000_000) p.exp ≡ true = ground arith in
    rw (fresh, take-append p.sub p.role, drop-append p.sub p.role) refl

sent_late : 9 ≤ 20
sent_late = omega arith

sent_in_time : 20 + 1_000_000 ≤ 9 + 1 * minute
sent_in_time = omega arith

abbrev root : User
root = record { username = text "root"; role = text "admin" }

abbrev root_row : UserRow
root_row = record {
  username = text "root";
  role = text "admin";
  api_key_hash = text "ik_1";
  created_at = text "2026";
}

abbrev app : App toy
app = record {
  state = record {
    world = 3;
    schema = none;
    schema_version = text "0";
    stored_schema = none;
    cache = [];
    audit = [];
    calls = 0;
    executed = [];
    scanned = [];
    events = [];
  };
  limiter = new_limiter 5;
  metrics = idle_metrics;
  users = root_row ∷ [];
}

abbrev headers : Headers
headers = record { authorization = []; api_key = text "ik_1"; now = 9 }

abbrev no_token : Text → Option Claims
no_token t = none

abbrev after_audit : RateLimiter
after_audit = record { limit = 5; hits = (text "root", 9 ∷ []) ∷ [] }

abbrev app_after : App toy
app_after = record app { limiter = after_audit }

shows_nothing : audit no_token true toy none none (pos 7) headers app ≡ (ok [], app_after)
unfolding program
shows_nothing = refl

audit-IsLimited_example :
    (length {A = AuditRow} [] ≤ 1000)
    × (length {A = AuditRow} [] ≤ 7)
    × ((u : User) × IsKnown no_token toy.sha256 true app.users headers.authorization headers.api_key
          u
        × (role_level (text "admin") 99 ≤ role_level u.role 0))
audit-IsLimited_example =
    audit-IsLimited no_token true toy none none 7 headers app app_after [] shows_nothing

root_passes :
    require_role no_token toy.sha256 true app.users
      (text "admin")
      headers.authorization
      headers.api_key
      headers.now
      app.limiter
    ≡ (ok root, after_audit)
unfolding program
root_passes = refl

audit_negative_limit_example : audit no_token true toy none none (negsuc 0) headers app ≡ (
  ok (reverse (keep (λ r. user_is none r && ts_from none r) app.state.audit)),
  record app { limiter = after_audit },
)
audit_negative_limit_example =
    audit_negative_limit no_token true toy none none 0 headers app root after_audit root_passes

abbrev root_token : TokenReply
root_token = record {
  token = encode (record { sub = text "root"; role = text "admin"; iat = 9; exp = 60_000_009 });
  username = text "root";
  role = text "admin";
  expires_in_min = 1;
}

root_gets_token :
    exchange_api_key encode toy.sha256 true app.users 1 9 (text "ik_1") ≡ ok root_token
unfolding program
root_gets_token = refl

plain_token : no_space root_token.token ≡ true
unfolding wide_space
plain_token = refl

exchange_api_key-identify_example :
    (verify toy.sha256 true (text "ik_1") app.users ≡ some root)
    × (identify (decode 20) toy.sha256 true app.users (text "Bearer " ++ root_token.token) []
        ≡ some root)
exchange_api_key-identify_example =
    exchange_api_key-identify encode decode toy.sha256 true app.users 1 9 20 (text "ik_1") []
      root_token root_gets_token refl refl plain_token sent_late sent_in_time decode-encode

abbrev ana_call : Call
ana_call = record {
  question = text "how many";
  user = text "ana";
  role = text "viewer";
  key = text "k";
  model = text "big";
  streaming = true;
  started = 0;
}

abbrev kept_stream : Stream
kept_stream =
    start
      (streamed toy app.state
        (answer toy config ana_call small_schema
          (some (payload_of (new_result (text "how many") (text "big")))) app.state).1)
      idle_metrics

only_cached : kept_stream.left ≡ Event.cached [] ∷ []
unfolding program streamed answer answer_cached reading Kit.emit pure ◌>>=◌ payload_of result_of
only_cached = refl

-- The event is sent and yielded, the task ends, and the next wait closes the stream.
abbrev k1 : Stream
k1 = record kept_stream { left = []; queue = Event.cached [] ∷ [] }

abbrev k2 : Stream
k2 = record k1 { queue = []; sent = Event.cached [] ∷ [] }

abbrev k3 : Stream
k3 = record k2 { running = false }

abbrev k4 : Stream
k4 = record k3 { active = false }

cached1 : Step every kept_stream k1
unfolding program
cached1 = emit kept_stream (Event.cached []) [] refl only_cached

cached2 : Step every k1 k2
unfolding program
cached2 = receive k1 (Event.cached []) [] refl refl

cached3 : Step every k2 k3
cached3 = finish k2 refl refl

cached4 : Step every k3 k4
unfolding program
cached4 = wait k3 refl

cached_ask_unrecorded_example : k4.metrics ≡ idle_metrics
cached_ask_unrecorded_example =
    cached_ask_unrecorded toy config ana_call small_schema
      (payload_of (new_result (text "how many") (text "big"))) app.state every idle_metrics k4 refl
      (next (next (next (next here cached1) cached2) cached3) cached4)
