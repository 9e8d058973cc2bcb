-- ===== src/Tests/Access.antt =====
-- The access control of api/auth.py, security/users.py and api/metrics.py, and the audit log of
-- audit.py, at concrete inputs.
use insightkit.Prelude.{
  ◌≡◌, ◌≤◌, refl, true, false, [], ◌∷◌, ◌++◌, Text, text, text_mem, lower, strip, lstrip_by,
  rstrip_by, none, some, Option, arith,
}
use insightkit.Prelude.Dict
use insightkit.Prelude.Result.{ok}
use insightkit.Access.Limiter.{RateLimiter, new_limiter, allow, hits_of}
use insightkit.Access.Limiter.Window.{
  Run, start, allowed, denied, times_of, recent, allow_within_limit,
}
use insightkit.Access.Users.{
  UserRow, User, roles, generate_api_key, create, insert_user, verify, find_row, delete,
}
use insightkit.Access.Keys.{create-verify-delete}
use insightkit.Access.Auth.{
  Claims, require_role, get_auth, check_role, identify, by_token, by_key, bearer_token,
  complete_user, within_rate, admit, role_sufficient, role_level,
}
use insightkit.Access.Gate.{IsKnown, require_role-IsKnown}
use insightkit.Access.Metrics.{Metrics, new_metrics, IsConsistent}
use insightkit.Audit.{AuditRow, ok_status}

program : Unit {0}
unfolding allow hits_of Dict.get Dict.put create insert_user verify find_row delete generate_api_key
    require_role get_auth check_role identify by_token by_key bearer_token complete_user within_rate
    admit role_sufficient role_level lower strip lstrip_by rstrip_by
program = tt

abbrev one_per_minute : RateLimiter
one_per_minute = new_limiter 1

abbrev after_first : RateLimiter
after_first = (allow 5 (text "ana") one_per_minute).1

first_passes : (allow 5 (text "ana") one_per_minute).0 ≡ true
unfolding program
first_passes = refl

second_fails : (allow 7 (text "ana") after_first).0 ≡ false
unfolding program
second_fails = refl

two_requests : Run 1 (allow 7 (text "ana") after_first).1 ((text "ana", 5) ∷ []) 7
two_requests =
    denied after_first ((text "ana", 5) ∷ []) 5 7 (text "ana")
      (allowed one_per_minute [] 0 5 (text "ana") start (omega arith) first_passes) (omega arith)
      second_fails

allow_within_limit_example : recent 7 (times_of (text "ana") ((text "ana", 5) ∷ [])) ≤ 1
allow_within_limit_example =
    allow_within_limit 1 (allow 7 (text "ana") after_first).1 ((text "ana", 5) ∷ []) 7 two_requests
      (text "ana")

-- A stand-in for the hash.
abbrev hash : Text → Text
hash t = text "#" ++ t

abbrev no_tokens : Text → Option Claims
no_tokens t = none

abbrev bob_row : UserRow
bob_row = record {
  username = text "bob";
  role = text "viewer";
  api_key_hash = text "#ik_0";
  created_at = text "2026";
}

abbrev ana_row : UserRow
ana_row = record {
  username = text "ana";
  role = text "analyst";
  api_key_hash = text "#ik_1";
  created_at = text "2027";
}

abbrev ana : User
ana = record { username = text "ana"; role = text "analyst" }

ana_created :
    create hash (text "1") (text "2027") (text "ana") (text "analyst") (bob_row ∷ [])
    ≡ (ok (text "ik_1"), bob_row ∷ ana_row ∷ [])
unfolding program
ana_created = refl

create-verify-delete_example :
    (text_mem (text "analyst") roles ≡ true)
    × (verify hash true (text "ik_1") (bob_row ∷ ana_row ∷ []) ≡ some ana)
    × (verify hash true (text "ik_1") (delete (text "ana") (bob_row ∷ ana_row ∷ [])).1 ≡ none)
create-verify-delete_example =
    create-verify-delete hash (text "1") (text "2027") (text "ana") (text "analyst") (bob_row ∷ [])
      (text "ik_1") (bob_row ∷ ana_row ∷ []) ana_created refl

ana_passes :
    require_role no_tokens hash true
      (bob_row ∷ ana_row ∷ [])
      (text "viewer")
      []
      (text "ik_1")
      5
      one_per_minute
    ≡ (ok ana, after_first)
unfolding program
ana_passes = refl

require_role-IsKnown_example :
    IsKnown no_tokens hash true (bob_row ∷ ana_row ∷ []) [] (text "ik_1") ana
    × (allow 5 ana.username one_per_minute ≡ (true, after_first))
    × (role_level (text "viewer") 99 ≤ role_level ana.role 0)
require_role-IsKnown_example =
    require_role-IsKnown no_tokens hash true (bob_row ∷ ana_row ∷ []) (text "viewer") []
      (text "ik_1") 5 one_per_minute after_first ana ana_passes

abbrev fresh : Metrics
fresh = new_metrics 500

fresh-IsConsistent : IsConsistent fresh
fresh-IsConsistent = record { split = refl; failed = omega arith; bounded = omega arith }

abbrev audit_row : Text → Text → AuditRow
audit_row user ts = record {
  ts = ts;
  user = user;
  role = text "viewer";
  question = text "q";
  sql = none;
  result_summary = none;
  latency_ms = 1;
  tokens = 2;
  model = text "m";
  status = ok_status;
  error = none;
}
