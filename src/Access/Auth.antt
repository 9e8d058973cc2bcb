-- ===== src/Access/Auth.antt =====
-- The dependencies of api/auth.py. The JWT library is a parameter: it decodes a token that is
-- valid, signed with the secret and not expired.
use insightkit.Prelude.{
  ℕ, Bool, true, false, ◌||◌, Option, none, some, List, [], Text, text, text_eq, leb, if◌then◌else◌,
  is_empty, lower, starts_with, strip, drop,
}
use insightkit.Prelude.Result.{Result, ok, err}
use insightkit.Access.Limiter.{RateLimiter, allow}
use insightkit.Access.Users.{UserRow, User, verify}

-- The claims that are read, where the token has them.
pub record Claims : Type 0 where
  pub sub : Option Text
  pub role : Option Text

-- The HTTP exceptions, of status 401, 429 and 403, and 422 for a request that is not valid.
pub data HttpError : Type 0 where
  unauthorized too_many_requests forbidden unprocessable : HttpError

-- `ROLE_LEVEL.get(role, default)`
unfoldable pub role_level : Text → ℕ → ℕ
role_level role default =
    if text_eq role (text "viewer")
    then 1
    else if text_eq role (text "analyst")
    then 2
    else if text_eq role (text "admin")
    then 3
    else default

-- `_role_sufficient`
unfoldable pub role_sufficient : Text → Text → Bool
role_sufficient user_role required = leb (role_level required 99) (role_level user_role 0)

abbrev pub or_blank : Option Text → Text
or_blank none = []
or_blank (some t) = t

-- The token of a `Bearer` header.
unfoldable pub bearer_token : Text → Option Text
bearer_token authorization =
    if starts_with (lower authorization) (text "bearer ")
    then some (strip (drop 7 authorization))
    else none

-- `if not username or not role`
unfoldable pub complete_user : Text → Text → Option User
complete_user username role =
    if is_empty username || is_empty role
    then none
    else some (record { username = username; role = role })

abbrev pub checked_user : Option User → Option User
checked_user none = none
checked_user (some u) = complete_user u.username u.role

abbrev pub of_claims : Option Claims → Option User
of_claims none = none
of_claims (some claims) = complete_user (or_blank claims.sub) (or_blank claims.role)

module _ (decode : Text → Option Claims) (sha256 : Text → Text) (readable : Bool)
    (users : List UserRow) where
  -- `elif x_api_key`
  unfoldable pub by_key : Text → Option User
  by_key key = if is_empty key then none else checked_user (verify sha256 readable key users)

  -- Who the headers name: a bearer token, if there is one, settles it.
  unfoldable pub by_token : Text → Option Text → Option User
  by_token key none = by_key key
  by_token key (some token) = of_claims (decode token)

  unfoldable pub identify : Text → Text → Option User
  identify authorization key = by_token key (bearer_token authorization)

  unfoldable pub within_rate : User → Bool × RateLimiter → Result HttpError User × RateLimiter
  within_rate u (true, l) = (ok u, l)
  within_rate u (false, l) = (err too_many_requests, l)

  unfoldable pub admit : ℕ → RateLimiter → Option User → Result HttpError User × RateLimiter
  admit now l none = (err unauthorized, l)
  admit now l (some u) = within_rate u (allow now u.username l)

  -- `get_auth`; a header that is missing is the empty text.
  unfoldable pub get_auth : Text → Text → ℕ → RateLimiter → Result HttpError User × RateLimiter
  get_auth authorization key now l = admit now l (identify authorization key)

  unfoldable pub check_role : Text → Result HttpError User → Result HttpError User
  check_role required (err e) = err e
  check_role required (ok u) = if role_sufficient u.role required then ok u else err forbidden

  -- `dep`, on what `get_auth` gave
  abbrev pub dep : Text → Result HttpError User × RateLimiter → Result HttpError User × RateLimiter
  dep required (r, l) = (check_role required r, l)

  -- `require_role(required)`, with the `get_auth` that it depends on
  unfoldable pub require_role :
      Text → Text → Text → ℕ → RateLimiter → Result HttpError User × RateLimiter
  require_role required authorization key now l = dep required (get_auth authorization key now l)
