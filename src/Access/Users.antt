-- ===== src/Access/Users.antt =====
-- `UserStore` of security/users.py: the table of users and their hashed API keys.
use insightkit.Prelude.{
  Bool, not, Option, none, some, List, [], ◌∷◌, ◌++◌, Text, text, text_eq, text_mem, any, keep,
  if◌then◌else◌, map,
}
use insightkit.Prelude.Result.{Result, ok, err}

-- A row of `users`; the rows stand in the order of their ids.
pub record UserRow : Type 0 where
  pub username : Text
  pub role : Text
  pub api_key_hash : Text
  pub created_at : Text

pub record User : Type 0 where
  pub username : Text
  pub role : Text

pub data UserError : Type 0 where
  invalid_role : Text → UserError
  -- the `UNIQUE` of the column
  username_taken : UserError

abbrev pub roles : List Text
roles = text "admin" ∷ text "analyst" ∷ text "viewer" ∷ []

-- `f"ik_{secrets.token_urlsafe(32)}"`, from the token
unfoldable pub generate_api_key : Text → Text
generate_api_key token = text "ik_" ++ token

abbrev pub user_of : UserRow → User
user_of r = record { username = r.username; role = r.role }

-- The first row of which the test holds.
unfoldable pub find_row : (UserRow → Bool) → List UserRow → Option UserRow
find_row p [] = none
find_row p (r ∷ rows) = let rest = find_row p rows in if p r then some r else rest

abbrev pub user_of_row : Option UserRow → Option User
user_of_row none = none
user_of_row (some r) = some (user_of r)

module _ (sha256 : Text → Text) where
  abbrev pub has_key : Text → UserRow → Bool
  has_key key r = text_eq r.api_key_hash (sha256 key)

  -- `INSERT INTO users …`
  unfoldable pub insert_user : UserRow → Text → List UserRow → Result UserError Text × List UserRow
  insert_user row key rows =
      if any (λ r. text_eq r.username row.username) rows
      then (err username_taken, rows)
      else (ok key, rows ++ row ∷ [])

  -- `create`, with the random token and the time that it draws
  unfoldable pub create :
      Text → Text → Text → Text → List UserRow → Result UserError Text × List UserRow
  create token now username role rows =
      if text_mem role roles
      then insert_user
          (record {
            username = username;
            role = role;
            api_key_hash = sha256 (generate_api_key token);
            created_at = now;
          })
          (generate_api_key token) rows
      else (err (invalid_role role), rows)

  -- `verify`; a database that cannot be read knows no key.
  unfoldable pub verify : Bool → Text → List UserRow → Option User
  verify readable key rows = if readable then user_of_row (find_row (has_key key) rows) else none

-- `delete`: whether a row went, and the rows that stay
unfoldable pub delete : Text → List UserRow → Bool × List UserRow
delete username rows = (
  any (λ r. text_eq r.username username) rows,
  keep (λ r. not (text_eq r.username username)) rows,
)

-- `list_users`
unfoldable pub list_users : List UserRow → List (Text × Text × Text)
list_users rows = map (λ r. (r.username, r.role, r.created_at)) rows
