-- ===== src/Api/Routes/Tokens.antt =====
-- A key exchanged for a token, and the token sent back.
use insightkit.Prelude.{
  ℕ, ◌≤◌, ◌+◌, ◌*◌, Bool, true, false, not, Bool-cases, and_false, Option, some, List, [], ◌∷◌,
  ◌++◌, ◌≡◌, refl, ◌∙◌, ap, Text, text, all, is_space, is_empty, lower, strip, lstrip_by, rstrip_by,
  arith, inl, inr, Option-cases,
}
use insightkit.Prelude.Result.{ok}
use insightkit.Access.Users.{UserRow, User, verify}
use insightkit.Access.Auth.{Claims, identify, by_token, bearer_token, complete_user}
use insightkit.Api.Routes.{
  token_reply, JwtPayload, TokenReply, create_jwt, token_for, exchange_api_key, minute,
}

abbrev pub no_space : Text → Bool
no_space s = all (λ c. not (is_space c)) s

no_space_cons :
    (c : ℕ) (s : Text) → no_space (c ∷ s) ≡ true → (is_space c ≡ false) × (no_space s ≡ true)
no_space_cons c s h = elim (Bool-cases (is_space c)) [
  | inl sp ↦ absurd (cc (rw sp at h))
  | inr no' ↦ (no', rw no' at h)
]

complete_user-eq :
    (u : User)
    → is_empty u.username ≡ false
    → is_empty u.role ≡ false
    → complete_user u.username u.role ≡ some u
unfolding complete_user
complete_user-eq u n r = rw (n, r) refl

lstrip_by-none : (s : Text) → no_space s ≡ true → lstrip_by is_space s ≡ s
unfolding lstrip_by
lstrip_by-none [] h = refl
lstrip_by-none (c ∷ s) h = ground (arith, lstrip_by-none s)

rstrip_by-none : (s : Text) → no_space s ≡ true → rstrip_by is_space s ≡ s
unfolding rstrip_by
rstrip_by-none [] h = refl
rstrip_by-none (c ∷ s) h =
    let (c', s') = no_space_cons c s h in
    rw (rstrip_by-none s s', c') (rw (and_false (is_empty s)) refl)

strip-none : (s : Text) → no_space s ≡ true → strip s ≡ s
unfolding strip
strip-none s h = rw (lstrip_by-none s h) (rstrip_by-none s h)

bearer_token-read :
    (token : Text) → no_space token ≡ true → bearer_token (text "Bearer " ++ token) ≡ some token
unfolding bearer_token lower
bearer_token-read token h = ap some (strip-none token h)

module _ (encode : JwtPayload → Text) (decode : ℕ → Text → Option Claims) (sha256 : Text → Text)
    (readable : Bool) (users : List UserRow) where
  identify-token :
      (sent : ℕ) (other token : Text) (u : User)
      → is_empty u.username ≡ false
      → is_empty u.role ≡ false
      → no_space token ≡ true
      → decode sent token ≡ some (record { sub = some u.username; role = some u.role })
      → identify (decode sent) sha256 readable users (text "Bearer " ++ token) other ≡ some u
  unfolding identify by_token
  identify-token sent other token u name role plain claims =
      rw (bearer_token-read token plain, claims) (complete_user-eq u name role)

  -- Where a key is exchanged for a token of a user with a name and a role, and the token has no
  -- space, a request that is sent with the token as its bearer token, not before the exchange and at
  -- least a second before the token expires, is one of the user to whom the key belongs, whatever key
  -- it sends. The JWT library is assumed to decode what it encoded in that time.
  pub exchange_api_key-identify :
      (expire_min now sent : ℕ) (key other : Text) (reply : TokenReply)
      → exchange_api_key encode sha256 readable users expire_min now key ≡ ok reply
      → is_empty reply.username ≡ false
      → is_empty reply.role ≡ false
      → no_space reply.token ≡ true
      → now ≤ sent
      → sent + 1_000_000 ≤ now + expire_min * minute
      → ((p : JwtPayload)
          → p.iat ≤ sent
          → sent + 1_000_000 ≤ p.exp
          → decode sent (encode p) ≡ some (record { sub = some p.sub; role = some p.role }))
      → (verify sha256 readable key users
          ≡ some (record { username = reply.username; role = reply.role }))
        × (identify (decode sent) sha256 readable users (text "Bearer " ++ reply.token) other
            ≡ some (record { username = reply.username; role = reply.role }))
  unfolding exchange_api_key token_for create_jwt
  exchange_api_key-identify expire_min now sent key other reply h name role plain issued live law =
      elim (Option-cases (verify sha256 readable key users)) [
        | inl none' ↦ absurd (cc (rw none' at h))
        | inr (u, found) ↦
            let p : token_reply encode expire_min now u ≡ reply = cc (rw found at h) in
            let same : u ≡ record { username = reply.username; role = reply.role } =
              ap (λ r. record { username = r.username; role = r.role }) p in
            (
              found ∙ ap some same,
              identify-token sent other reply.token
                  (record { username = reply.username; role = reply.role }) name role plain
                  (rw⁻¹ p (law _ issued live)),
            )
      ]
