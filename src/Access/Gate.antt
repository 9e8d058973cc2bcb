-- ===== src/Access/Gate.antt =====
-- Who gets past `require_role` of api/auth.py.
use insightkit.Prelude.{
  ℕ, ◌≤◌, Bool, true, false, Option, none, some, List, [], ◌∷◌, ◌≡◌, refl, ◌∙◌, sym, ap, Text,
  text_eq_iff, is_empty, Bool-cases, inl, inr, ◌⊎◌, arith, leb,
}
use mathlib.Core.Path.{subst}
use insightkit.Prelude.Result.{Result, ok, err}
use insightkit.Access.Limiter.{RateLimiter, allow}
use insightkit.Access.Users.{UserRow, User, user_of, find_row, user_of_row, has_key, verify}
use insightkit.Access.Auth.{
  Claims, HttpError, role_level, role_sufficient, or_blank, bearer_token, complete_user,
  checked_user, of_claims, by_key, by_token, identify, within_rate, admit, get_auth, check_role,
  dep, require_role,
}

abbrev claims_of : Option Text → Option Text → Claims
claims_of sub role = record { sub = sub; role = role }

-- A valid token with these claims, or a stored user with the hash of the key.
abbrev HasToken : (Text → Option Claims) → Text → User → Type 0
HasToken decode authorization u =
    (token : Text) × (bearer_token authorization ≡ some token)
    × (decode token ≡ some (claims_of (some u.username) (some u.role)))

pub data IsStored (hash : Text) (u : User) : List UserRow → Type 0 where
  here :
      (r : UserRow) (rows : List UserRow)
      → r.api_key_hash ≡ hash
      → user_of r ≡ u
      → IsStored hash u (r ∷ rows)
  there : (r : UserRow) (rows : List UserRow) → IsStored hash u rows → IsStored hash u (r ∷ rows)

module _ (decode : Text → Option Claims) (sha256 : Text → Text) (readable : Bool)
    (users : List UserRow) where
  abbrev pub IsKnown : Text → Text → User → Type 0
  IsKnown authorization key u =
      HasToken decode authorization u
      ⊎ ((bearer_token authorization ≡ none) × IsStored (sha256 key) u users)

  stored :
      (key : Text) (rows : List UserRow) (r : UserRow)
      → find_row (has_key sha256 key) rows ≡ some r
      → IsStored (sha256 key) (user_of r) rows
  unfolding find_row
  stored key [] r h = absurd (cc)
  stored key (x ∷ rows) r h = elim (Bool-cases (has_key sha256 key x)) [
    | inl same ↦
        let e : x ≡ r = cc (rw same at h) in here x rows ((text_eq_iff _ _).0 same) (ap user_of e)
    | inr differs ↦ there x rows (stored key rows r (rw differs at h))
  ]

  completed :
      (username role : Text) (u : User)
      → complete_user username role ≡ some u
      → record { username = username; role = role } ≡ u
  unfolding complete_user
  completed [] role u h = absurd (cc)
  completed (c ∷ cs) [] u h = absurd (cc)
  completed (c ∷ cs) (d ∷ ds) u h = cc

  completed_claims :
      (sub role : Option Text) (u : User)
      → complete_user (or_blank sub) (or_blank role) ≡ some u
      → claims_of sub role ≡ claims_of (some u.username) (some u.role)
  unfolding complete_user
  completed_claims none role u h = absurd (cc)
  completed_claims (some []) role u h = absurd (cc)
  completed_claims (some (c ∷ cs)) none u h = absurd (cc)
  completed_claims (some (c ∷ cs)) (some []) u h = absurd (cc)
  completed_claims (some (c ∷ cs)) (some (d ∷ ds)) u h =
      ap (λ v. claims_of (some v.username) (some v.role)) (completed (c ∷ cs) (d ∷ ds) u h)

  from_key :
      (key : Text) (u : User)
      → by_key decode sha256 readable users key ≡ some u
      → IsStored (sha256 key) u users
  unfolding by_key verify
  from_key key u h = elim (Bool-cases (is_empty key)) [
    | inl blank ↦ absurd (cc (rw blank at h))
    | inr given ↦ elim (Bool-cases readable) [
      | inr closed ↦ absurd (cc (rw (given, closed) at h))
      | inl open' ↦ found (find_row (has_key sha256 key) users) refl (rw (given, open') at h)
    ]
  ]
    where
      found :
          (o : Option UserRow)
          → find_row (has_key sha256 key) users ≡ o
          → checked_user (user_of_row o) ≡ some u
          → IsStored (sha256 key) u users
      found none q h' = absurd (cc)
      found (some r) q h' =
          let e : user_of r ≡ u = completed r.username r.role u h' in
          subst (λ v. IsStored (sha256 key) v users) e (stored key users r q)

  from_headers :
      (authorization key : Text) (token : Option Text) (u : User)
      → bearer_token authorization ≡ token
      → by_token decode sha256 readable users key token ≡ some u
      → IsKnown authorization key u
  unfolding by_token
  from_headers authorization key none u q h = inr (q, from_key key u h)
  from_headers authorization key (some token) u q h = claimed (decode token) refl h
    where
      claimed :
          (o : Option Claims)
          → decode token ≡ o
          → of_claims o ≡ some u
          → IsKnown authorization key u
      claimed none p h' = absurd (cc)
      claimed (some claims) p h' =
          inl (token, q, p ∙ ap some (completed_claims claims.sub claims.role u h'))

  admitted :
      (now : ℕ) (l l' : RateLimiter) (o : Option User) (u : User)
      → admit decode sha256 readable users now l o ≡ (ok u, l')
      → (o ≡ some u) × (allow now u.username l ≡ (true, l'))
  unfolding admit within_rate
  admitted now l l' none u h = absurd (cc)
  admitted now l l' (some v) u h = checked (allow now v.username l) refl h
    where
      checked :
          (r : Bool × RateLimiter)
          → allow now v.username l ≡ r
          → within_rate decode sha256 readable users v r ≡ (ok u, l')
          → (some v ≡ some u) × (allow now u.username l ≡ (true, l'))
      checked (true, m) q h' =
          let e : v ≡ u = cc in
          (ap some e, ap (λ w. allow now w.username l) (sym e) ∙ (q ∙ ap (λ k. (true, k)) (cc)))
      checked (false, m) q h' = absurd (cc)

  leb-true : (m n : ℕ) → leb m n ≡ true → m ≤ n
  leb-true m n h = ground arith

  -- Whoever gets past `require_role` is named by a valid bearer token or, where no such token is
  -- sent, is a stored user whose key hash is that of the given key; the rate limiter let the
  -- request through; and the level of the role is at least that of the required one.
  pub require_role-IsKnown :
      (required authorization key : Text) (now : ℕ) (l l' : RateLimiter) (u : User)
      → require_role decode sha256 readable users required authorization key now l ≡ (ok u, l')
      → IsKnown authorization key u
        × (allow now u.username l ≡ (true, l'))
        × (role_level required 99 ≤ role_level u.role 0)
  unfolding require_role get_auth identify check_role role_sufficient
  require_role-IsKnown required authorization key now l l' u h =
      checked (get_auth decode sha256 readable users authorization key now l) refl h
    where
      checked :
          (r : Result HttpError User × RateLimiter)
          → get_auth decode sha256 readable users authorization key now l ≡ r
          → dep decode sha256 readable users required r ≡ (ok u, l')
          → IsKnown authorization key u
            × (allow now u.username l ≡ (true, l'))
            × (role_level required 99 ≤ role_level u.role 0)
      checked (err e, m) q h' = absurd (cc)
      checked (ok v, m) q h' = elim (Bool-cases (role_sufficient v.role required)) [
        | inr low ↦ absurd (cc (rw low at h'))
        | inl high ↦
            let same : v ≡ u = cc (rw high at h') in
            let q' : get_auth decode sha256 readable users authorization key now l ≡ (ok u, l') =
              q ∙ (ap (λ w. (ok w, m)) same ∙ ap (λ k. (ok u, k)) (cc (rw high at h'))) in
            let (who, passed) =
              admitted now l l' (identify decode sha256 readable users authorization key) u q' in
            (
              from_headers authorization key (bearer_token authorization) u refl who,
              passed,
              subst (λ w. role_level required 99 ≤ role_level w.role 0) same
                  (leb-true (role_level required 99) (role_level v.role 0) high),
            )
      ]
