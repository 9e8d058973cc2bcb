-- ===== src/Access/Keys.antt =====
-- The life of an API key in security/users.py.
use insightkit.Prelude.{
  Bool, true, false, not, none, some, List, [], ◌∷◌, ◌++◌, ◌≡◌, refl, Text, text_eq, text_eq_refl,
  text_mem, any, keep, Bool-cases, inl, inr, arith,
}
use insightkit.Prelude.Result.{ok}
use insightkit.Access.Users.{
  UserRow, roles, generate_api_key, find_row, has_key, insert_user, create, verify, delete,
}

find_row-snoc :
    (p : UserRow → Bool) (row : UserRow) (rows : List UserRow)
    → any p rows ≡ false
    → p row ≡ true
    → find_row p (rows ++ row ∷ []) ≡ some row
unfolding find_row
find_row-snoc p row [] h e = rw e
find_row-snoc p row (r ∷ rows) h e = ground (arith, find_row-snoc p row rows)

find_row-none :
    (p : UserRow → Bool) (rows : List UserRow) → any p rows ≡ false → find_row p rows ≡ none
unfolding find_row
find_row-none p [] h = refl
find_row-none p (r ∷ rows) h = ground (arith, find_row-none p rows)

-- Taking away rows takes away no negative answer.
any-keep :
    (p q : UserRow → Bool) (rows : List UserRow) → any p rows ≡ false → any p (keep q rows) ≡ false
any-keep p q [] h = refl
any-keep p q (r ∷ rows) h = ground (arith, any-keep p q rows)

-- A row that is appended and does not pass the test goes.
any-keep-snoc :
    (p q : UserRow → Bool) (row : UserRow) (rows : List UserRow)
    → any p rows ≡ false
    → q row ≡ false
    → any p (keep q (rows ++ row ∷ [])) ≡ false
any-keep-snoc p q row [] h e = rw e
any-keep-snoc p q row (r ∷ rows) h e = ground (arith, any-keep-snoc p q row rows)

module _ (sha256 : Text → Text) (token now username role : Text) (rows : List UserRow) where
  abbrev new_row : UserRow
  new_row = record {
    username = username;
    role = role;
    api_key_hash = sha256 (generate_api_key token);
    created_at = now;
  }

  created :
      (key : Text) (rows' : List UserRow)
      → create sha256 token now username role rows ≡ (ok key, rows')
      → (text_mem role roles ≡ true)
        × (key ≡ generate_api_key token)
        × (rows' ≡ rows ++ new_row ∷ [])
  unfolding create insert_user
  created key rows' h = elim (Bool-cases (text_mem role roles)) [
    | inr bad ↦ absurd (cc (rw bad at h))
    | inl good ↦ elim (Bool-cases (any (λ r. text_eq r.username username) rows)) [
      | inl taken ↦ absurd (cc (rw (good, taken) at h))
      | inr free ↦ let h' = rw (good, free) at h in (good, cc, cc)
    ]
  ]

  -- Where `create` returns a key that no older row has the hash of, its role is one of the three,
  -- the key is verified as the new user's, and once that user is deleted it is no longer.
  pub create-verify-delete :
      (key : Text) (rows' : List UserRow)
      → create sha256 token now username role rows ≡ (ok key, rows')
      → any (has_key sha256 key) rows ≡ false
      → (text_mem role roles ≡ true)
        × (verify sha256 true key rows' ≡ some (record { username = username; role = role }))
        × (verify sha256 true key (delete username rows').1 ≡ none)
  unfolding verify delete
  create-verify-delete key rows' h fresh =
      let (good, same, grown) = created key rows' h in
      let known =
        find_row-snoc (has_key sha256 key) new_row rows fresh
          (rw same (text_eq_refl (sha256 (generate_api_key token)))) in
      let gone = find_row-none (has_key sha256 key) _ (
        any-keep-snoc (has_key sha256 key) (λ r. not (text_eq r.username username)) new_row rows
          fresh (rw (text_eq_refl username) refl)) in
      (good, rw (grown, known), rw (grown, gone))
