-- ===== src/Access/Limiter/Window.antt =====
-- What the rate limiter of api/auth.py promises over a run.
use insightkit.Prelude.{
  ℕ, ◌+◌, ◌≤◌, true, false, List, [], ◌∷◌, ◌++◌, ◌≡◌, refl, ap, ◌∙◌, sym, Text, text_eq,
  text_eq_iff, leb, keep, length, length-keep-le, if◌then◌else◌, Bool-cases, inl, inr, arith,
}
use insightkit.Prelude.Dict.{get, get-put}
use insightkit.Access.Limiter.{RateLimiter, new_limiter, hits_of, is_recent, with_hits, allow}

-- A run of the limiter: the state, the requests that were allowed, and the clock.
pub data Run (limit : ℕ) : RateLimiter → List (Text × ℕ) → ℕ → Type 0 where
  start : Run limit (new_limiter limit) [] 0
  allowed :
      (l : RateLimiter) (granted : List (Text × ℕ)) (t now : ℕ) (user : Text)
      → Run limit l granted t
      → t ≤ now
      → (allow now user l).0 ≡ true
      → Run limit (allow now user l).1 ((user, now) ∷ granted) now
  denied :
      (l : RateLimiter) (granted : List (Text × ℕ)) (t now : ℕ) (user : Text)
      → Run limit l granted t
      → t ≤ now
      → (allow now user l).0 ≡ false
      → Run limit (allow now user l).1 granted now

-- The times at which the user was let through.
abbrev pub times_of : Text → List (Text × ℕ) → List ℕ
times_of user [] = []
times_of user ((u, t) ∷ g) = let rest = times_of user g in if text_eq u user then t ∷ rest else rest

abbrev pub recent : ℕ → List ℕ → ℕ
recent now hs = length (keep (is_recent now) hs)

recent-append : (now : ℕ) (xs ys : List ℕ) → recent now (xs ++ ys) ≡ recent now xs + recent now ys
recent-append now [] ys = omega arith
recent-append now (x ∷ xs) ys = ground (arith, recent-append now xs ys)

recent-cons : (now h : ℕ) (hs : List ℕ) → recent now (h ∷ hs) ≡ recent now hs + recent now (h ∷ [])
recent-cons now h hs = ground arith

-- What was dropped earlier would be dropped now.
recent-keep :
    (t now : ℕ) (xs : List ℕ) → t ≤ now → recent now (keep (is_recent t) xs) ≡ recent now xs
recent-keep t now [] h = refl
recent-keep t now (x ∷ xs) h = ground (arith, recent-keep t now xs h)

hits_of-with_hits :
    (l : RateLimiter) (user other : Text) (hs : List ℕ)
    → hits_of other (with_hits l user hs) ≡ (if text_eq user other then hs else hits_of other l)
unfolding hits_of
hits_of-with_hits l user other hs =
    rw get-put
      (elim (Bool-cases (text_eq user other)) [ inl same ↦ rw same | inr differs ↦ rw differs ])

-- From the clock on, the hits that are kept count what was allowed, and stay within the limit.
record Tracks (limit : ℕ) (l : RateLimiter) (granted : List (Text × ℕ)) (t : ℕ) : Type 0 where
  same_limit : l.limit ≡ limit
  counted :
      (user : Text) (now : ℕ)
      → t ≤ now
      → recent now (times_of user granted) ≡ recent now (hits_of user l)
  within : (user : Text) (now : ℕ) → t ≤ now → recent now (hits_of user l) ≤ limit

module _ (limit t now : ℕ) (l : RateLimiter) (granted : List (Text × ℕ)) (user : Text)
    (i : Tracks limit l granted t) (later : t ≤ now) where
  abbrev kept : List ℕ
  kept = keep (is_recent now) (hits_of user l)

  recent-kept : (then' : ℕ) → now ≤ then' → recent then' kept ≡ recent then' (hits_of user l)
  recent-kept then' h = recent-keep now then' (hits_of user l) h

  counted-kept :
      (u : Text) (n : ℕ)
      → now ≤ n
      → text_eq user u ≡ true
      → recent n (times_of u granted) ≡ recent n kept
  counted-kept u n h same =
      ap (λ x. recent n (times_of x granted)) (sym ((text_eq_iff user u).0 same))
      ∙ (i.counted user n (omega arith) ∙ sym (recent-kept n h))

  denied-Tracks :
      leb l.limit (length kept) ≡ true → Tracks limit (with_hits l user kept) granted now
  denied-Tracks full = record {
    same_limit = i.same_limit;
    counted = λ u n h. rw hits_of-with_hits (elim (Bool-cases (text_eq user u)) [
      | inl same ↦ rw same (counted-kept u n h same)
      | inr differs ↦ rw differs (i.counted u n (omega arith))
    ]);
    within = λ u n h. rw hits_of-with_hits (elim (Bool-cases (text_eq user u)) [
      | inl same ↦ rw same (omega (arith, recent-kept n h, i.within user n (omega arith)))
      | inr differs ↦ rw differs (i.within u n (omega arith))
    ]);
  }

  allowed-Tracks :
      leb l.limit (length kept) ≡ false
      → Tracks limit (with_hits l user (kept ++ now ∷ [])) ((user, now) ∷ granted) now
  allowed-Tracks free = record {
    same_limit = i.same_limit;
    counted = λ u n h. rw hits_of-with_hits (elim (Bool-cases (text_eq user u)) [
      | inl same ↦
          rw (same, recent-append)
            (recent-cons n now (times_of u granted)
              ∙ ap (λ k. k + recent n (now ∷ [])) (counted-kept u n h same))
      | inr differs ↦ rw differs (i.counted u n (omega arith))
    ]);
    within = λ u n h. rw hits_of-with_hits (elim (Bool-cases (text_eq user u)) [
      | inl same ↦
          rw (same, recent-append) (ground (arith, i.same_limit, length-keep-le (is_recent n) kept))
      | inr differs ↦ rw differs (i.within u n (omega arith))
    ]);
  }

  allow-Tracks :
      ((allow now user l).0 ≡ true → Tracks limit (allow now user l).1 ((user, now) ∷ granted) now)
      × ((allow now user l).0 ≡ false → Tracks limit (allow now user l).1 granted now)
  unfolding allow
  allow-Tracks = elim (Bool-cases (leb l.limit (length kept))) [
    | inl full ↦ rw full (λ e. absurd (cc), λ e. denied-Tracks full)
    | inr free ↦ rw free (λ e. allowed-Tracks free, λ e. absurd (cc))
  ]

Run-Tracks :
    (limit : ℕ) {l : RateLimiter} {granted : List (Text × ℕ)} {t : ℕ}
    → Run limit l granted t
    → Tracks limit l granted t
unfolding hits_of get
Run-Tracks limit start = record {
  same_limit = refl;
  counted = λ u n h. refl;
  within = λ u n h. omega arith;
}
Run-Tracks limit (allowed l g t now user r h e) =
    (allow-Tracks limit t now l g user (Run-Tracks limit r) h).0 e
Run-Tracks limit (denied l g t now user r h e) =
    (allow-Tracks limit t now l g user (Run-Tracks limit r) h).1 e

-- Whatever requests come, at times that never go back: at each moment of the run, the limiter has
-- let no user through more often than the limit within the last 60 seconds.
pub allow_within_limit :
    (limit : ℕ) (l : RateLimiter) (granted : List (Text × ℕ)) (t : ℕ)
    → Run limit l granted t
    → (user : Text) → recent t (times_of user granted) ≤ limit
allow_within_limit limit l granted t r user =
    let i = Run-Tracks limit r in
    omega (arith, i.counted user t (omega arith), i.within user t (omega arith))
