-- ===== src/Executor/Errors.antt =====
-- Which errors of the driver in db/executor.py ask for a new schema, and how large a frame is.
use insightkit.Prelude.{
  ℕ, ◌≤◌, ◌<◌, true, false, Option, List, [], ◌∷◌, map, ◌≡◌, refl, ◌↔◌, inl, inr, Text, is_empty,
  length, length-take, take, ◌==◌, Bool-cases, arith,
}
use mathlib.Core.Path.{subst}
use insightkit.Pipeline.Types.{Cell, Frame, frame, table_not_found}
use insightkit.Executor.{
  Driver, result, timed_out, sql_error, other_error, is_missing_table, statement_timeout_sql,
  cleaned, put_cells, fetched, outcome_of, execute_query,
}

module _ (numeric : List Text → List (List (Text × Cell)) → List Text) (seconds : ℕ → Text) where
  outcome_missing :
      (timeout_ms : ℕ) (d : Driver) (e : Text)
      → (outcome_of numeric seconds timeout_ms d ≡ table_not_found e)
        ↔ ((d ≡ sql_error e) × (is_missing_table e ≡ true))
  unfolding outcome_of
  outcome_missing timeout_ms (result cs rows) e = (λ h. absurd (cc), λ h. absurd (cc (h.0)))
  outcome_missing timeout_ms timed_out e = (λ h. absurd (cc), λ h. absurd (cc (h.0)))
  outcome_missing timeout_ms (other_error x) e = (λ h. absurd (cc), λ h. absurd (cc (h.0)))
  outcome_missing timeout_ms (sql_error x) e = elim (Bool-cases (is_missing_table x)) [
    | inl missing ↦ (
      λ h. let same : x ≡ e = cc (rw missing at h) in (cc, rw (← same) missing),
      λ h. rw missing (cc (h.0)),
    )
    | inr other ↦ (
      λ h. absurd (cc (rw other at h)),
      λ h. let same : x ≡ e = cc (h.0) in absurd (cc (h.1, other, same)),
    )
  ]

  -- A query ends in the error for a missing table exactly when it is not blank, its timeout is
  -- positive, and the driver raised an SQL error whose text holds one of the hints.
  execute_query_missing_iff :
      (driver : Option Text → Text → Driver) (scheme sql : Text) (timeout_ms : ℕ) (e : Text)
      → (execute_query numeric seconds driver scheme sql timeout_ms ≡ table_not_found e) ↔ (
          (is_empty (cleaned sql) ≡ false)
          × (0 < timeout_ms)
          × (driver (statement_timeout_sql scheme timeout_ms) (cleaned sql) ≡ sql_error e)
          × (is_missing_table e ≡ true))
  unfolding execute_query
  execute_query_missing_iff driver scheme sql timeout_ms e =
      elim (Bool-cases (is_empty (cleaned sql))) [
        | inl blank ↦ rw blank (λ h. absurd (cc), λ h. absurd (cc (h.0)))
        | inr given ↦ elim (Bool-cases (timeout_ms == 0)) [
          | inl none' ↦ rw (given, none') (λ h. absurd (cc), λ h. absurd (ground arith))
          | inr some' ↦
              let i =
                outcome_missing timeout_ms
                  (driver (statement_timeout_sql scheme timeout_ms) (cleaned sql)) e in
              rw (given, some')
                (
                  λ h. let (raised, hinted) = i.0 h in (refl, ground arith, raised, hinted),
                  λ (_, _, raised, hinted). i.1 (raised, hinted),
                )
        ]
      ]

  length-map : {A B : Type 0} (f : A → B) (xs : List A) → length (map f xs) ≡ length xs
  length-map f [] = refl
  length-map f (x ∷ xs) = omega (arith, length-map f xs)

  fetched-rows :
      (columns : List Text) (rows : List (List Cell))
      → length (fetched numeric seconds columns rows).rows ≤ 10_000
  unfolding fetched
  fetched-rows [] rows = omega arith
  fetched-rows (c ∷ cs) [] = omega arith
  fetched-rows (c ∷ cs) (row ∷ more) = omega (
    arith,
    length-take 10_000 (row ∷ more),
    length-map (λ r. put_cells (c ∷ cs) r []) (take 10_000 (row ∷ more)),
  )

  outcome_rows :
      (timeout_ms : ℕ) (d : Driver) (df : Frame)
      → outcome_of numeric seconds timeout_ms d ≡ frame df
      → length df.rows ≤ 10_000
  unfolding outcome_of
  outcome_rows timeout_ms (result cs rows) df h =
      let same : fetched numeric seconds cs rows ≡ df = cc in
      subst (λ x. length x.rows ≤ 10_000) same (fetched-rows cs rows)
  outcome_rows timeout_ms timed_out df h = absurd (cc)
  outcome_rows timeout_ms (other_error x) df h = absurd (cc)
  outcome_rows timeout_ms (sql_error x) df h = elim (Bool-cases (is_missing_table x)) [
    | inl missing ↦ absurd (cc (rw missing at h))
    | inr other ↦ absurd (cc (rw other at h))
  ]

  -- Whatever the driver returns, a query that ends in a frame was not blank, and the frame has at
  -- most ten thousand rows.
  pub execute_query_rows :
      (driver : Option Text → Text → Driver) (scheme sql : Text) (timeout_ms : ℕ) (df : Frame)
      → execute_query numeric seconds driver scheme sql timeout_ms ≡ frame df
      → (is_empty (cleaned sql) ≡ false) × (length df.rows ≤ 10_000)
  unfolding execute_query
  execute_query_rows driver scheme sql timeout_ms df h =
      elim (Bool-cases (is_empty (cleaned sql))) [
        | inl blank ↦ absurd (cc (rw blank at h))
        | inr given ↦ elim (Bool-cases (timeout_ms == 0)) [
          | inl none' ↦ absurd (cc (rw (given, none') at h))
          | inr some' ↦ (given, outcome_rows timeout_ms _ df (rw (given, some') at h))
        ]
      ]
