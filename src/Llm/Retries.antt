-- ===== src/Llm/Retries.antt =====
-- `complete` of llm/client.py: when it succeeds, and how often it calls.
use insightkit.Prelude.{
  ℕ, zero, suc, ◌+◌, ◌≤◌, ◌<◌, true, false, Option, none, some, ◌≡◌, refl, ◌↔◌, ◌∙◌, ap, inl, inr,
  Text, arith, Bool-cases,
}
use insightkit.Prelude.Result.{Result, ok, err}
use insightkit.Llm.Client.{
  ApiError, api_status, LlmError, request_failed, is_retryable, Line, called, paused, after_call,
  complete_loop, complete,
}

module _ {ℓ} {W : Type ℓ} where
  calls-paused : (left attempt : ℕ) (l : Line W) → (paused left attempt l).calls ≡ l.calls
  calls-paused zero attempt l = refl
  calls-paused (suc left) attempt l = refl

  world-paused : (left attempt : ℕ) (l : Line W) → (paused left attempt l).world ≡ l.world
  world-paused zero attempt l = refl
  world-paused (suc left) attempt l = refl

  after_call_calls :
      (retry : ApiError → Line W → Result LlmError Text × Line W) (l : Line W)
      (r : Result ApiError Text × W) (n : ℕ)
      → ((e : ApiError) (l' : Line W) → (retry e l').1.calls ≤ l'.calls + n)
      → (after_call retry l r).1.calls ≤ l.calls + suc n
  after_call_calls retry l (ok c, w) n h = omega arith
  after_call_calls retry l (err e, w) n h = elim (Bool-cases (is_retryable e)) [
    | inl again ↦ rw again (omega (arith, h e (called l w)))
    | inr hard ↦ rw hard (omega arith)
  ]

module _ {ℓ} {W : Type ℓ} (create : W → Result ApiError Text × W) where
  -- From the world `w`, `k` calls fail in a way that may be retried, and the next returns `content`.
  abbrev pub Answers : ℕ → W → Text → Type ℓ
  Answers zero w content = (w' : W) × (create w ≡ (ok content, w'))
  Answers (suc k) w content =
      (e : ApiError) × (w' : W) × (create w ≡ (err e, w'))
      × (is_retryable e ≡ true)
      × Answers k w' content

  loop_calls :
      (left attempt : ℕ) (last : Option ApiError) (l : Line W)
      → (complete_loop create left attempt last l).1.calls ≤ l.calls + left
  unfolding complete_loop
  loop_calls zero attempt last l = omega arith
  loop_calls (suc left) attempt last l =
      after_call_calls
        (λ e l'. complete_loop create left (attempt + 1) (some e) (paused left attempt l')) l
        (create l.world) left
        (λ e l'. omega (
          arith,
          loop_calls left (attempt + 1) (some e) (paused left attempt l'),
          calls-paused left attempt l',
        ))

  -- A completion makes at most one call more than the configured number of retries.
  pub complete_calls :
      (max_retries : ℕ) (l : Line W)
      → (complete create max_retries l).1.calls ≤ l.calls + (max_retries + 1)
  unfolding complete
  complete_calls max_retries l = omega (arith, loop_calls (suc max_retries) 0 none l)

  loop-Answers :
      (left k attempt : ℕ) (last : Option ApiError) (l : Line W) (content : Text)
      → k < left
      → Answers k l.world content
      → ((complete_loop create left attempt last l).0 ≡ ok content)
        × ((complete_loop create left attempt last l).1.calls ≡ l.calls + suc k)
  unfolding complete_loop
  loop-Answers zero k attempt last l content h a = absurd (omega arith)
  loop-Answers (suc left) zero attempt last l content h (w', e) = rw e (refl, omega arith)
  loop-Answers (suc left) (suc k) attempt last l content h (x, w', e, again, a) =
      let l' = paused left attempt (called l w') in
      let (done', counted) =
        loop-Answers left k (attempt + 1) (some x) l' content (omega arith)
          (rw (world-paused left attempt (called l w')) a) in
      rw (e, again) (done', omega (arith, counted, calls-paused left attempt (called l w')))

  loop_succeeds :
      (left attempt : ℕ) (last : Option ApiError) (l : Line W) (content : Text)
      → (complete_loop create left attempt last l).0 ≡ ok content
      → (k : ℕ) × (k < left) × Answers k l.world content
  unfolding complete_loop
  loop_succeeds zero attempt last l content h = absurd (cc)
  loop_succeeds (suc left) attempt last l content h =
      succeeds_at (create l.world) refl h (λ e w.
        loop_succeeds left (attempt + 1) (some e) (paused left attempt (called l w)) content)
    where
      retry : ApiError → Line W → Result LlmError Text × Line W
      retry e l' = complete_loop create left (attempt + 1) (some e) (paused left attempt l')

      succeeds_at :
          (r : Result ApiError Text × W)
          → create l.world ≡ r
          → (after_call retry l r).0 ≡ ok content
          → ((e : ApiError) (w : W)
              → (retry e (called l w)).0 ≡ ok content
              → (k : ℕ) × (k < left) × Answers k (paused left attempt (called l w)).world content)
          → (k : ℕ) × (k < suc left) × Answers k l.world content
      succeeds_at (ok c, w) q h' ih =
          (0, omega arith, (w, let same : c ≡ content = cc in q ∙ ap (λ x. (ok x, w)) same))
      succeeds_at (err e, w) q h' ih = elim (Bool-cases (is_retryable e)) [
        | inr hard ↦ absurd (cc (rw hard at h'))
        | inl again ↦
            let (k, small, a) = ih e w (rw again at h') in
            (suc k, omega arith, (e, w, q, again, rw world-paused at a))
      ]

  -- A completion returns a text exactly when, within the retries that are allowed, some number of
  -- calls fails in a way that may be retried and the next call returns that text.
  pub complete_succeeds_iff :
      (max_retries : ℕ) (l : Line W) (content : Text)
      → ((complete create max_retries l).0 ≡ ok content)
        ↔ ((k : ℕ) × (k ≤ max_retries) × Answers k l.world content)
  unfolding complete
  complete_succeeds_iff max_retries l content = (
    λ h.
        let (k, small, a) = loop_succeeds (suc max_retries) 0 none l content h in
        (k, omega arith, a),
    λ (k, small, a). (loop-Answers (suc max_retries) k 0 none l content (omega arith) a).0,
  )

  -- A status below 500, which takes in the 429 of a rate limit, ends the completion after one
  -- call: there is no retry and no pause.
  complete_client_error :
      (max_retries : ℕ) (l : Line W) (code : ℕ) (w : W)
      → create l.world ≡ (err (api_status code), w)
      → code < 500
      → complete create max_retries l ≡ (err (request_failed (api_status code)), called l w)
  unfolding complete complete_loop
  complete_client_error max_retries l code w e h =
      let hard : is_retryable (api_status code) ≡ false = ground arith in rw (e, hard)
