-- ===== src/Llm/Client.antt =====
-- llm/client.py: `complete`, one completion with retries. The API call is a parameter: a function
-- of the request and of the outside world.
use insightkit.Prelude.{
  ℕ, zero, suc, ◌+◌, ◌^◌, Bool, true, false, Option, none, some, List, [], ◌∷◌, ◌++◌, Text, ltb,
  if◌then◌else◌,
}
use insightkit.Prelude.Result.{Result, ok, err}

-- What the OpenAI client raises. A rate limit is an `APIStatusError` of status 429, and the last
-- case is any other exception.
pub data ApiError : Type 0 where
  timed_out no_connection : ApiError
  api_status : ℕ → ApiError
  other_exception : Text → ApiError

pub data LlmError : Type 0 where
  -- "LLM request failed: …"
  request_failed : ApiError → LlmError
  -- "LLM request failed after retries: …"
  retries_exhausted : Option ApiError → LlmError

-- The errors after which the loop goes on: not a status below 500, nor another exception.
abbrev pub is_retryable : ApiError → Bool
is_retryable timed_out = true
is_retryable no_connection = true
is_retryable (api_status code) = if ltb code 500 then false else true
is_retryable (other_exception e) = false

-- The outside world with a count of the calls made and the pauses taken, in half seconds.
pub record Line {ℓ} (W : Type ℓ) : Type ℓ where
  pub world : W
  pub calls : ℕ
  pub sleeps : List ℕ

module _ {ℓ} {W : Type ℓ} where
  abbrev pub called : Line W → W → Line W
  called l w = record l { world = w; calls = l.calls + 1 }

  -- `asyncio.sleep(2**attempt * 0.5)`, if an attempt is left
  abbrev pub paused : ℕ → ℕ → Line W → Line W
  paused zero attempt l = l
  paused (suc left) attempt l = record l { sleeps = l.sleeps ++ (2 ^ attempt) ∷ [] }

  -- The `try` of one attempt; `retry` is the rest of the loop.
  abbrev pub after_call :
      (ApiError → Line W → Result LlmError Text × Line W)
      → Line W
      → Result ApiError Text × W
      → Result LlmError Text × Line W
  after_call retry l (ok content, w) = (ok content, called l w)
  after_call retry l (err e, w) =
      if is_retryable e then retry e (called l w) else (err (request_failed e), called l w)

module _ {ℓ} {W : Type ℓ} (create : W → Result ApiError Text × W) where
  -- The loop over the attempts that are left.
  unfoldable pub complete_loop : ℕ → ℕ → Option ApiError → Line W → Result LlmError Text × Line W
  complete_loop zero attempt last_err l = (err (retries_exhausted last_err), l)
  complete_loop (suc left) attempt last_err l =
      after_call (λ e l'. complete_loop left (attempt + 1) (some e) (paused left attempt l')) l
        (create l.world)

  unfoldable pub complete : ℕ → Line W → Result LlmError Text × Line W
  complete max_retries l = complete_loop (suc max_retries) 0 none l
