-- ===== src/Api/Stream/Progress.antt =====
-- That the event stream ends, whatever the order of its moves.
use insightkit.Prelude.{ℕ, zero, suc, ◌+◌, ◌*◌, ◌<◌, Bool, true, false, ◌≡◌, ◌≢◌, length}
use insightkit.Access.Metrics.{Metrics}
use insightkit.Pipeline.Types.{Event}
use insightkit.Api.Stream.{Stream, Step, Reach}

abbrev pub count : Bool → ℕ
count true = 1
count false = 0

-- What is left to do. An event costs a move of the task and one of the generator.
unfoldable pub work : Stream → ℕ
work s = 2 * length s.left + length s.queue + count s.running + count s.active

-- A schedule from `s` to `t`, with `n` moves that change the state; the others are waits that
-- time out with nothing to do.
pub data Run (writable : Event → Bool) (s : Stream) : ℕ → Stream → Type 0 where
  begin : Run writable s zero s
  advance :
      {n : ℕ} {t u : Stream}
      → Run writable s n t
      → Step writable t u
      → t ≢ u
      → Run writable s (suc n) u
  idle :
      {n : ℕ} {t u : Stream} → Run writable s n t → Step writable t u → t ≡ u → Run writable s n u

module _ (writable : Event → Bool) where
  -- The task or the generator has a move that brings the end nearer.
  record Ahead (s : Stream) : Type 0 where
    after : Stream
    step : Step writable s after
    nearer : work after < work s
    same_client : after.gone ≡ s.gone

  -- A request that `s` comes to without the client: the generator has ended.
  pub record Ends (first s : Stream) : Type 0 where
    pub last : Stream
    pub reach : Reach writable first last
    pub ended : last.active ≡ false
    pub same_client : last.gone ≡ s.gone
