-- ===== src/Api/Stream.antt =====
-- The event stream of `POST /api/v1/ask` in api/app.py: the task that runs `ask`, the queue that
-- its callback fills, and the generator that empties it. One request is followed; the moves of
-- the task, of the generator and of the client come in any order.
pub mod Delivery
pub mod Progress
use insightkit.Prelude.{
  Bool, true, false, ◌&&◌, not, Option, none, some, List, [], ◌∷◌, ◌++◌, ◌≡◌, if◌then◌else◌,
  is_empty,
}
use insightkit.Audit.{Status, ok_status}
use insightkit.Access.Metrics.{Metrics, record_request}
use insightkit.Pipeline.Types.{Event}

unfoldable pub is_done : Event → Bool
is_done (Event.done _ _ _ _ _ _) = true
is_done e = false

-- `data.get("status") == "ok"`
abbrev pub is_ok : Status → Bool
is_ok ok_status = true
is_ok s = false

-- `metrics.record(…)` for the data of a `done` event
unfoldable pub record_done : Event → Metrics → Metrics
record_done (Event.done outcome latency tokens cached _ _) m =
    record_request latency tokens cached (is_ok outcome) m
record_done e m = m

-- One request: the events that the task has still to send, whether it runs, the queue and the
-- holder of the callback, the frames that were yielded, whether the generator runs, whether
-- the client has gone away, and whether the generator ended in an event that it could not write.
pub record Stream : Type 0 where
  pub left : List Event
  pub running : Bool
  pub queue : List Event
  pub result_holder : Option Event
  pub sent : List Event
  pub metrics : Metrics
  pub active : Bool
  pub gone : Bool
  pub failed : Bool

-- `create_task(kit.ask(…))`, for an `ask` that streams these events.
abbrev pub start : List Event → Metrics → Stream
start script metrics = record {
  left = script;
  running = true;
  queue = [];
  result_holder = none;
  sent = [];
  metrics = metrics;
  active = true;
  gone = false;
  failed = false;
}

-- `cb`
unfoldable pub cb : Event → Stream → Stream
cb e s = record s {
  queue = s.queue ++ e ∷ [];
  result_holder = if is_done e then some e else s.result_holder;
}

-- The generator ends. Its `finally` clause asks a task that still runs to cancel itself; the task may
-- go on, as one does whose cancellation the executor turns into an error of the database.
unfoldable pub stop : Stream → Stream
stop s = record s { active = false }

abbrev pub yielded : Event → Stream → Stream
yielded e s = record s { sent = s.sent ++ e ∷ [] }

-- What the loop does when it has waited for half a second.
unfoldable pub time_out : Stream → Stream
time_out s = if not s.running && is_empty s.queue then stop s else s

-- `writable` says of which events `json.dumps` writes the data, which `_sse` calls.
module _ (writable : Event → Bool) where
  -- What the loop does with an event of the queue. One that cannot be written makes the generator
  -- raise; the metrics of a `done` are recorded before.
  unfoldable pub deliver : Event → Stream → Stream
  deliver e s =
      if not (writable e)
      then stop (record s { metrics = record_done e s.metrics; failed = true })
      else if is_done e
      then stop (yielded e (record s { metrics = record_done e s.metrics }))
      else yielded e s

  -- The task sends an event, or ends, by returning or by raising; the generator takes an event from
  -- the queue, or its wait times out; or the client goes away, which closes the generator. Once the
  -- generator has ended, the task may be cancelled.
  pub data Step : Stream → Stream → Type 0 where
    emit :
        (s : Stream) (e : Event) (es : List Event)
        → s.running ≡ true
        → s.left ≡ e ∷ es
        → Step s (cb e (record s { left = es }))
    finish : (s : Stream) → s.running ≡ true → s.left ≡ [] → Step s (record s { running = false })
    cancel :
        (s : Stream) → s.active ≡ false → s.running ≡ true → Step s (record s { running = false })
    receive :
        (s : Stream) (e : Event) (es : List Event)
        → s.active ≡ true
        → s.queue ≡ e ∷ es
        → Step s (deliver e (record s { queue = es }))
    wait : (s : Stream) → s.active ≡ true → Step s (time_out s)
    leave : (s : Stream) → s.active ≡ true → Step s (stop (record s { gone = true }))

  pub data Reach (s : Stream) : Stream → Type 0 where
    here : Reach s s
    next : {t u : Stream} → Reach s t → Step t u → Reach s u
