-- ===== src/Api/Routes/CachedAsk.antt =====
-- What the event stream of an answer from the cache leaves in the metrics.
use insightkit.Prelude.{
  Bool, true, false, not, ◌&&◌, some, List, [], ◌∷◌, ◌++◌, ◌≡◌, refl, ◌∙◌, ap, sym, drop-append,
  all-append, Bool-cases, inl, inr,
}
use insightkit.Prelude.Action.{pure, ◌>>=◌}
use insightkit.Schema.{SchemaMetadata}
use insightkit.Access.Metrics.{Metrics}
use insightkit.Pipeline.Types.{Event, Payload, Config, result_of}
use insightkit.Pipeline.Kit.{Kit, State, reading, emit}
use insightkit.Pipeline.Attempts.{Call}
use insightkit.Pipeline.Ask.{answer, answer_cached}
use insightkit.Api.Stream.{Stream, start, is_done, Reach}
use insightkit.Api.Stream.Delivery.{until_done, recorded, no_done, record_done_quiet, stream-Seen}
use insightkit.Api.Routes.{streamed}

no_done_cons :
    (e : Event) (es : List Event)
    → no_done (e ∷ es) ≡ true
    → (is_done e ≡ false) × (no_done es ≡ true)
no_done_cons e es h = elim (Bool-cases (is_done e)) [
  | inl d ↦ absurd (cc (rw d at h))
  | inr n ↦ (n, rw n at h)
]

no_done_prefix : (xs ys : List Event) → no_done (xs ++ ys) ≡ true → no_done xs ≡ true
no_done_prefix xs ys h =
    left_true (no_done xs) (no_done ys) (sym (all-append (λ e. not (is_done e)) xs ys) ∙ h)
  where
    left_true : (a b : Bool) → a && b ≡ true → a ≡ true
    left_true true b h = refl
    left_true false b h = h

recorded_none : (m : Metrics) (es : List Event) → no_done es ≡ true → recorded m es ≡ m
unfolding recorded
recorded_none m [] h = refl
recorded_none m (e ∷ es) h =
    let (quiet, rest) = no_done_cons e es h in
    rw (record_done_quiet e m quiet) (recorded_none m es rest)

streamed-cached :
    (kit : Kit) (cfg : Config) (c : Call) (schema : SchemaMetadata) (p : Payload) (s : State kit)
    → c.streaming ≡ true
    → streamed kit s (answer kit cfg c schema (some p) s).1 ≡ Event.cached p.insight ∷ []
unfolding streamed answer answer_cached reading emit pure ◌>>=◌ result_of
streamed-cached kit cfg c schema p s h = rw h (drop-append s.events (Event.cached p.insight ∷ []))

-- An answer from the cache is not counted: in every order of the moves, its event stream leaves the
-- metrics as they were.
pub cached_ask_unrecorded :
    (kit : Kit) (cfg : Config) (c : Call) (schema : SchemaMetadata) (p : Payload) (s : State kit)
    (writable : Event → Bool) (before : Metrics) (t : Stream)
    → c.streaming ≡ true
    → Reach writable (start (streamed kit s (answer kit cfg c schema (some p) s).1) before) t
    → t.metrics ≡ before
unfolding until_done is_done
cached_ask_unrecorded kit cfg c schema p s writable before t h r =
    let got = stream-Seen writable _ before t r in
    let one : got.seen ++ got.rest ≡ Event.cached p.insight ∷ [] =
      got.prefix ∙ ap until_done (streamed-cached kit cfg c schema p s h) in
    got.counted ∙ recorded_none before got.seen (no_done_prefix got.seen got.rest (ap no_done one))
