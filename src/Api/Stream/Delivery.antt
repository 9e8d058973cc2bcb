-- ===== src/Api/Stream/Delivery.antt =====
-- What the client of the event stream receives.
use insightkit.Prelude.{
  Bool, true, false, ◌&&◌, not, List, [], ◌∷◌, ◌++◌, ◌≡◌, refl, sym, ◌∙◌, ap, inl, inr, all,
  append-nil, append_assoc, if◌then◌else◌, is_empty, Bool-cases, arith, all-append, and_parts,
  not_parts,
}
use mathlib.Core.Path.{ap₂}
use insightkit.Access.Metrics.{Metrics}
use insightkit.Pipeline.Types.{Event}
use insightkit.Api.Stream.{
  Stream, start, cb, stop, deliver, time_out, is_done, record_done, Step, emit, finish, receive,
  cancel, wait, leave, yielded, Reach, here, next,
}

-- The events up to the first `done`, with it.
unfoldable pub until_done : List Event → List Event
until_done [] = []
until_done (e ∷ es) = let rest = until_done es in if is_done e then e ∷ [] else e ∷ rest

-- The metrics after the `done` events among these.
unfoldable pub recorded : Metrics → List Event → Metrics
recorded m [] = m
recorded m (e ∷ es) = recorded (record_done e m) es

abbrev pub no_done : List Event → Bool
no_done es = all (λ e. not (is_done e)) es

recorded-append :
    (m : Metrics) (xs : List Event) (e : Event)
    → recorded m (xs ++ e ∷ []) ≡ record_done e (recorded m xs)
unfolding recorded
recorded-append m [] e = refl
recorded-append m (x ∷ xs) e = recorded-append (record_done x m) xs e

until_done-append :
    (xs ys : List Event) → no_done xs ≡ true → until_done (xs ++ ys) ≡ xs ++ until_done ys
unfolding until_done
until_done-append [] ys h = refl
until_done-append (x ∷ xs) ys h = ground (arith, until_done-append xs ys)

until_done-cons : (e : Event) (es : List Event) → is_done e ≡ true → until_done (e ∷ es) ≡ e ∷ []
unfolding until_done
until_done-cons e es h = rw h refl

pub record_done_quiet : (e : Event) (m : Metrics) → is_done e ≡ false → record_done e m ≡ m
unfolding record_done is_done
record_done_quiet e m = elim e as (λ x. is_done x ≡ false → record_done x m ≡ m) [
  | Event.done _ _ _ _ _ _ ↦ λ h. absurd (cc)
  | _ ↦ λ h. refl
]

until_done_head :
    (e : Event) (es : List Event) → (rest : List Event) × (until_done (e ∷ es) ≡ e ∷ rest)
unfolding until_done
until_done_head e es = elim (Bool-cases (is_done e)) [
  | inl d ↦ ([], rw d refl)
  | inr n ↦ (until_done es, rw n refl)
]

true_false : true ≡ false → (A : Type 0) → A
true_false h A = absurd (cc)

both_true : (a b : Bool) → not a && b ≡ true → (a ≡ false) × (b ≡ true)
both_true a b h = ground arith

empty-eq : (xs : List Event) → is_empty xs ≡ true → xs ≡ []
empty-eq [] h = refl
empty-eq (x ∷ xs) h = absurd (cc)

-- The state of a request on which `ask` streams `script`.
record Inv (writable : Event → Bool) (script : List Event) (before : Metrics) (s : Stream)
    : Type 0 where
  clean : s.active ≡ true → no_done s.sent ≡ true
  whole : s.active ≡ true → s.sent ++ (s.queue ++ s.left) ≡ script
  drained : s.active ≡ true → s.running ≡ false → s.left ≡ []
  closed : s.active ≡ false → s.gone ≡ false → s.failed ≡ false → s.sent ≡ until_done script
  prefix : s.active ≡ false → (rest : List Event) × (s.sent ++ rest ≡ until_done script)
  counted : s.failed ≡ false → s.metrics ≡ recorded before s.sent
  -- The event that could not be written was counted too.
  broken :
      s.failed ≡ true
      → (e : Event) × (rest : List Event) × (s.sent ++ (e ∷ rest) ≡ until_done script)
        × (s.metrics ≡ recorded before (s.sent ++ e ∷ []))
  alive : s.active ≡ true → s.failed ≡ false
  sound : all writable script ≡ true → s.failed ≡ false

Inv-start :
    (writable : Event → Bool) (script : List Event) (before : Metrics)
    → Inv writable script before (start script before)
unfolding recorded
Inv-start writable script before = record {
  clean = λ a. refl;
  whole = λ a. refl;
  drained = λ a r. absurd (cc);
  closed = λ a g f. absurd (cc);
  prefix = λ a. absurd (cc);
  counted = λ f. refl;
  broken = λ f. absurd (cc);
  alive = λ a. refl;
  sound = λ w. refl;
}

module _ (writable : Event → Bool) (script : List Event) (before : Metrics) where
  Inv-emit :
      (s : Stream) (e : Event) (es : List Event)
      → s.running ≡ true
      → s.left ≡ e ∷ es
      → Inv writable script before s
      → Inv writable script before (cb e (record s { left = es }))
  unfolding cb
  Inv-emit s e es r l i = record {
    clean = i.clean;
    whole = λ a.
        ap (◌++◌ s.sent) (append_assoc s.queue (e ∷ []) es ∙ ap (◌++◌ s.queue) (sym l)) ∙ i.whole a;
    drained = λ a r'. absurd (cc);
    closed = i.closed;
    prefix = i.prefix;
    counted = i.counted;
    broken = i.broken;
    alive = i.alive;
    sound = i.sound;
  }

  -- A generator that stops has sent a prefix; unless the client left, it has sent all.
  Inv-stop :
      (s : Stream)
      → (rest : List Event) → s.sent ++ rest ≡ until_done script
      → (s.gone ≡ false → s.sent ≡ until_done script)
      → s.metrics ≡ recorded before s.sent
      → s.failed ≡ false
      → Inv writable script before (stop s)
  unfolding stop
  Inv-stop s rest e h c ok = record {
    clean = λ a. absurd (cc);
    whole = λ a. absurd (cc);
    drained = λ a r. absurd (cc);
    closed = λ a g f. h g;
    prefix = λ a. (rest, e);
    counted = λ f. c;
    broken = λ f. absurd (cc);
    alive = λ a. ok;
    sound = λ w. ok;
  }

  -- What is still to come, up to `done`, follows what was sent.
  sent-append :
      (s : Stream)
      → s.active ≡ true
      → Inv writable script before s
      → s.sent ++ until_done (s.queue ++ s.left) ≡ until_done script
  sent-append s a i =
      sym (until_done-append s.sent (s.queue ++ s.left) (i.clean a)) ∙ ap until_done (i.whole a)

  Inv-if :
      (b : Bool) (s t : Stream)
      → (b ≡ true → Inv writable script before s)
      → (b ≡ false → Inv writable script before t)
      → Inv writable script before (if b then s else t)
  Inv-if true s t f g = f refl
  Inv-if false s t f g = g refl

  sent_with :
      (s : Stream) (e : Event) (es : List Event)
      → s.active ≡ true
      → s.queue ≡ e ∷ es
      → Inv writable script before s
      → s.sent ++ until_done (e ∷ (es ++ s.left)) ≡ until_done script
  sent_with s e es a q i = ap (λ w. s.sent ++ until_done (w ++ s.left)) (sym q) ∙ sent-append s a i

  whole_with :
      (s : Stream) (e : Event) (es : List Event)
      → s.active ≡ true
      → s.queue ≡ e ∷ es
      → Inv writable script before s
      → s.sent ++ (e ∷ (es ++ s.left)) ≡ script
  whole_with s e es a q i = ap (λ w. s.sent ++ (w ++ s.left)) (sym q) ∙ i.whole a

  not_all :
      (xs : List Event) (e : Event) (es : List Event)
      → writable e ≡ false
      → xs ++ (e ∷ es) ≡ script
      → all writable script ≡ true
      → true ≡ false
  not_all xs e es bad h w =
      let k : all writable (xs ++ (e ∷ es)) ≡ true = ap (all writable) h ∙ w in
      let both = and_parts _ _ (rw all-append at k) in
      let here = and_parts _ _ both.1 in sym here.0 ∙ bad

  Inv-done :
      (s : Stream) (e : Event) (es : List Event)
      → s.active ≡ true
      → s.queue ≡ e ∷ es
      → is_done e ≡ true
      → Inv writable script before s
      → Inv writable script before
          (stop (yielded e (record s { queue = es; metrics = record_done e s.metrics })))
  Inv-done s e es a q d i =
      Inv-stop (yielded e (record s { queue = es; metrics = record_done e s.metrics })) []
        (append-nil (s.sent ++ e ∷ []) ∙ all_sent) (λ g. all_sent)
        (ap (record_done e) (i.counted (i.alive a)) ∙ sym (recorded-append before s.sent e))
        (i.alive a)
    where
      all_sent : s.sent ++ e ∷ [] ≡ until_done script
      all_sent =
          ap (◌++◌ s.sent) (sym (until_done-cons e (es ++ s.left) d)) ∙ sent_with s e es a q i

  Inv-frame :
      (s : Stream) (e : Event) (es : List Event)
      → s.active ≡ true
      → s.queue ≡ e ∷ es
      → is_done e ≡ false
      → Inv writable script before s
      → Inv writable script before (yielded e (record s { queue = es }))
  Inv-frame s e es a q n i = record {
    clean = λ a'. rw (all-append (λ x. not (is_done x)) s.sent (e ∷ []), i.clean a, n) refl;
    whole = λ a'.
        append_assoc s.sent (e ∷ []) (es ++ s.left)
        ∙ ap (λ w. s.sent ++ (w ++ s.left)) (sym q)
        ∙ i.whole a;
    drained = i.drained;
    closed = λ a' g f. absurd (cc);
    prefix = λ a'. absurd (cc);
    counted = λ f.
        i.counted f
        ∙ sym (record_done_quiet e (recorded before s.sent) n)
        ∙ sym (recorded-append before s.sent e);
    broken = λ f. true_false (sym f ∙ i.alive a) _;
    alive = i.alive;
    sound = i.sound;
  }

  -- An event that cannot be written ends the stream.
  Inv-fail :
      (s : Stream) (e : Event) (es : List Event)
      → s.active ≡ true
      → s.queue ≡ e ∷ es
      → writable e ≡ false
      → Inv writable script before s
      → Inv writable script before
          (stop (record s { queue = es; metrics = record_done e s.metrics; failed = true }))
  unfolding stop
  Inv-fail s e es a q bad i = record {
    clean = λ a'. absurd (cc);
    whole = λ a'. absurd (cc);
    drained = λ a' r. absurd (cc);
    closed = λ a' g f. absurd (cc);
    prefix = λ a'. (until_done (e ∷ (es ++ s.left)), sent_with s e es a q i);
    counted = λ f. absurd (cc);
    broken = λ f.
        let (rest, first) = until_done_head e (es ++ s.left) in
        (
          e,
          rest,
          ap (◌++◌ s.sent) (sym first) ∙ sent_with s e es a q i,
          ap (record_done e) (i.counted (i.alive a)) ∙ sym (recorded-append before s.sent e),
        );
    alive = λ a'. absurd (cc);
    sound = λ w. true_false (not_all s.sent e (es ++ s.left) bad (whole_with s e es a q i) w) _;
  }

  Inv-receive :
      (s : Stream) (e : Event) (es : List Event)
      → s.active ≡ true
      → s.queue ≡ e ∷ es
      → Inv writable script before s
      → Inv writable script before (deliver writable e (record s { queue = es }))
  unfolding deliver
  Inv-receive s e es a q i =
      Inv-if (not (writable e))
        (stop (record s { queue = es; metrics = record_done e s.metrics; failed = true })) _
        (λ b. Inv-fail s e es a q (not_parts (writable e) b) i)
        (λ b.
          Inv-if (is_done e)
            (stop (yielded e (record s { queue = es; metrics = record_done e s.metrics })))
            (yielded e (record s { queue = es })) (λ d. Inv-done s e es a q d i)
            (λ n. Inv-frame s e es a q n i))

  Inv-ended :
      (s : Stream)
      → s.active ≡ true
      → not s.running && is_empty s.queue ≡ true
      → Inv writable script before s
      → Inv writable script before (stop s)
  unfolding until_done
  Inv-ended s a b i =
      Inv-stop s [] (append-nil s.sent ∙ all_sent) (λ g. all_sent) (i.counted (i.alive a))
        (i.alive a)
    where
      all_sent : s.sent ≡ until_done script
      all_sent =
          let (r, q) = both_true s.running (is_empty s.queue) b in
          rw⁻¹ (append-nil s.sent) (
            ap₂ (λ x y. s.sent ++ until_done (x ++ y)) (sym (empty-eq s.queue q))
              (sym (i.drained a r))
            ∙ sent-append s a i)

  Inv-wait :
      (s : Stream)
      → s.active ≡ true
      → Inv writable script before s
      → Inv writable script before (time_out s)
  unfolding time_out
  Inv-wait s a i =
      Inv-if (not s.running && is_empty s.queue) (stop s) s (λ b. Inv-ended s a b i) (λ b. i)

  Inv-finish :
      (s : Stream)
      → s.left ≡ []
      → Inv writable script before s
      → Inv writable script before (record s { running = false })
  Inv-finish s l i = record {
    clean = i.clean;
    whole = i.whole;
    drained = λ a r. l;
    closed = i.closed;
    prefix = i.prefix;
    counted = i.counted;
    broken = i.broken;
    alive = i.alive;
    sound = i.sound;
  }

  Inv-cancel :
      (s : Stream)
      → s.active ≡ false
      → Inv writable script before s
      → Inv writable script before (record s { running = false })
  Inv-cancel s off i = record {
    clean = i.clean;
    whole = i.whole;
    drained = λ a r. absurd (cc);
    closed = i.closed;
    prefix = i.prefix;
    counted = i.counted;
    broken = i.broken;
    alive = i.alive;
    sound = i.sound;
  }

  Inv-step :
      {s t : Stream}
      → Step writable s t
      → Inv writable script before s
      → Inv writable script before t
  Inv-step (emit s e es r l) i = Inv-emit s e es r l i
  Inv-step (finish s r l) i = Inv-finish s l i
  Inv-step (cancel s a r) i = Inv-cancel s a i
  Inv-step (receive s e es a q) i = Inv-receive s e es a q i
  Inv-step (wait s a) i = Inv-wait s a i
  Inv-step (leave s a) i =
      Inv-stop (record s { gone = true }) (until_done (s.queue ++ s.left)) (sent-append s a i)
        (λ g. absurd (cc)) (i.counted (i.alive a)) (i.alive a)

  Reach-Inv : {s : Stream} → Reach writable (start script before) s → Inv writable script before s
  Reach-Inv here = Inv-start writable script before
  Reach-Inv (next r st) = Inv-step st (Reach-Inv r)

  -- What the metrics have recorded: the events that were yielded, and the one that could not be
  -- written.
  pub record Seen (s : Stream) : Type 0 where
    pub seen : List Event
    pub rest : List Event
    pub prefix : seen ++ rest ≡ until_done script
    pub counted : s.metrics ≡ recorded before seen

  Seen-sent :
      (s : Stream) (rest : List Event)
      → Inv writable script before s
      → s.sent ++ rest ≡ until_done script
      → Seen s
  Seen-sent s rest i e = elim (Bool-cases s.failed) [
    | inr ok ↦ record { seen = s.sent; rest = rest; prefix = e; counted = i.counted ok }
    | inl bad ↦
        let (x, more, whole, c) = i.broken bad in
        record {
          seen = s.sent ++ x ∷ [];
          rest = more;
          prefix = append_assoc s.sent (x ∷ []) more ∙ whole;
          counted = c;
        }
  ]

  -- In every order of the moves, the metrics have recorded the first of the events that `ask` streams
  -- up to its `done`.
  pub stream-Seen : (s : Stream) → Reach writable (start script before) s → Seen s
  stream-Seen s r = elim (Bool-cases s.active) [
    | inl a ↦
        Seen-sent s (until_done (s.queue ++ s.left)) (Reach-Inv r) (sent-append s a (Reach-Inv r))
    | inr a ↦ let (rest, e) = (Reach-Inv r).prefix a in Seen-sent s rest (Reach-Inv r) e
  ]

  -- Where every event can be written, the generator does not fail.
  pub stream_unbroken :
      (s : Stream)
      → Reach writable (start script before) s
      → all writable script ≡ true
      → s.failed ≡ false
  stream_unbroken s r w = (Reach-Inv r).sound w

  -- In every order of the moves, a stream that has ended, and neither because the client went away
  -- nor in an event that could not be written, has yielded every event that `ask` streams up to its
  -- `done`, and has recorded that `done`, where there is one.
  pub stream_completes :
      (s : Stream)
      → Reach writable (start script before) s
      → s.active ≡ false
      → s.gone ≡ false
      → s.failed ≡ false
      → (s.sent ≡ until_done script) × (s.metrics ≡ recorded before (until_done script))
  stream_completes s r a g f =
      let sent = (Reach-Inv r).closed a g f in
      (sent, (Reach-Inv r).counted f ∙ ap (recorded before) sent)
