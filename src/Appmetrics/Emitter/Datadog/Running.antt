-- ===== src/Appmetrics/Emitter/Datadog/Running.antt =====
-- appmetrics/emitter/datadog/datadog.go: StartEmitter, and the loop of Emit, which waits for ticks and
-- for the end of its context.
use go_baseapp.Prelude.{
  ℕ, suc, ◌≡◌, refl, ap, ◌⊎◌, inl, inr, Bool, true, false, Option, none, some, List, [], ◌∷◌, ◌++◌,
  map, arith, ltb, ◌==◌, if◌then◌else◌, Option-cases, suc,
}
use go_baseapp.Text.{Text, codes, text_eq}
use go_baseapp.Text.Numbers.{ℤ, pos, negsuc}
use go_baseapp.Appmetrics.Values.{Floats, Value}
use go_baseapp.Appmetrics.Emitter.Datadog.{Packet, Counters, emit_once, emit_rounds}

-- Config; the interval is in nanoseconds.
pub record Config : Type 0 where
  pub address : Text
  pub interval : ℤ
  pub tags : List Text

abbrev pub default_address : Text
default_address = codes "127.0.0.1:8125"

abbrev pub default_interval : ℤ
default_interval = pos 10_000_000_000

is_zero : ℤ → Bool
is_zero (pos n) = n == 0
is_zero (negsuc n) = false

is_positive : ℤ → Bool
is_positive (pos n) = ltb 0 n
is_positive (negsuc n) = false

-- The defaults that StartEmitter fills in.
unfoldable pub completed : Config → Config
unfolding is_zero
completed c = record c {
  address = if text_eq c.address [] then default_address else c.address;
  interval = if is_zero c.interval then default_interval else c.interval;
}

-- What one round of the `select` in Emit receives: a tick, with the entries of the registry as they
-- are then, or the end of the context. Where both are ready, Go chooses one.
pub data Received (F : Type 0) : Type 0 where
  tick : List (Text × Value F) → Received F
  context_done : Received F

-- How far Emit has come: it waits, it has returned, or time.NewTicker has panicked.
pub data Progress : Type 0 where
  waiting returned ticker_panic : Progress

module _ (floats : Floats) (timer_unit : ℕ) where
  open floats use {Float}

  -- The loop of `Emit`, from the given counters: what it has sent after it has received a list.
  emit_loop : List (Received Float) → Counters → Progress × Counters × List (Packet Float)
  unfolding emit_once
  emit_loop [] counters = (waiting, counters, [])
  emit_loop (context_done ∷ received) counters = (returned, counters, [])
  emit_loop (tick entries ∷ received) counters =
      let (counters', sent) = emit_once floats timer_unit entries counters in
      let (progress, counters'', sent') = emit_loop received counters' in
      (progress, counters'', sent ++ sent')

  -- `Emit`; a ticker needs a positive interval.
  unfoldable pub emit :
      ℤ → List (Received Float) → Counters → Progress × Counters × List (Packet Float)
  unfolding emit_loop is_positive
  emit interval received counters =
      let run = emit_loop received counters in
      if is_positive interval then run else (ticker_panic, counters, [])

  -- The result of `statsd.New`, by the address and the tags: a client or an error. The context of the
  -- emitter is context.Background(), which never ends, so that it receives ticks only.
  started :
      Option ℕ
      → Config
      → List (List (Text × Value Float))
      → (Progress × Counters × List (Packet Float)) ⊎ ℕ
  unfolding emit
  started (some err) c ticks = inr err
  started none c ticks = inl (emit c.interval (map tick ticks) [])

  -- `StartEmitter`, and what the goroutine that it starts does once it has run, by the entries of the
  -- registry at each tick.
  unfoldable pub start_emitter :
      (Text → List Text → Option ℕ)
      → Config
      → List (List (Text × Value Float))
      → (Progress × Counters × List (Packet Float)) ⊎ ℕ
  unfolding started completed
  start_emitter new_client c ticks =
      let c' = completed c in started (new_client c'.address c'.tags) c' ticks

  -- How far Emit has come, with its counters and what it has sent.
  abbrev pub reached :
      Progress → Counters × List (Packet Float) → Progress × Counters × List (Packet Float)
  reached progress (counters, sent) = (progress, counters, sent)

  emit_loop-tick :
      (rounds : List (List (Text × Value Float))) (rest : List (Received Float)) (c : Counters)
      → emit_loop (map tick rounds ++ context_done ∷ rest) c ≡ (
        returned,
        (emit_rounds floats timer_unit rounds c).0,
        (emit_rounds floats timer_unit rounds c).1,
      )
  unfolding emit_loop emit_rounds
  emit_loop-tick [] rest c = refl
  emit_loop-tick (entries ∷ rounds) rest c =
      rw (emit_loop-tick rounds rest (emit_once floats timer_unit entries c).0) refl

  emit_loop_waiting :
      (rounds : List (List (Text × Value Float))) (c : Counters)
      → emit_loop (map tick rounds) c ≡ (
        waiting,
        (emit_rounds floats timer_unit rounds c).0,
        (emit_rounds floats timer_unit rounds c).1,
      )
  unfolding emit_loop emit_rounds
  emit_loop_waiting [] c = refl
  emit_loop_waiting (entries ∷ rounds) c =
      rw (emit_loop_waiting rounds (emit_once floats timer_unit entries c).0) refl

  completed-is_positive :
      (c : Config) (n : ℕ) → is_positive (completed (record c { interval = pos n })).interval ≡ true
  unfolding completed is_positive
  completed-is_positive c n = ground arith

  is_positive-suc : (n : ℕ) → is_positive (pos (suc n)) ≡ true
  unfolding is_positive
  is_positive-suc n = ground arith

  by_interval :
      (c : Config) (interval : ℤ) (ticks : List (List (Text × Value Float)))
      → c.interval ≡ interval
      → ((n : ℕ) × (c.interval ≡ negsuc n)
          × (started none (completed c) ticks ≡ inl (ticker_panic, [], [])))
        ⊎ ((n : ℕ) × (c.interval ≡ pos n)
            × (started none (completed c) ticks
                ≡ inl (reached waiting (emit_rounds floats timer_unit ticks []))))
  unfolding started emit completed is_positive
  by_interval c (pos n) ticks e =
      inr (n, e, rw (e, completed-is_positive c n) (ap inl (emit_loop_waiting ticks [])))
  by_interval c (negsuc n) ticks e = inl (n, e, rw e refl)

  -- StartEmitter fails exactly with the error of statsd.New. Otherwise the ticker panics for a
  -- negative interval, and for any other one the emitter waits, having sent what the ticks make.
  pub start_emitter-cases :
      (new_client : Text → List Text → Option ℕ) (c : Config)
      (ticks : List (List (Text × Value Float)))
      → ((err : ℕ) × (new_client (completed c).address c.tags ≡ some err)
          × (start_emitter new_client c ticks ≡ inr err))
        ⊎ ((new_client (completed c).address c.tags ≡ none)
            × (((n : ℕ) × (c.interval ≡ negsuc n)
                  × (start_emitter new_client c ticks ≡ inl (ticker_panic, [], [])))
                ⊎ ((n : ℕ) × (c.interval ≡ pos n)
                    × (start_emitter new_client c ticks
                        ≡ inl (reached waiting (emit_rounds floats timer_unit ticks []))))))
  unfolding start_emitter started
  start_emitter-cases new_client c ticks =
      elim (Option-cases (new_client (completed c).address c.tags)) [
        | inr (err, e) ↦ inl (err, e, rw e refl)
        | inl e ↦ inr (e, rw e (by_interval c c.interval ticks refl))
      ]

  -- An emitter that StartEmitter starts with an interval that is not negative, and for which a client
  -- can be made, is never done: after any ticks it waits, and has sent what the rounds of these ticks
  -- send. With a negative interval the ticker panics before anything is sent. Where the context of an
  -- emitter can end, Emit with a positive interval returns at its end, whatever could be received
  -- later, and has sent what the rounds of the ticks before send.
  pub start_emitter_lem :
      (new_client : Text → List Text → Option ℕ) (c : Config)
      (rounds : List (List (Text × Value Float))) (rest : List (Received Float)) (n : ℕ)
      (counters : Counters)
      → new_client (completed c).address c.tags ≡ none
      → (start_emitter new_client (record c { interval = pos n }) rounds
          ≡ inl (reached waiting (emit_rounds floats timer_unit rounds [])))
        × (start_emitter new_client (record c { interval = negsuc n }) rounds
            ≡ inl (ticker_panic, [], []))
        × (emit (pos (suc n)) (map tick rounds ++ context_done ∷ rest) counters
            ≡ reached returned (emit_rounds floats timer_unit rounds counters))
  unfolding start_emitter started emit completed is_positive
  start_emitter_lem new_client c rounds rest n counters made = (
    rw (made, completed-is_positive c n) (ap inl (emit_loop_waiting rounds [])),
    rw made refl,
    rw (is_positive-suc n) (emit_loop-tick rounds rest counters),
  )
