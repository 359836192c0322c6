-- ===== src/Appmetrics/Emitter/Datadog/Totals.antt =====
-- Counters are reported as differences: what the differences of a counter add up to.
use go_baseapp.Prelude.{
  ℕ, ◌+◌, ◌%◌, ◌<◌, ◌≡◌, List, [], ◌∷◌, ◌++◌, arith, if◌then◌else◌, All, ◌≢◌, ◌∙◌, refl,
}
use go_baseapp.Text.{Text, text_eq}
use go_baseapp.Text.Equality.{text_eq_iff, text_eq_refl}
use go_baseapp.Text.Dict.{insert, lookup-insert, lookup}
use go_baseapp.Appmetrics.Values.{Floats, Value, sub_int64, int64_mod}
use go_baseapp.Appmetrics.Emitter.Datadog.{
  tags_from_name, counter_key, Packet, Counters, last_value, emit_value, emit_metric, emit_once,
  emit_rounds,
}

-- The key that the emitter keeps a counter under.
unfoldable pub key_of : Text → Text
key_of full_name = let (name, tags) = tags_from_name full_name in counter_key name tags

-- The sum, as an int64, of the counts sent under a key.
unfoldable pub reported : {F : Type 0} → Text → List (Packet F) → ℕ
reported key [] = 0
reported key (Packet.count name v tags ∷ packets) =
    if text_eq (counter_key name tags) key
    then (v + reported key packets) % int64_mod
    else reported key packets
reported key (Packet.gauge name v tags ∷ packets) = reported key packets

reported-append :
    {F : Type 0} (key : Text) (ps qs : List (Packet F))
    → reported key (ps ++ qs) % int64_mod ≡ (reported key ps + reported key qs) % int64_mod
unfolding reported
reported-append key [] qs = omega arith
reported-append key (Packet.count name v tags ∷ ps) qs = ground (arith, reported-append key ps qs)
reported-append key (Packet.gauge name v tags ∷ ps) qs = reported-append key ps qs

reported-lt : {F : Type 0} (key : Text) (ps : List (Packet F)) → reported key ps < int64_mod
unfolding reported
reported-lt key [] = omega arith
reported-lt key (Packet.count name v tags ∷ ps) = ground (arith, reported-lt key ps)
reported-lt key (Packet.gauge name v tags ∷ ps) = reported-lt key ps

sub_int64_add : (a b : ℕ) → (b + sub_int64 a b) % int64_mod ≡ a % int64_mod
unfolding sub_int64
sub_int64_add a b = omega arith

last_value-insert :
    (k j : Text) (v : ℕ) (c : Counters)
    → last_value j (insert k v c) ≡ (if text_eq k j then v else last_value j c)
unfolding last_value
last_value-insert k j v c = ground (arith, lookup-insert k j v c)

module _ (floats : Floats) (timer_unit : ℕ) where
  open floats use {Float}

  -- What one metric adds to the differences sent under a key is what its stored value changes by.
  emit_value-reported :
      (key name : Text) (tags : List Text) (v : Value Float) (c : Counters)
      → (last_value key c + reported key (emit_value floats timer_unit name tags v c).1) % int64_mod
        ≡ last_value key (emit_value floats timer_unit name tags v c).0 % int64_mod
  unfolding emit_value reported
  emit_value-reported key name tags (Value.counter v) c = ground (
    arith,
    text_eq_iff (counter_key name tags) key,
    last_value-insert (counter_key name tags) key v c,
    sub_int64_add v (last_value key c),
  )
  emit_value-reported key name tags _ c = omega arith

  emit_metric-reported :
      (key : Text) (entry : Text × Value Float) (c : Counters)
      → (last_value key c + reported key (emit_metric floats timer_unit entry c).1) % int64_mod
        ≡ last_value key (emit_metric floats timer_unit entry c).0 % int64_mod
  unfolding emit_metric
  emit_metric-reported key (full_name, v) c =
      emit_value-reported key (tags_from_name full_name).0 (tags_from_name full_name).1 v c

  emit_once-reported :
      (key : Text) (entries : List (Text × Value Float)) (c : Counters)
      → (last_value key c + reported key (emit_once floats timer_unit entries c).1) % int64_mod
        ≡ last_value key (emit_once floats timer_unit entries c).0 % int64_mod
  unfolding emit_once
  emit_once-reported key [] c = unfold reported in omega arith
  emit_once-reported key (entry ∷ entries) c =
      let (c', sent) = emit_metric floats timer_unit entry c in
      let (c'', sent') = emit_once floats timer_unit entries c' in
      omega (
        arith,
        emit_metric-reported key entry c,
        emit_once-reported key entries c',
        reported-append key sent sent',
      )

  -- Whatever the registry holds at each tick: the differences sent under a key, added to the value
  -- stored for it at the start, are the value stored for it at the end, modulo 2 ^ 64.
  pub emit_rounds-reported :
      (key : Text) (rounds : List (List (Text × Value Float))) (c : Counters)
      → (last_value key c + reported key (emit_rounds floats timer_unit rounds c).1) % int64_mod
        ≡ last_value key (emit_rounds floats timer_unit rounds c).0 % int64_mod
  unfolding emit_rounds
  emit_rounds-reported key [] c = unfold reported in omega arith
  emit_rounds-reported key (entries ∷ rounds) c =
      let (c', sent) = emit_once floats timer_unit entries c in
      let (c'', sent') = emit_rounds floats timer_unit rounds c' in
      omega (
        arith,
        emit_once-reported key entries c,
        emit_rounds-reported key rounds c',
        reported-append key sent sent',
      )

  -- The entry is no counter that is kept under the key.
  abbrev pub SparesKey : Text → Text × Value Float → Type 0
  SparesKey key (full_name, v) = key_of full_name ≢ key

  emit_metric-spares :
      (key : Text) (entry : Text × Value Float) (c : Counters)
      → SparesKey key entry
      → last_value key (emit_metric floats timer_unit entry c).0 ≡ last_value key c
  unfolding emit_metric emit_value key_of
  emit_metric-spares key (full_name, Value.counter v) c h =
      let (name, tags) = tags_from_name full_name in
      ground (
        arith,
        last_value-insert (counter_key name tags) key v c,
        text_eq_iff (counter_key name tags) key,
      )
  emit_metric-spares key (full_name, _) c h = refl

  emit_once-spares :
      (key : Text) (entries : List (Text × Value Float)) (c : Counters)
      → All (SparesKey key) entries
      → last_value key (emit_once floats timer_unit entries c).0 ≡ last_value key c
  unfolding emit_once
  emit_once-spares key [] c h = refl
  emit_once-spares key (entry ∷ entries) c (p, h) =
      emit_once-spares key entries (emit_metric floats timer_unit entry c).0 h
      ∙ emit_metric-spares key entry c p

  emit_metric-counter :
      (full_name : Text) (v : ℕ) (c : Counters)
      → last_value
          (key_of full_name)
          (emit_metric floats timer_unit (full_name, Value.counter v) c).0
        ≡ v
  unfolding emit_metric emit_value key_of
  emit_metric-counter full_name v c =
      let (name, tags) = tags_from_name full_name in
      ground (
        arith,
        last_value-insert (counter_key name tags) (counter_key name tags) v c,
        text_eq_refl (counter_key name tags),
      )

  emit_once-counter :
      (before after : List (Text × Value Float)) (full_name : Text) (v : ℕ) (c : Counters)
      → All (SparesKey (key_of full_name)) after
      → last_value
          (key_of full_name)
          (emit_once floats timer_unit (before ++ (full_name, Value.counter v) ∷ after) c).0
        ≡ v
  unfolding emit_once
  emit_once-counter [] after full_name v c h =
      emit_once-spares (key_of full_name) after _ h ∙ emit_metric-counter full_name v c
  emit_once-counter (entry ∷ before) after full_name v c h =
      emit_once-counter before after full_name v (emit_metric floats timer_unit entry c).0 h

  emit_rounds-counter :
      (rounds : List (List (Text × Value Float))) (before after : List (Text × Value Float))
      (full_name : Text) (v : ℕ) (c : Counters)
      → All (SparesKey (key_of full_name)) after
      → last_value
          (key_of full_name)
          (emit_rounds floats timer_unit
            (rounds ++ (before ++ (full_name, Value.counter v) ∷ after) ∷ [])
            c).0
        ≡ v
  unfolding emit_rounds
  emit_rounds-counter [] before after full_name v c h =
      emit_once-counter before after full_name v c h
  emit_rounds-counter (entries ∷ rounds) before after full_name v c h =
      emit_rounds-counter rounds before after full_name v (emit_once floats timer_unit entries c).0
        h

  -- After any ticks and one more in which a counter is enumerated and no entry behind it has the
  -- same key, all the differences that a new emitter has sent under its key add up, modulo 2 ^ 64,
  -- to the value of that counter, also where other counters share the key.
  pub reported-emit_rounds :
      (rounds : List (List (Text × Value Float))) (before after : List (Text × Value Float))
      (full_name : Text) (v : ℕ)
      → v < int64_mod
      → All (SparesKey (key_of full_name)) after
      → reported
          (key_of full_name)
          (emit_rounds floats timer_unit
            (rounds ++ (before ++ (full_name, Value.counter v) ∷ after) ∷ [])
            []).1
        ≡ v
  reported-emit_rounds rounds before after full_name v fits h =
      let all = rounds ++ (before ++ (full_name, Value.counter v) ∷ after) ∷ [] in
      let start : last_value (key_of full_name) [] ≡ 0 = unfold last_value lookup in refl in
      omega (
        arith,
        start,
        emit_rounds-reported (key_of full_name) all [],
        emit_rounds-counter rounds before after full_name v [] h,
        reported-lt (key_of full_name) (emit_rounds floats timer_unit all []).1,
      )
