-- ===== src/Appmetrics/Emitter/Datadog.antt =====
-- appmetrics/emitter/datadog/datadog.go: the packets that one round of the emitter sends. A round
-- enumerates the registry's entries in the order in which `Each` calls back.
pub mod RoundTrip
pub mod Totals
pub mod Running
use go_baseapp.Prelude.{
  ℕ, ◌+◌, ◌-◌, List, [], ◌∷◌, ◌++◌, Option, none, some, if◌then◌else◌, length, take,
}
use go_baseapp.Text.{Text, codes, index_rune, last_is, slice, split, join, sort_strings}
use go_baseapp.Text.Dict.{lookup, insert}
use go_baseapp.Appmetrics.Values.{Floats, Value, Sampled, Rates, sub_int64}

-- `tagsFromName` once the first bracket has been looked for.
tags_at : Text → Option ℕ → Text × List Text
tags_at name none = (name, [])
tags_at name (some start) =
    if last_is name b']'
    then (take start name, sort_strings (split (slice name (start + 1) (length name - 1)) b','))
    else (name, [])

unfoldable pub tags_from_name : Text → Text × List Text
unfolding tags_at
tags_from_name name = tags_at name (index_rune name b'[')

-- `fmt.Sprintf("%s[%s]", name, strings.Join(tags, ","))`
unfoldable pub counter_key : Text → List Text → Text
counter_key name tags = name ++ b'[' ∷ (join tags b',' ++ b']' ∷ [])

-- The calls of the statsd client; the last argument, the rate, is always 1.
pub data Packet (F : Type 0) : Type 0 where
  count : Text → ℕ → List Text → Packet F
  gauge : Text → F → List Text → Packet F

-- `e.counters`
abbrev pub Counters : Type 0
Counters = List (Text × ℕ)

-- `e.counters[key]`, 0 on a missing key.
abbrev value_or_zero : Option ℕ → ℕ
value_or_zero none = 0
value_or_zero (some v) = v

unfoldable pub last_value : Text → Counters → ℕ
last_value key counters = value_or_zero (lookup key counters)

-- The package's variable `timerUnit` at the start, time.Nanosecond, and after `SetTimerUnit`.
abbrev pub initial_timer_unit : ℕ
initial_timer_unit = 1

abbrev pub set_timer_unit : ℕ → ℕ → ℕ
set_timer_unit unit timer_unit = unit

-- The counters of `NewEmitter`.
abbrev pub new_emitter : Counters
new_emitter = []

-- `Flush`, by the client's own.
abbrev pub flush : {Client : Type 0} → (Client → Option ℕ × Client) → Client → Option ℕ × Client
flush client_flush client = client_flush client

module _ (floats : Floats) (timer_unit : ℕ) where
  open floats use {Float, of_int64, div, half, p95}

  unfoldable pub convert_time : Float → Float
  convert_time n = div n (of_int64 timer_unit)

  -- `Gauge(name+suffix, …)`
  gauge_of : Text → Text → Float → List Text → Packet Float
  gauge_of name suffix v tags = Packet.gauge (name ++ suffix) v tags

  sampled_packets :
      (Float → Float) → (ℕ → Float) → Text → List Text → Sampled Float → List (Packet Float)
  unfolding gauge_of
  sampled_packets scale scale_int name tags ms =
      gauge_of name (codes ".avg") (scale ms.mean) tags
      ∷ gauge_of name (codes ".count") (of_int64 ms.count) tags
      ∷ gauge_of name (codes ".max") (scale_int ms.max) tags
      ∷ gauge_of name (codes ".median") (scale (ms.percentile half)) tags
      ∷ gauge_of name (codes ".min") (scale_int ms.min) tags
      ∷ gauge_of name (codes ".sum") (scale_int ms.sum) tags
      ∷ gauge_of name (codes ".95percentile") (scale (ms.percentile p95)) tags
      ∷ []

  meter_packets : Text → List Text → Rates Float → List (Packet Float)
  unfolding gauge_of
  meter_packets name tags ms =
      gauge_of name (codes ".avg") ms.rate_mean tags
      ∷ gauge_of name (codes ".count") (of_int64 ms.count) tags
      ∷ gauge_of name (codes ".rate1") ms.rate1 tags
      ∷ gauge_of name (codes ".rate5") ms.rate5 tags
      ∷ gauge_of name (codes ".rate15") ms.rate15 tags
      ∷ []

  -- The type switch of `EmitOnce`: the new counters and the packets sent.
  emit_value : Text → List Text → Value Float → Counters → Counters × List (Packet Float)
  unfolding sampled_packets meter_packets convert_time
  emit_value name tags (Value.counter v) counters =
      let key = counter_key name tags in
      (insert key v counters, count name (sub_int64 v (last_value key counters)) tags ∷ [])
  emit_value name tags (Value.gauge v) counters =
      (counters, Packet.gauge name (of_int64 v) tags ∷ [])
  emit_value name tags (Value.gauge_float64 v) counters = (counters, Packet.gauge name v tags ∷ [])
  emit_value name tags (Value.histogram ms) counters =
      (counters, sampled_packets (λ v. v) of_int64 name tags ms)
  emit_value name tags (Value.meter ms) counters = (counters, meter_packets name tags ms)
  emit_value name tags (Value.timer ms) counters =
      (counters, sampled_packets convert_time (λ v. convert_time (of_int64 v)) name tags ms)
  emit_value name tags Value.other counters = (counters, [])

  -- The callback of `EmitOnce`.
  emit_metric : Text × Value Float → Counters → Counters × List (Packet Float)
  unfolding emit_value
  emit_metric (full_name, v) counters =
      let (name, tags) = tags_from_name full_name in emit_value name tags v counters

  -- `EmitOnce` over the entries of the registry.
  unfoldable pub emit_once : List (Text × Value Float) → Counters → Counters × List (Packet Float)
  unfolding emit_metric
  emit_once [] counters = (counters, [])
  emit_once (entry ∷ entries) counters =
      let (counters', sent) = emit_metric entry counters in
      let (counters'', sent') = emit_once entries counters' in (counters'', sent ++ sent')

  -- The ticks of `Emit`, each with the registry as it is then, from `NewEmitter` on.
  unfoldable pub emit_rounds :
      List (List (Text × Value Float)) → Counters → Counters × List (Packet Float)
  unfolding emit_once
  emit_rounds [] counters = (counters, [])
  emit_rounds (entries ∷ rounds) counters =
      let (counters', sent) = emit_once entries counters in
      let (counters'', sent') = emit_rounds rounds counters' in (counters'', sent ++ sent')
