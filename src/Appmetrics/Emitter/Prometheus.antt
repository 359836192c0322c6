-- ===== src/Appmetrics/Emitter/Prometheus.antt =====
-- appmetrics/emitter/prometheus/collector.go: names and labels, and what `Collect` sends.
pub mod Sanitizing
pub mod Labelling
pub mod Handler
use go_baseapp.Prelude.{
  ℕ, Bool, true, false, List, [], ◌∷◌, ◌++◌, leb, if◌then◌else◌, Option, ◌&&◌, ◌||◌, ◌==◌, some,
  take, ◌+◌, length, ◌-◌, none,
}
use go_baseapp.Text.{Text, codes, text_eq, cut, index_rune, last_is, slice, split, trim_space}
use go_baseapp.Text.Dict.{lookup, insert}
use go_baseapp.Appmetrics.Values.{Floats, Value, Sampled}

unfoldable pub is_alpha_numeric : ℕ → Bool
is_alpha_numeric c =
    (leb b'0' c && leb c b'9') || (leb b'A' c && leb c b'Z') || (leb b'a' c && leb c b'z')

-- The loop of `sanitize`, over the runes of the text.
sanitize_from : (ℕ → Bool) → Text → Text → Bool → Text
sanitize_from valid [] clean last_is_valid = clean
sanitize_from valid (c ∷ v) clean last_is_valid =
    let kept = sanitize_from valid v (clean ++ c ∷ []) true in
    let replaced = sanitize_from valid v (clean ++ b'_' ∷ []) false in
    let dropped = sanitize_from valid v clean last_is_valid in
    if valid c then kept else if last_is_valid then replaced else dropped

unfoldable pub sanitize : Text → (ℕ → Bool) → Text
unfolding sanitize_from
sanitize v valid = sanitize_from valid v [] false

unfoldable pub valid_in_name : ℕ → Bool
unfolding is_alpha_numeric
valid_in_name c = is_alpha_numeric c || c == b':'

unfoldable pub sanitize_name : Text → Text
unfolding sanitize valid_in_name
sanitize_name name = sanitize name valid_in_name

unfoldable pub sanitize_label : Text → Text
unfolding sanitize is_alpha_numeric
sanitize_label label = sanitize label is_alpha_numeric

-- prometheus.Labels
abbrev pub Labels : Type 0
Labels = List (Text × Text)

-- What one label pair sets.
set_pair : Text → Option (Text × Text) → Labels → Labels
set_pair pair (some (key, value)) labels = insert (sanitize_label key) value labels
set_pair pair none labels = insert (sanitize_label pair) pair labels

-- The loop of `labelsFromName`. Without a colon, `key` is the whole trimmed pair.
label_loop : List Text → Labels → Labels
unfolding set_pair
label_loop [] labels = labels
label_loop (pair ∷ pairs) labels =
    let p = trim_space pair in label_loop pairs (set_pair p (cut p b':') labels)

labels_at : Text → Option ℕ → Text × Labels
unfolding label_loop
labels_at name none = (sanitize_name name, [])
labels_at name (some start) =
    if last_is name b']'
    then (
      sanitize_name (take start name),
      label_loop (split (slice name (start + 1) (length name - 1)) b',') [],
    )
    else (sanitize_name name, [])

unfoldable pub labels_from_name : Text → Text × Labels
unfolding labels_at
labels_from_name name = labels_at name (index_rune name b'[')

-- A global label is added unless the metric has a label of that key.
set_missing : Text → Text → Option Text → Labels → Labels
set_missing k v none labels = insert k v labels
set_missing k v (some _) labels = labels

-- The loop of `descFromName` over the global labels, in the order of the map's iteration.
add_global : Labels → Labels → Labels
unfolding set_missing
add_global [] labels = labels
add_global ((k, v) ∷ globals) labels = add_global globals (set_missing k v (lookup k labels) labels)

-- The arguments of `prometheus.NewDesc`.
pub record Desc : Type 0 where
  pub fq_name : Text
  pub help : Text
  pub labels : Labels

-- `desc(suffix)` of the function that `descFromName` returns.
unfoldable pub desc_from_name : Labels → Text → Text → Text → Desc
unfolding add_global
desc_from_name globals full_name help suffix =
    let (name, labels) = labels_from_name full_name in
    record {
      fq_name = if text_eq suffix [] then name else name ++ b'_' ∷ suffix;
      help = help;
      labels = add_global globals labels;
    }

-- The loop of `WithLabels`, in the order of the map's iteration.
unfoldable pub with_labels : Labels → Labels → Labels
with_labels [] labels = labels
with_labels ((k, v) ∷ given) labels = with_labels given (insert (sanitize_label k) v labels)

-- What `Collect` sends: the value types of client_golang, whose Must functions would panic for a
-- description that it refuses; such a panic is outside the model.
pub data Sent (F : Type 0) : Type 0 where
  untyped gauge : Desc → F → Sent F
  summary : Desc → ℕ → F → List (F × F) → Sent F

-- time.Second
abbrev nanos_per_second : ℕ
nanos_per_second = 1_000_000_000

module _ (floats : Floats) where
  open floats use {Float, of_int64, div, eq}

  -- `toSeconds`; the argument `second` is `time.Second`.
  to_seconds : ℕ → Float → Float
  to_seconds second n = div n (of_int64 second)

  -- `qs[q] = v` on a map of quantiles.
  set_quantile : Float → Float → List (Float × Float) → List (Float × Float)
  set_quantile q v [] = (q, v) ∷ []
  set_quantile q v ((p, w) ∷ qs) = if eq p q then (p, v) ∷ qs else (p, w) ∷ set_quantile q v qs

  -- The loop of `getQuantiles`. `Percentiles` returns one value for each quantile.
  quantile_loop : List Float → List Float → List (Float × Float) → List (Float × Float)
  unfolding set_quantile
  quantile_loop (p ∷ ps) (v ∷ vs) qs = quantile_loop ps vs (set_quantile p v qs)
  quantile_loop [] _ qs = qs
  quantile_loop (p ∷ ps) [] qs = qs

  get_quantiles : Sampled Float → List Float → List (Float × Float)
  unfolding quantile_loop
  get_quantiles ms ps = quantile_loop ps (ms.percentiles ps) []

  pub record Collector : Type 0 where
    pub labels : Labels
    pub histogram_quantiles : List Float
    pub timer_quantiles : List Float

  -- The loop over the quantiles of a timer.
  quantiles_to_seconds : List (Float × Float) → List (Float × Float)
  unfolding to_seconds
  quantiles_to_seconds [] = []
  quantiles_to_seconds ((q, v) ∷ qs) = (q, to_seconds nanos_per_second v) ∷ quantiles_to_seconds qs

  -- The type switch of `Collect`, with the description `desc` of the metric.
  collect_value : Collector → (Text → Text → Desc) → Value Float → List (Sent Float)
  unfolding get_quantiles quantiles_to_seconds
  collect_value c desc (Value.counter v) =
      untyped (desc (codes "metrics.Counter") []) (of_int64 v) ∷ []
  collect_value c desc (Value.gauge v) =
      Sent.gauge (desc (codes "metrics.Gauge") []) (of_int64 v) ∷ []
  collect_value c desc (Value.gauge_float64 v) =
      Sent.gauge (desc (codes "metrics.GaugeFloat64") []) v ∷ []
  collect_value c desc (Value.histogram ms) =
      let d = desc (codes "metrics.Histogram") in
      summary (d []) ms.count (of_int64 ms.sum) (get_quantiles ms c.histogram_quantiles)
      ∷ untyped (d (codes "min")) (of_int64 ms.min)
      ∷ untyped (d (codes "max")) (of_int64 ms.max)
      ∷ []
  collect_value c desc (Value.meter ms) =
      untyped (desc (codes "metrics.Meter") (codes "count")) (of_int64 ms.count) ∷ []
  collect_value c desc (Value.timer ms) =
      let d = desc (codes "metrics.Timer") in
      let seconds = to_seconds nanos_per_second in
      let qs = quantiles_to_seconds (get_quantiles ms c.timer_quantiles) in
      summary (d (codes "seconds")) ms.count (seconds (of_int64 ms.sum)) qs
      ∷ untyped (d (codes "min_seconds")) (seconds (of_int64 ms.min))
      ∷ untyped (d (codes "max_seconds")) (seconds (of_int64 ms.max))
      ∷ []
  collect_value c desc Value.other = []

  -- `Collect` over the entries of the registry.
  unfoldable pub collect : Collector → List (Text × Value Float) → List (Sent Float)
  unfolding collect_value
  collect c [] = []
  collect c ((name, v) ∷ entries) =
      collect_value c (desc_from_name c.labels name) v ++ collect c entries
