-- ===== src/Appmetrics/Emitter/Prometheus/Handler.antt =====
-- appmetrics/emitter/prometheus: NewCollector with its options, and the collector that NewHandler of
-- prometheus.go registers.
use mathlib.Core.Path.{subst}
use go_baseapp.Prelude.{
  All-map, All, All-append, Bool-cases, inl, inr, sym, ◌⊎◌, ◌≡◌, refl, sym, ◌⊎◌, inl, inr, Bool,
  true, false, List, [], ◌∷◌, ◌++◌, if◌then◌else◌, Bool-cases, All, All-append,
}
use go_baseapp.Text.{Text, text_eq}
use go_baseapp.Text.Dict.{lookup}
use go_baseapp.Appmetrics.Values.{Floats, Value}
use go_baseapp.Appmetrics.Emitter.Prometheus.{
  Labels, Desc, Sent, Collector, with_labels, collect, collect_value, desc_from_name,
  labels_from_name,
}
use go_baseapp.Appmetrics.Emitter.Prometheus.Labelling.{desc_from_name-labels, or_else}

-- Whether a map or a slice has items.
abbrev is_empty : {A : Type 0} → List A → Bool
is_empty [] = true
is_empty (_ ∷ _) = false

module _ (floats : Floats) where
  open floats use {Float, half, p95}

  -- Config, with the labels in the order of the map's iteration.
  pub record Config : Type 0 where
    pub config_labels : Labels
    pub config_histogram_quantiles : List Float
    pub config_timer_quantiles : List Float

  abbrev pub CollectorOption : Type 0
  CollectorOption = Collector floats → Collector floats

  unfoldable pub with_labels_option : Labels → CollectorOption
  with_labels_option given c = record c { labels = with_labels given [] }

  unfoldable pub with_histogram_quantiles : List Float → CollectorOption
  with_histogram_quantiles qs c = record c { histogram_quantiles = qs }

  unfoldable pub with_timer_quantiles : List Float → CollectorOption
  with_timer_quantiles qs c = record c { timer_quantiles = qs }

  apply_options : List CollectorOption → CollectorOption
  apply_options [] c = c
  apply_options (opt ∷ opts) c = apply_options opts (opt c)

  -- `NewCollector`
  unfoldable pub new_collector : List CollectorOption → Collector floats
  unfolding apply_options
  new_collector opts = apply_options opts (record {
    labels = [];
    histogram_quantiles = half ∷ p95 ∷ [];
    timer_quantiles = half ∷ p95 ∷ [];
  })

  option_if : {A : Type 0} → List A → (List A → CollectorOption) → List CollectorOption
  option_if xs option = if is_empty xs then [] else option xs ∷ []

  -- The collector of `NewHandler`.
  unfoldable pub new_handler : Config → Collector floats
  unfolding option_if with_labels_option with_histogram_quantiles with_timer_quantiles new_collector
  new_handler config = new_collector (
      option_if config.config_labels with_labels_option
      ++ (option_if config.config_histogram_quantiles with_histogram_quantiles
          ++ option_if config.config_timer_quantiles with_timer_quantiles))

  abbrev quantiles_or_default : List Float → List Float
  quantiles_or_default [] = half ∷ p95 ∷ []
  quantiles_or_default (q ∷ qs) = q ∷ qs

  new_handler_eq :
      (labels : Labels) (hs ts : List Float)
      → new_handler (record {
        config_labels = labels;
        config_histogram_quantiles = hs;
        config_timer_quantiles = ts;
      })
        ≡ record {
          labels = with_labels labels [];
          histogram_quantiles = quantiles_or_default hs;
          timer_quantiles = quantiles_or_default ts;
        }
  unfolding new_handler with_labels
  new_handler_eq [] [] [] = refl
  new_handler_eq [] [] (t ∷ ts) = refl
  new_handler_eq [] (h ∷ hs) [] = refl
  new_handler_eq [] (h ∷ hs) (t ∷ ts) = refl
  new_handler_eq (l ∷ labels) [] [] = refl
  new_handler_eq (l ∷ labels) [] (t ∷ ts) = refl
  new_handler_eq (l ∷ labels) (h ∷ hs) [] = refl
  new_handler_eq (l ∷ labels) (h ∷ hs) (t ∷ ts) = refl

abbrev pub desc_of : {F : Type 0} → Sent F → Desc
desc_of (Sent.untyped d v) = d
desc_of (Sent.gauge d v) = d
desc_of (Sent.summary d n v qs) = d

-- What describes a metric that the registry holds under a name: its own labels over the configured
-- ones, and its sanitized name, with a suffix or without.
abbrev pub IsDescribed : Labels → Text → Desc → Type 0
IsDescribed given full_name d =
    ((j : Text)
      → lookup j d.labels
        ≡ or_else (lookup j (labels_from_name full_name).1) (lookup j (with_labels given [])))
    × ((d.fq_name ≡ (labels_from_name full_name).0)
        ⊎ ((suffix : Text) × (d.fq_name ≡ (labels_from_name full_name).0 ++ b'_' ∷ suffix)))

desc_from_name-IsDescribed :
    (given : Labels) (full_name help suffix : Text)
    → IsDescribed given full_name (desc_from_name (with_labels given []) full_name help suffix)
desc_from_name-IsDescribed given full_name help suffix = (
  λ j. desc_from_name-labels (with_labels given []) full_name help suffix j,
  elim (Bool-cases (text_eq suffix [])) [
    | inl e ↦ inl (unfold desc_from_name in rw e refl)
    | inr e ↦ inr (suffix, unfold desc_from_name in rw e refl)
  ],
)

module _ (floats : Floats) where
  open floats use {Float}

  collect_value-All :
      (P : Desc → Type 0) (c : Collector floats) (desc : Text → Text → Desc) (v : Value Float)
      → ((help suffix : Text) → P (desc help suffix))
      → All (λ s. P (desc_of s)) (collect_value floats c desc v)
  unfolding collect_value
  collect_value-All P c desc (Value.counter v) h = (h _ _, _)
  collect_value-All P c desc (Value.gauge v) h = (h _ _, _)
  collect_value-All P c desc (Value.gauge_float64 v) h = (h _ _, _)
  collect_value-All P c desc (Value.histogram ms) h = (h _ _, (h _ _, (h _ _, _)))
  collect_value-All P c desc (Value.meter ms) h = (h _ _, _)
  collect_value-All P c desc (Value.timer ms) h = (h _ _, (h _ _, (h _ _, _)))
  collect_value-All P c desc Value.other h = _

  -- The metric sent is described as that of one of the entries.
  abbrev pub ComesFrom : Labels → List (Text × Value Float) → Sent Float → Type 0
  ComesFrom given [] s = ⊥
  ComesFrom given ((name, v) ∷ entries) s =
      IsDescribed given name (desc_of s) ⊎ ComesFrom given entries s

  collect-ComesFrom :
      (given : Labels) (hs ts : List Float) (entries : List (Text × Value Float))
      → All (ComesFrom given entries) (
          collect floats
            (record {
              labels = with_labels given [];
              histogram_quantiles = hs;
              timer_quantiles = ts;
            })
            entries)
  unfolding collect
  collect-ComesFrom given hs ts [] = _
  collect-ComesFrom given hs ts ((name, v) ∷ entries) =
      let c : Collector floats = record {
        labels = with_labels given [];
        histogram_quantiles = hs;
        timer_quantiles = ts;
      } in
      let P = ComesFrom given ((name, v) ∷ entries) in
      All-append P (collect_value floats c (desc_from_name (with_labels given []) name) v)
        (collect floats c entries)
        (All-map (λ s. IsDescribed given name (desc_of s)) P
          (collect_value floats c (desc_from_name (with_labels given []) name) v) (λ s p. inl p)
          (collect_value-All (IsDescribed given name) c (desc_from_name (with_labels given []) name)
            v (desc_from_name-IsDescribed given name)))
        (All-map (ComesFrom given entries) P (collect floats c entries) (λ s p. inr p)
          (collect-ComesFrom given hs ts entries))

  -- Whatever the registry holds, each metric that the collector of NewHandler sends is described as
  -- one of the registry's entries: a label has the value that the name of the entry gives it, if any,
  -- and else the value of the configured label, if any; and the metric's name is the sanitized name
  -- of the entry, alone or with a suffix behind an underscore.
  pub collect-new_handler :
      (config : Config floats) (entries : List (Text × Value Float))
      → All
          (ComesFrom config.config_labels entries)
          (collect floats (new_handler floats config) entries)
  collect-new_handler config entries =
      subst (λ c. All (ComesFrom config.config_labels entries) (collect floats c entries))
        (sym (
          new_handler_eq floats config.config_labels config.config_histogram_quantiles
            config.config_timer_quantiles))
        (collect-ComesFrom config.config_labels
          (quantiles_or_default floats config.config_histogram_quantiles)
          (quantiles_or_default floats config.config_timer_quantiles) entries)
