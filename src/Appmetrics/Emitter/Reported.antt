-- ===== src/Appmetrics/Emitter/Reported.antt =====
-- From Tag to the emitters: a tagged metric is found in the registry under a name that the emitters
-- take apart into the bare name and the tags.
use go_baseapp.Prelude.{◌≡◌, refl, true, none, some, List, if◌then◌else◌, All}
use go_baseapp.Text.{Text, Lacks}
use go_baseapp.Text.Equality.{text_eq_refl}
use go_baseapp.Appmetrics.Registry.{Registry, Metric, kind_eq, found_or}
use go_baseapp.Appmetrics.Tags.{TaggedMetric, tag, tag_name, clean_and_sort_tags}
use go_baseapp.Appmetrics.Emitter.Datadog.{tags_from_name}
use go_baseapp.Appmetrics.Emitter.Datadog.RoundTrip.{tags_from_name-tag_name}
use go_baseapp.Appmetrics.Emitter.Prometheus.{labels_from_name, sanitize_name}
use go_baseapp.Appmetrics.Emitter.Prometheus.Labelling.{labels_from_name-tag_name}

module _ (reg : Registry) where
  open reg use {State, get, get_or_register_value, get-get_or_register}

  -- When a tagged metric is attached to a registry, its bare name holds no opening bracket and no tag
  -- holds a comma, then after Tag the registry holds, under one name, the object that Tag has
  -- asserted to be of the metric's type; from that name the Datadog emitter reads the bare name and
  -- the cleaned and sorted tags, and the Prometheus collector the sanitized bare name.
  pub tags_from_name-tag :
      (m : TaggedMetric) (fresh : Metric) (ts : List Text) (s : State)
      → m.attached ≡ true
      → Lacks b'[' m.name
      → All (Lacks b',') ts
      → (n : Text) × (found : Metric) × (get n (tag reg m fresh ts s).1 ≡ some found)
        × ((tag reg m fresh ts s).0 ≡ (if kind_eq found.kind m.kind then some found else none))
        × (tags_from_name n ≡ (m.name, clean_and_sort_tags ts))
        × ((labels_from_name n).0 ≡ sanitize_name m.name)
  unfolding tag
  tags_from_name-tag m fresh ts s on free clean =
      let n = tag_name m.name ts in
      (
        n,
        found_or (get n s) fresh,
        rw (on, get-get_or_register n n fresh s, text_eq_refl n) refl,
        rw (on, get_or_register_value n fresh s) refl,
        tags_from_name-tag_name m.name ts free clean,
        (labels_from_name-tag_name m.name ts free clean).0,
      )
