-- ===== src/Tests/Emitting.antt =====
-- What the emitters send.
use go_baseapp.Appmetrics.Emitter.Datadog.Running.{
  Config, start_emitter, start_emitter_lem, tick, context_done, waiting, returned, ticker_panic,
  emit, reached,
}
use go_baseapp.Appmetrics.Emitter.Prometheus.Handler
use go_baseapp.Appmetrics.Emitter.Prometheus.Handler.{new_handler, ComesFrom, collect-new_handler}
use go_baseapp.Appmetrics.Emitter.Prometheus.{collect, sanitize}
use go_baseapp.Text.Numbers.{pos, negsuc}
use go_baseapp.Appmetrics.Registry.{Registry, Metric, Kind, kind_eq}
use go_baseapp.Appmetrics.Emitter.Reported.{tags_from_name-tag}
use go_baseapp.Tests.Providers.{list_registry}
use go_baseapp.Appmetrics.Tags.{TaggedMetric, tag}
use go_baseapp.Prelude.{
  ℕ, ◌≡◌, refl, ◌≢◌, ◌↔◌, false, List, [], ◌∷◌, map, reverse, arith, some, true, if◌then◌else◌,
  none, All, Option, inl, ◌++◌,
}
use go_baseapp.Text.{Text, codes, index_rune, last_is, text_eq, split, text_le, sort_strings, join}
use go_baseapp.Text.Dict.{lookup, insert}
use go_baseapp.Tests.Providers.{counting_floats}
use go_baseapp.Appmetrics.Values.{Value, sub_int64}
use go_baseapp.Appmetrics.Tags.{tag_name, clean_and_sort_tags}
use go_baseapp.Appmetrics.Emitter.Datadog.{tags_from_name, emit_rounds, counter_key, last_value}
use go_baseapp.Appmetrics.Emitter.Datadog.RoundTrip.{tags_from_name-tag_name}
use go_baseapp.Appmetrics.Emitter.Datadog.Totals.{key_of, reported, reported-emit_rounds}
use go_baseapp.Appmetrics.Emitter.Prometheus.{
  Labels, labels_from_name, sanitize_name, sanitize_label, with_labels, valid_in_name,
}
use go_baseapp.Appmetrics.Emitter.Prometheus.Sanitizing.{
  sanitize_name-IsMetricName, IsMetricName, IsNoDigit, first_valid, IsTidy, sanitize-IsTidy,
}
use go_baseapp.Appmetrics.Emitter.Prometheus.Labelling.{
  labels_from_name-tag_name, with_labels-collision, label_of,
}

abbrev two_tags : List Text
two_tags = codes "b:2" ∷ codes "a" ∷ []

tags_from_name-tag_name_example :
    tags_from_name (tag_name (codes "m") two_tags) ≡ (codes "m", clean_and_sort_tags two_tags)
tags_from_name-tag_name_example =
    tags_from_name-tag_name (codes "m") two_tags (omega arith) (omega arith)

emitting : Unit {0}
unfolding tags_from_name index_rune last_is split sort_strings counter_key join emit_rounds lookup
    insert sub_int64
emitting = tt

abbrev entry : Text → ℕ → Text × Value ℕ
entry name v = (name, Value.counter v)

-- Two counters whose names differ in the order of their tags share one key: 5 + 2 are counted, and
-- the differences sent add up to 2, the value of the counter that comes last.
shared_key_test :
    reported
      (key_of (codes "m[a,b]"))
      (emit_rounds counting_floats 1
        ((entry (codes "m[a,b]") 5 ∷ entry (codes "m[b,a]") 2 ∷ []) ∷ [])
        []).1
    ≡ 2
unfolding emitting reported key_of last_value text_eq text_le
shared_key_test = refl

reported-emit_rounds_example :
    reported
      (key_of (codes "m[b,a]"))
      (emit_rounds counting_floats 1
        ((entry (codes "m[b,a]") 3 ∷ [])
          ∷ (entry (codes "m[a,b]") 5 ∷ entry (codes "m[b,a]") 4 ∷ [])
          ∷ [])
        []).1
    ≡ 4
reported-emit_rounds_example =
    reported-emit_rounds counting_floats 1 ((entry (codes "m[b,a]") 3 ∷ []) ∷ [])
      (entry (codes "m[a,b]") 5 ∷ []) [] (codes "m[b,a]") 4 (omega arith) tt

labels_from_name-tag_name_example :
    ((labels_from_name (tag_name (codes "m") two_tags)).0 ≡ sanitize_name (codes "m"))
    × ((j : Text)
        → lookup j (labels_from_name (tag_name (codes "m") two_tags)).1
          ≡ lookup j (reverse (map label_of (clean_and_sort_tags two_tags))))
labels_from_name-tag_name_example =
    labels_from_name-tag_name (codes "m") two_tags (omega arith) (omega arith)

abbrev globals : Labels
globals = (codes "role", codes "server") ∷ []

underscore_invalid : valid_in_name b'_' ≡ false
unfolding valid_in_name
underscore_invalid = refl

sanitize_test : sanitize_name (codes "> invalid names! ~~fun~~ ") ≡ codes "invalid_names_fun_"
unfolding sanitize_name
sanitize_test = refl

sanitize_name-IsMetricName_example :
    IsMetricName (sanitize_name (codes "2xx")) ↔ IsNoDigit (first_valid valid_in_name (codes "2xx"))
sanitize_name-IsMetricName_example = sanitize_name-IsMetricName (codes "2xx")

same_label : sanitize_label (codes "a.b") ≡ sanitize_label (codes "a-b")
unfolding sanitize_label
same_label = refl

with_labels-collision_example :
    lookup
      (sanitize_label (codes "a.b"))
      (with_labels ((codes "a.b", codes "") ∷ (codes "a-b", codes "2") ∷ []) [])
    ≢ lookup
        (sanitize_label (codes "a.b"))
        (with_labels ((codes "a-b", codes "2") ∷ (codes "a.b", codes "") ∷ []) [])
with_labels-collision_example =
    with_labels-collision (codes "a.b") (codes "a-b") (codes "") (codes "2") same_label (λ h. cc)

abbrev attached_meter : TaggedMetric
attached_meter = record { attached = true; name = codes "m"; kind = Kind.meter }

abbrev new_meter : Metric
new_meter = record { kind = Kind.meter; id = 4 }

tags_from_name-tag_example :
    (n : Text) × (found : Metric) × (Registry.get list_registry n
        (tag list_registry attached_meter new_meter two_tags []).1
      ≡ some found)
    × ((tag list_registry attached_meter new_meter two_tags []).0
        ≡ (if kind_eq found.kind Kind.meter then some found else none))
    × (tags_from_name n ≡ (codes "m", clean_and_sort_tags two_tags))
    × ((labels_from_name n).0 ≡ sanitize_name (codes "m"))
tags_from_name-tag_example =
    tags_from_name-tag list_registry attached_meter new_meter two_tags [] refl (omega arith)
      (omega arith)

abbrev every_second : Config
every_second = record { address = []; interval = pos 5; tags = [] }

no_client_error : Text → List Text → Option ℕ
no_client_error address tags = none

abbrev a_round : List (Text × Value ℕ)
a_round = entry (codes "m") 5 ∷ []

start_emitter_lem_example :
    (start_emitter counting_floats 1 no_client_error
        (record every_second { interval = pos 0 })
        (a_round ∷ [])
      ≡ inl (reached counting_floats 1 waiting (emit_rounds counting_floats 1 (a_round ∷ []) [])))
    × (start_emitter counting_floats 1 no_client_error
          (record every_second { interval = negsuc 0 })
          (a_round ∷ [])
        ≡ inl (ticker_panic, [], []))
    × (emit counting_floats 1
          (pos 1)
          (map tick (a_round ∷ []) ++ context_done ∷ tick a_round ∷ [])
          ((codes "m", 2) ∷ [])
        ≡ reached counting_floats 1 returned
            (emit_rounds counting_floats 1 (a_round ∷ []) ((codes "m", 2) ∷ [])))
unfolding no_client_error
start_emitter_lem_example =
    start_emitter_lem counting_floats 1 no_client_error every_second (a_round ∷ [])
      (tick a_round ∷ []) 0 ((codes "m", 2) ∷ []) refl

abbrev prometheus_config : Handler.Config counting_floats
prometheus_config = record {
  config_labels = (codes "env", codes "prod") ∷ [];
  config_histogram_quantiles = [];
  config_timer_quantiles = 99 ∷ [];
}

collect-new_handler_example :
    All
      (ComesFrom counting_floats ((codes "env", codes "prod") ∷ []) a_round)
      (collect counting_floats (new_handler counting_floats prometheus_config) a_round)
collect-new_handler_example = collect-new_handler counting_floats prometheus_config a_round

sanitize-IsTidy_example :
    IsTidy valid_in_name false (sanitize (codes "> a  b") valid_in_name)
    × ((sanitize (codes "> a  b") valid_in_name ≡ codes "> a  b")
        ↔ IsTidy valid_in_name false (codes "> a  b"))
sanitize-IsTidy_example = sanitize-IsTidy valid_in_name underscore_invalid (codes "> a  b")
