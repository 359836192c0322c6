-- ===== src/Tests/Metrics.antt =====
-- Tagged metrics and the emitters' names.
use mathlib.Core.List.{Perm}
use mathlib.Core.List.Perm
use go_baseapp.Prelude.{ℕ, ◌≡◌, refl, true, List, [], ◌∷◌, All}
use go_baseapp.Text.{Text, codes, trim_space, is_space, text_eq, sort_strings, text_le}
use go_baseapp.Tests.Providers.{list_registry}
use go_baseapp.Appmetrics.Registry.{Metric, Kind}
use go_baseapp.Appmetrics.Tags.{TaggedMetric, tag, tag_name, clean_and_sort_tags}
use go_baseapp.Appmetrics.Tags.Cleaning.{clean, IsClean, clean_and_sort_tags_lem}
use go_baseapp.Appmetrics.Tags.Sharing.{tag-tag}
use go_baseapp.Text.Sorting.{IsSorted}

abbrev tags_ab : List Text
tags_ab = codes " b:2 " ∷ codes "a" ∷ []

abbrev tags_ba : List Text
tags_ba = codes "a" ∷ codes " b:2 " ∷ []

tags_swapped : Perm tags_ab tags_ba
tags_swapped = Perm.swap (codes "a") (codes " b:2 ") []

tag_name_test : tag_name (codes "m") (codes " " ∷ tags_ab) ≡ codes "m[a,b:2]"
unfolding tag_name clean_and_sort_tags trim_space is_space text_eq sort_strings text_le
tag_name_test = refl

abbrev attached_counter : TaggedMetric
attached_counter = record { attached = true; name = codes "m"; kind = Kind.counter }

abbrev counter_of : ℕ → Metric
counter_of id = record { kind = Kind.counter; id = id }

tag-tag_example :
    (tag list_registry attached_counter
      (counter_of 2)
      tags_ba
      (tag list_registry attached_counter (counter_of 1) tags_ab []).1).0
    ≡ (tag list_registry attached_counter (counter_of 1) tags_ab []).0
tag-tag_example =
    tag-tag list_registry attached_counter (counter_of 1) (counter_of 2) tags_ab tags_ba [] refl
      tags_swapped

clean_and_sort_tags_lem_example :
    IsSorted (clean_and_sort_tags tags_ab)
    × All IsClean (clean_and_sort_tags tags_ab)
    × Perm (clean_and_sort_tags tags_ab) (clean tags_ab)
clean_and_sort_tags_lem_example = clean_and_sort_tags_lem tags_ab
