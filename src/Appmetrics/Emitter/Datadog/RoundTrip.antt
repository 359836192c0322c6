-- ===== src/Appmetrics/Emitter/Datadog/RoundTrip.antt =====
-- The tags that a tagged metric registers under are the tags that the emitter reports.
use mathlib.Core.List.{cons-ne-nil}
use go_baseapp.Prelude.{◌≡◌, refl, ◌∙◌, ap, List, [], ◌∷◌, ◌++◌, All, take-length-append}
use go_baseapp.Text.{Text, split, join, Lacks, sort_strings}
use go_baseapp.Text.Splitting.{split-join, index_rune-Lacks, index_rune-append}
use go_baseapp.Text.Brackets.{last_is_inside, slice_inside}
use go_baseapp.Text.Sorting.{sort_strings_of_IsSorted, IsSorted}
use go_baseapp.Appmetrics.Tags.{tag_name, clean_and_sort_tags}
use go_baseapp.Appmetrics.Tags.Cleaning.{clean_and_sort_tags-IsSorted, clean_and_sort_tags-Lacks}
use go_baseapp.Appmetrics.Tags.Naming.{tag_name-nil, tag_name-cons}
use go_baseapp.Appmetrics.Emitter.Datadog.{tags_at, tags_from_name}

tags_from_name-brackets :
    (base inner : Text)
    → Lacks b'[' base
    → tags_from_name (base ++ b'[' ∷ (inner ++ b']' ∷ [])) ≡ (base, sort_strings (split inner b','))
unfolding tags_from_name
tags_from_name-brackets base inner h =
    let name = base ++ b'[' ∷ (inner ++ b']' ∷ []) in
    ap (tags_at name) (index_rune-append base (inner ++ b']' ∷ []) b'[' h)
    ∙ rw (
      last_is_inside base inner b'[' b']',
      slice_inside base inner b'[' b']',
      take-length-append base (b'[' ∷ (inner ++ b']' ∷ [])),
    )

tags_from_name-Lacks : (name : Text) → Lacks b'[' name → tags_from_name name ≡ (name, [])
unfolding tags_from_name
tags_from_name-Lacks name h = ap (tags_at name) (index_rune-Lacks name b'[' h)

tags_from_name-list :
    (base : Text) (tags ts : List Text)
    → Lacks b'[' base
    → clean_and_sort_tags tags ≡ ts
    → All (Lacks b',') ts
    → IsSorted ts
    → tags_from_name (tag_name base tags) ≡ (base, ts)
tags_from_name-list base tags [] h e _ _ =
    rw (tag_name-nil base tags e) (tags_from_name-Lacks base h)
tags_from_name-list base tags (t ∷ ts) h e commas sorted = rw (
  tag_name-cons base tags t ts e,
  tags_from_name-brackets base (join (t ∷ ts) b',') h,
  split-join (t ∷ ts) b',' (cons-ne-nil t ts) commas,
  sort_strings_of_IsSorted (t ∷ ts) sorted,
)

-- If the bare name holds no opening bracket and no tag holds a comma, the emitter reads from the
-- name of a tagged metric the bare name, and as tags exactly the cleaned and sorted tags.
pub tags_from_name-tag_name :
    (base : Text) (tags : List Text)
    → Lacks b'[' base
    → All (Lacks b',') tags
    → tags_from_name (tag_name base tags) ≡ (base, clean_and_sort_tags tags)
tags_from_name-tag_name base tags h commas =
    tags_from_name-list base tags (clean_and_sort_tags tags) h refl
      (clean_and_sort_tags-Lacks b',' tags commas) (clean_and_sort_tags-IsSorted tags)
