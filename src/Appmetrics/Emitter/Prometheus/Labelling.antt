-- ===== src/Appmetrics/Emitter/Prometheus/Labelling.antt =====
-- The labels of a metric: which of several values a label has.
use go_baseapp.Text.Brackets.{last_is_inside, slice_inside}
use go_baseapp.Text.Splitting.{index_rune-append, index_rune-Lacks, split-join}
use mathlib.Core.List.{reverse-cons, cons-ne-nil}
use go_baseapp.Appmetrics.Tags.Naming.{tag_name-nil, tag_name-cons}
use go_baseapp.Appmetrics.Tags.{clean_and_sort_tags, tag_name}
use go_baseapp.Appmetrics.Tags.Cleaning.{
  IsClean, clean_and_sort_tags-Lacks, clean_and_sort_tags-IsClean,
}
use go_baseapp.Text.Equality.{text_eq_iff, text_eq_refl}
use go_baseapp.Text.Trimming.{IsTrimmed, trim_space_of_IsTrimmed}
use go_baseapp.Text.Dict.{lookup, insert, lookup-insert}
use go_baseapp.Prelude.{
  ◌≡◌, Option, List, if◌then◌else◌, none, some, sym, ◌++◌, All, refl, arith, reverse, map, ◌∷◌, [],
  ap, ◌∙◌, ◌≢◌, take-length-append,
}
use go_baseapp.Text.{Text, cut, text_eq, Lacks, split, join}
use go_baseapp.Appmetrics.Emitter.Prometheus.{
  Labels, add_global, desc_from_name, label_loop, set_missing, set_pair, labels_from_name,
  sanitize_label, with_labels, sanitize_name, labels_at,
}

-- The first value if there is one, else the second.
abbrev pub or_else : Option Text → Option Text → Option Text
or_else (some v) w = some v
or_else none w = w

or_else-none : (o : Option Text) → or_else o none ≡ o
or_else-none none = refl
or_else-none (some v) = refl

lookup-set_missing :
    (k j v : Text) (labels : Labels)
    → lookup j (set_missing k v (lookup k labels) labels)
      ≡ or_else (lookup j labels) (if text_eq k j then some v else none)
unfolding set_missing
lookup-set_missing k j v labels = ground (arith, text_eq_iff k j, lookup-insert k j v labels)

lookup-add_global :
    (j : Text) (globals labels : Labels)
    → lookup j (add_global globals labels) ≡ or_else (lookup j labels) (lookup j globals)
unfolding add_global lookup
lookup-add_global j [] labels = sym (or_else-none _)
lookup-add_global j ((k, v) ∷ globals) labels =
    unfold lookup in
    ground (
      arith,
      lookup-add_global j globals (set_missing k v (lookup k labels) labels),
      lookup-set_missing k j v labels,
    )

-- A label of a description has the value that the metric's own name gives it, if any, and else the
-- global label's value, if any, whatever the order in which the global labels are enumerated and
-- whatever suffix the name takes.
pub desc_from_name-labels :
    (globals : Labels) (full_name help suffix j : Text)
    → lookup j (desc_from_name globals full_name help suffix).labels
      ≡ or_else (lookup j (labels_from_name full_name).1) (lookup j globals)
unfolding desc_from_name
desc_from_name-labels globals full_name help suffix j =
    lookup-add_global j globals (labels_from_name full_name).1

-- The label that a tag stands for.
pair_of : Text → Option (Text × Text) → Text × Text
pair_of tag none = (sanitize_label tag, tag)
pair_of tag (some (key, value)) = (sanitize_label key, value)

pub label_of : Text → Text × Text
unfolding pair_of
label_of tag = pair_of tag (cut tag b':')

set_pair-pair_of :
    (tag : Text) (o : Option (Text × Text)) (labels : Labels)
    → set_pair tag o labels ≡ insert (pair_of tag o).0 (pair_of tag o).1 labels
unfolding set_pair pair_of
set_pair-pair_of tag none labels = refl
set_pair-pair_of tag (some (key, value)) labels = refl

lookup-append : (j : Text) (m n : Labels) → lookup j (m ++ n) ≡ or_else (lookup j m) (lookup j n)
unfolding lookup
lookup-append j [] n = refl
lookup-append j ((k, v) ∷ m) n = ground (arith, lookup-append j m n)

lookup-set_pair :
    (j tag : Text) (labels : Labels)
    → lookup j (set_pair tag (cut tag b':') labels)
      ≡ or_else (lookup j (label_of tag ∷ [])) (lookup j labels)
unfolding label_of lookup
lookup-set_pair j tag labels =
    ap (lookup j) (set_pair-pair_of tag (cut tag b':') labels)
    ∙ lookup-insert (pair_of tag (cut tag b':')).0 j (pair_of tag (cut tag b':')).1 labels
    ∙ ground arith

or_else_assoc : (a b c : Option Text) → or_else (or_else a b) c ≡ or_else a (or_else b c)
or_else_assoc none b c = refl
or_else_assoc (some v) b c = refl

lookup-label_loop :
    (j : Text) (tags : List Text) (labels : Labels)
    → All IsTrimmed tags
    → lookup j (label_loop tags labels)
      ≡ or_else (lookup j (reverse (map label_of tags))) (lookup j labels)
unfolding label_loop
lookup-label_loop j [] labels h = unfold lookup in refl
lookup-label_loop j (tag ∷ tags) labels (trimmed, h) =
    ap (λ p. lookup j (label_loop tags (set_pair p (cut p b':') labels)))
      (trim_space_of_IsTrimmed tag trimmed)
    ∙ lookup-label_loop j tags (set_pair tag (cut tag b':') labels) h
    ∙ ap (or_else (lookup j (reverse (map label_of tags)))) (lookup-set_pair j tag labels)
    ∙ sym (or_else_assoc (lookup j (reverse (map label_of tags))) _ _)
    ∙ ap (λ o. or_else o (lookup j labels))
        (sym (lookup-append j (reverse (map label_of tags)) (label_of tag ∷ []))
          ∙ ap (lookup j) (sym (reverse-cons (label_of tag) (map label_of tags))))

labels_from_name-brackets :
    (base inner : Text)
    → Lacks b'[' base
    → labels_from_name (base ++ b'[' ∷ (inner ++ b']' ∷ []))
      ≡ (sanitize_name base, label_loop (split inner b',') [])
unfolding labels_from_name
labels_from_name-brackets base inner h =
    let name = base ++ b'[' ∷ (inner ++ b']' ∷ []) in
    ap (labels_at name) (index_rune-append base (inner ++ b']' ∷ []) b'[' h)
    ∙ rw (
      last_is_inside base inner b'[' b']',
      slice_inside base inner b'[' b']',
      take-length-append base (b'[' ∷ (inner ++ b']' ∷ [])),
    )

labels_from_name-Lacks :
    (name : Text) → Lacks b'[' name → labels_from_name name ≡ (sanitize_name name, [])
unfolding labels_from_name
labels_from_name-Lacks name h = ap (labels_at name) (index_rune-Lacks name b'[' h)

labels_from_name-list :
    (base : Text) (tags ts : List Text)
    → Lacks b'[' base
    → clean_and_sort_tags tags ≡ ts
    → All (Lacks b',') ts
    → labels_from_name (tag_name base tags) ≡ (sanitize_name base, label_loop ts [])
unfolding label_loop
labels_from_name-list base tags [] h e _ =
    rw (tag_name-nil base tags e) (labels_from_name-Lacks base h)
labels_from_name-list base tags (t ∷ ts) h e commas = rw (
  tag_name-cons base tags t ts e,
  labels_from_name-brackets base (join (t ∷ ts) b',') h,
  split-join (t ∷ ts) b',' (cons-ne-nil t ts) commas,
)

All-IsTrimmed : (ts : List Text) → All IsClean ts → All IsTrimmed ts
All-IsTrimmed [] h = tt
All-IsTrimmed (t ∷ ts) ((_, p), h) = (p, All-IsTrimmed ts h)

-- If the bare name holds no opening bracket and no tag holds a comma, then the collector reads from
-- the name of a tagged metric the sanitized bare name, and each label has the value that the last
-- cleaned and sorted tag with that label gives: what stands behind the first colon of the tag, or
-- the whole tag if it has no colon.
pub labels_from_name-tag_name :
    (base : Text) (tags : List Text)
    → Lacks b'[' base
    → All (Lacks b',') tags
    → ((labels_from_name (tag_name base tags)).0 ≡ sanitize_name base)
      × ((j : Text)
          → lookup j (labels_from_name (tag_name base tags)).1
            ≡ lookup j (reverse (map label_of (clean_and_sort_tags tags))))
unfolding lookup
labels_from_name-tag_name base tags h commas =
    let ts = clean_and_sort_tags tags in
    let e =
      labels_from_name-list base tags ts h refl (clean_and_sort_tags-Lacks b',' tags commas) in
    (
      ap (λ p. p.0) e,
      λ j.
          ap (λ p. lookup j p.1) e
          ∙ lookup-label_loop j ts [] (All-IsTrimmed ts (clean_and_sort_tags-IsClean tags))
          ∙ or_else-none _,
    )

-- Two configured label names that are sanitized to one label: its value depends on the order in
-- which the map of configured labels is enumerated, and with two different values the two orders
-- give different labels.
pub with_labels-collision :
    (k k' v v' : Text)
    → sanitize_label k ≡ sanitize_label k'
    → v ≢ v'
    → lookup (sanitize_label k) (with_labels ((k, v) ∷ (k', v') ∷ []) [])
      ≢ lookup (sanitize_label k) (with_labels ((k', v') ∷ (k, v) ∷ []) [])
unfolding with_labels lookup insert
with_labels-collision k k' v v' e n =
    rw e
      (rw (text_eq_refl (sanitize_label k')) (rw (text_eq_refl (sanitize_label k')) (λ h. n (cc))))
