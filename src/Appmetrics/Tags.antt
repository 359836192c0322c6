-- ===== src/Appmetrics/Tags.antt =====
-- appmetrics/tags.go: tagged metrics and the names that they register under.
pub mod Cleaning
pub mod Naming
pub mod Sharing
use go_baseapp.Prelude.{
  ℕ, ◌+◌, Bool, true, List, [], ◌∷◌, ◌++◌, Option, none, some, ltb, if◌then◌else◌,
}
use go_baseapp.Text.{Text, codes, text_eq, trim_space, sort_strings}
use go_baseapp.Appmetrics.Registry.{Registry, Metric, Kind, kind_eq}

-- The loop of `cleanAndSortTags`.
clean_from : List Text → List Text → List Text
clean_from [] clean = clean
clean_from (t ∷ ts) clean =
    let t' = trim_space t in
    clean_from ts (if text_eq t' (codes "") then clean else clean ++ t' ∷ [])

unfoldable pub clean_and_sort_tags : List Text → List Text
unfolding clean_from
clean_and_sort_tags tags = sort_strings (clean_from tags [])

-- The loop of `Tag` that writes the tags, at index `i`.
write_tags : ℕ → List Text → Text → Text
write_tags i [] name = name
write_tags i (t ∷ ts) name =
    write_tags (i + 1) ts ((if ltb 0 i then name ++ codes "," else name) ++ t)

-- The name with cleaned tags, if there are any.
bracketed : Text → List Text → Text
unfolding write_tags
bracketed base [] = base
bracketed base (t ∷ ts) = write_tags 0 (t ∷ ts) (base ++ codes "[") ++ codes "]"

-- The name that `Tag` looks up.
unfoldable pub tag_name : Text → List Text → Text
unfolding bracketed
tag_name base tags = bracketed base (clean_and_sort_tags tags)

-- taggedMetric: `attached` is `r != nil`, and `kind` is the metric type M.
pub record TaggedMetric : Type 0 where
  pub attached : Bool
  pub name : Text
  pub kind : Kind

module _ (reg : Registry) where
  open reg use {State, get_or_register}

  -- `Tag`. `fresh` is the object that `newMetric` would make; `none` is the panic of the type
  -- assertion `.(M)` on a metric of another type.
  unfoldable pub tag : TaggedMetric → Metric → List Text → State → Option Metric × State
  tag m fresh tags s =
      if m.attached
      then (let (found, s') = get_or_register (tag_name m.name tags) fresh s in
          (if kind_eq found.kind m.kind then some found else none, s'))
      else (some fresh, s)

  -- `taggedMetric.register`: attaches the registry, and registers the bare name.
  unfoldable pub register_tagged : TaggedMetric → Metric → State → TaggedMetric × State
  register_tagged m fresh s = (record m { attached = true }, (get_or_register m.name fresh s).1)
