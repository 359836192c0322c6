-- ===== src/Appmetrics/Structs/Creating/Succeeding.antt =====
-- When New returns.
use mathlib.Core.Path.{subst}
use go_baseapp.Prelude.{
  ◌≡◌, refl, ◌∙◌, ◌≢◌, ◌⊎◌, inl, inr, Bool, true, false, none, some, List, [], ◌∷◌, Option-cases,
  All,
}
use go_baseapp.Text.{Text, text_eq}
use go_baseapp.Appmetrics.Samples.{Parsing, exp_decay, default_reservoir_size}
use go_baseapp.Appmetrics.Structs.{
  StructType, Field, TypeName, counter_type, gauge_type, gauge_float64_type, histogram_type,
  meter_type, timer_type, functional_gauge_type, functional_gauge_float64_type, other_type,
  is_tagged, get_metric_fields, is_metric, is_metric_of, metric_type,
}
use go_baseapp.Appmetrics.Structs.Creating.{
  Maker, Created, made, made_tagged, new_counter, new_gauge, new_gauge_float64, new_meter,
  new_timer, new_histogram, value_of, sampled, value_or_error, created, created_as, can_set,
  set_field, create_field, create_fields, add_value, new_struct, create_all,
}
use go_baseapp.Appmetrics.Structs.Creating.Matching.{AllFit}
use go_baseapp.Appmetrics.Structs.Creating.Making.{new_struct-AllFit, get_metric_fields-All}

-- An exported field without a sample tag that is no functional gauge, and that is not tagged or has
-- an interface with no method besides Tag.
abbrev pub IsPlain : Field → Type 0
IsPlain f =
    (f.is_exported ≡ true)
    × (f.sample_tag ≡ [])
    × ((is_tagged f.field_type ≡ none) ⊎ (f.field_type.has_other_methods ≡ false))
    × (f.field_type.type_name ≢ functional_gauge_type)
    × (f.field_type.type_name ≢ functional_gauge_float64_type)

metric_type-true :
    (ty : TypeName)
    → metric_type false ty ≡ true
    → ty ≢ functional_gauge_type
    → ty ≢ functional_gauge_float64_type
    → metric_type true ty ≡ true
unfolding metric_type
metric_type-true counter_type h a b = refl
metric_type-true gauge_type h a b = refl
metric_type-true gauge_float64_type h a b = refl
metric_type-true histogram_type h a b = refl
metric_type-true meter_type h a b = refl
metric_type-true timer_type h a b = refl
metric_type-true functional_gauge_type h a b = absurd (a refl)
metric_type-true functional_gauge_float64_type h a b = absurd (b refl)
metric_type-true other_type h a b = h

module _ (p : Parsing) where
  open p use {Float, default_exp_decay_alpha}

  created-value_of :
      (t : StructType) (f : Field) (b : Bool) (ty : TypeName)
      → metric_type true ty ≡ true
      → f.sample_tag ≡ []
      → (m : Maker Float) × (created p t f b ty ≡ inl (value_of p b f.metric_tag m))
  unfolding metric_type created sampled value_or_error text_eq
  created-value_of t f b counter_type h e = (new_counter, refl)
  created-value_of t f b gauge_type h e = (new_gauge, refl)
  created-value_of t f b gauge_float64_type h e = (new_gauge_float64, refl)
  created-value_of t f b histogram_type h e =
      (new_histogram (exp_decay default_reservoir_size default_exp_decay_alpha), rw e refl)
  created-value_of t f b meter_type h e = (new_meter, refl)
  created-value_of t f b timer_type h e = (new_timer, rw e refl)
  created-value_of t f b functional_gauge_type h e = cc
  created-value_of t f b functional_gauge_float64_type h e = cc
  created-value_of t f b other_type h e = cc

  create_field_untagged :
      (t : StructType) (f : Field)
      → is_metric f.field_type ≡ true
      → IsPlain f
      → is_tagged f.field_type ≡ none
      → (v : Created Float) × (create_field p t f ≡ inl v)
  unfolding create_field is_metric is_metric_of created_as set_field can_set value_of
  create_field_untagged t f h (x, e, _, a, b) none_tagged =
      let is : metric_type false f.field_type.type_name ≡ true =
        subst (λ o. is_metric_of o f.field_type.type_name ≡ true) none_tagged h in
      let (m, q) =
        created-value_of t f false f.field_type.type_name (metric_type-true _ is a b) e in
      (made m, rw (none_tagged, q, x) refl)

  create_field_tagged :
      (t : StructType) (f : Field) (ty : TypeName)
      → is_metric f.field_type ≡ true
      → IsPlain f
      → is_tagged f.field_type ≡ some ty
      → (v : Created Float) × (create_field p t f ≡ inl v)
  unfolding create_field is_metric is_metric_of created_as set_field can_set value_of
  create_field_tagged t f ty h (x, e, inl n, a, b) tagged = cc
  create_field_tagged t f ty h (x, e, inr o, a, b) tagged =
      let is : metric_type true ty ≡ true =
        subst (λ o. is_metric_of o f.field_type.type_name ≡ true) tagged h in
      let (m, q) = created-value_of t f true ty is e in
      (made_tagged f.metric_tag m, rw (tagged, q, x, o) refl)

  create_field-IsPlain :
      (t : StructType) (f : Field)
      → is_metric f.field_type ≡ true
      → IsPlain f
      → (v : Created Float) × (create_field p t f ≡ inl v)
  create_field-IsPlain t f h plain = elim (Option-cases (is_tagged f.field_type)) [
    | inl none_tagged ↦ create_field_untagged t f h plain none_tagged
    | inr (ty, tagged) ↦ create_field_tagged t f ty h plain tagged
  ]

  create_fields-IsPlain :
      (t : StructType) (fs : List Field)
      → All (λ f. is_metric f.field_type ≡ true) fs
      → All IsPlain fs
      → (vs : List (Text × Created Float)) × (create_fields p t fs ≡ inl vs)
  unfolding create_fields add_value
  create_fields-IsPlain t [] h plain = ([], refl)
  create_fields-IsPlain t (f ∷ fs) (m, h) (plain, plains) =
      let (v, e) = create_field-IsPlain t f m plain in
      let (vs, es) = create_fields-IsPlain t fs h plains in ((f.name, v) ∷ vs, rw (e, es) refl)

  -- New returns for every struct whose metric fields are valid, exported, not functional gauges and
  -- without sample tags, where an interface of a tagged field has no method besides Tag; and then
  -- each of these fields has a value that fits its type and its name.
  pub new_struct-IsPlain :
      (t : StructType) (fs : List Field)
      → t.is_struct ≡ true
      → get_metric_fields t.fields ≡ inl fs
      → All IsPlain fs
      → (vs : List (Text × Created Float)) × (new_struct p t ≡ inl vs) × AllFit fs vs
  unfolding new_struct create_all
  new_struct-IsPlain t fs y e plain =
      let (vs, made_all) = create_fields-IsPlain t fs (get_metric_fields-All t.fields fs e) plain in
      let unfolded : new_struct p t ≡ create_fields p t fs = rw (y, e) refl in
      let done = unfolded ∙ made_all in (vs, done, new_struct-AllFit p t fs vs e done)
