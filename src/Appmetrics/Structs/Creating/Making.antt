-- ===== src/Appmetrics/Structs/Creating/Making.antt =====
-- What New makes of a struct.
use go_baseapp.Prelude.{
  ◌≡◌, refl, sym, ◌∙◌, ◌⊎◌, inl, inr, true, List, [], ◌∷◌, Bool-cases, if_ind, All,
}
use go_baseapp.Text.{Text, text_eq}
use go_baseapp.Appmetrics.Samples.{Parsing}
use go_baseapp.Appmetrics.Structs.{StructType, Field, get_metric_fields, is_metric}
use go_baseapp.Appmetrics.Structs.Creating.{
  Created, new_struct, create_fields, create_all, not_a_struct,
}
use go_baseapp.Appmetrics.Structs.Creating.Matching.{
  OnValue, OnValue-inl, AllFit, create_fields-AllFit,
}

found-is_metric :
    (f : Field) (r : List Field ⊎ Text)
    → is_metric f.field_type ≡ true
    → OnValue (All (λ f. is_metric f.field_type ≡ true)) r
    → OnValue
        (All (λ f. is_metric f.field_type ≡ true))
        (elim r [ inl found ↦ inl (f ∷ found) | inr e ↦ inr e ])
found-is_metric f (inl found) m h = (m, h)
found-is_metric f (inr e) m h = _

-- The metric fields are fields that isMetric accepts.
get_metric_fields-is_metric :
    (fs : List Field) → OnValue (All (λ f. is_metric f.field_type ≡ true)) (get_metric_fields fs)
unfolding get_metric_fields
get_metric_fields-is_metric [] = _
get_metric_fields-is_metric (f ∷ fs) =
    let rest = get_metric_fields-is_metric fs in
    if_ind (OnValue (All (λ f. is_metric f.field_type ≡ true))) (text_eq f.metric_tag []) rest
      (elim (Bool-cases (is_metric f.field_type)) [
        | inl m ↦ rw m (found-is_metric f (get_metric_fields fs) m rest)
        | inr m ↦ rw m _
      ])

pub get_metric_fields-All :
    (fields fs : List Field)
    → get_metric_fields fields ≡ inl fs
    → All (λ f. is_metric f.field_type ≡ true) fs
get_metric_fields-All fields fs e =
    OnValue-inl (All (λ f. is_metric f.field_type ≡ true)) (get_metric_fields fields) fs
      (get_metric_fields-is_metric fields) e

-- If New returns, each metric field, in order, is exported and holds a metric of the field's type or,
-- if the type is a Tagged one, a tagged metric of the type that it is tagged for, under the name that
-- the metric tag gives; no field is left without a value.
pub new_struct-AllFit :
    (p : Parsing) (t : StructType) (fs : List Field) (vs : List (Text × Created (Parsing.Float p)))
    → get_metric_fields t.fields ≡ inl fs
    → new_struct p t ≡ inl vs
    → AllFit fs vs
unfolding new_struct create_all
new_struct-AllFit p t fs vs e h =
    let ms = get_metric_fields-All t.fields fs e in
    elim (Bool-cases t.is_struct) [
      | inl y ↦
          let n : new_struct p t ≡ create_fields p t fs = rw (y, e) refl in
          OnValue-inl (AllFit fs) (create_fields p t fs) vs (create_fields-AllFit p t fs ms)
            (sym n ∙ h)
      | inr y ↦ let n : new_struct p t ≡ inr not_a_struct = rw y refl in cc
    ]
