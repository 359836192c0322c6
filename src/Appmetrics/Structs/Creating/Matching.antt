-- ===== src/Appmetrics/Structs/Creating/Matching.antt =====
-- The values that New sets have the types of their fields.
use mathlib.Core.Path.{subst}
use go_baseapp.Prelude.{
  ◌≡◌, refl, ap, ◌⊎◌, inl, inr, true, false, Option, none, some, List, [], ◌∷◌, arith, Bool-cases,
  if_ind, All,
}
use go_baseapp.Text.{Text, text_eq}
use go_baseapp.Appmetrics.Samples.{Parsing, Sample, parse_sample}
use go_baseapp.Appmetrics.Structs.{
  StructType, Field, TypeName, counter_type, gauge_type, gauge_float64_type, histogram_type,
  meter_type, timer_type, functional_gauge_type, functional_gauge_float64_type, other_type,
  is_tagged, is_metric, is_metric_of, metric_type,
}
use go_baseapp.Appmetrics.Structs.Creating.{
  Maker, new_counter, new_gauge, new_gauge_float64, new_meter, new_timer, new_histogram,
  new_custom_timer, Created, made, made_tagged, functional_gauge, functional_gauge_float64,
  no_value, NewError, GaugeFunction, GaugeError, value_of, sampled, value_or_error, gauge_or_error,
  created, created_as, can_set, set_field, create_field, add_value, create_fields, invalid_sample,
}

-- A property of the value, if there is one.
abbrev pub OnValue : {A E : Type 0} → (A → Type 0) → A ⊎ E → Type 0
OnValue P (inl a) = P a
OnValue P (inr e) = Unit

pub OnValue-inl :
    {A E : Type 0} (P : A → Type 0) (r : A ⊎ E) (a : A) → OnValue P r → r ≡ inl a → P a
OnValue-inl P r a h e = subst (OnValue P) e h

-- The metric interface that a constructor's metric implements.
abbrev pub maker_type : {F : Type 0} → Maker F → TypeName
maker_type new_counter = counter_type
maker_type new_gauge = gauge_type
maker_type new_gauge_float64 = gauge_float64_type
maker_type new_meter = meter_type
maker_type new_timer = timer_type
maker_type (new_histogram s) = histogram_type
maker_type (new_custom_timer s) = timer_type

-- A value for a field of the type `ty` that is tagged for `of`, if for any.
abbrev FitsAs : {F : Type 0} → Option TypeName → TypeName → Text → Created F → Type 0
FitsAs of ty tag (made m) = (of ≡ none) × (ty ≡ maker_type m)
FitsAs of ty tag (made_tagged n m) = (of ≡ some (maker_type m)) × (n ≡ tag)
FitsAs of ty tag (functional_gauge fn) = (of ≡ none) × (ty ≡ functional_gauge_type)
FitsAs of ty tag (functional_gauge_float64 fn) = (of ≡ none) × (ty ≡ functional_gauge_float64_type)
FitsAs of ty tag no_value = ⊥

-- The field is exported and holds the value, a metric of the field's type, or a tagged one of the
-- type that it is tagged for, with the name of the metric tag.
abbrev pub Fits : {F : Type 0} → Field → Text × Created F → Type 0
Fits f (name, v) =
    (name ≡ f.name)
    × (f.is_exported ≡ true)
    × FitsAs (is_tagged f.field_type) f.field_type.type_name f.metric_tag v

abbrev pub AllFit : {F : Type 0} → List Field → List (Text × Created F) → Type 0
AllFit [] [] = Unit
AllFit [] (v ∷ vs) = ⊥
AllFit (f ∷ fs) [] = ⊥
AllFit (f ∷ fs) (v ∷ vs) = Fits f v × AllFit fs vs

module _ (p : Parsing) where
  open p use {Float}

  sampled-maker_type :
      (field sample : Text) (ty : TypeName) (with_sample : Sample Float → Maker Float)
      (default : Maker Float)
      → ((s : Sample Float) → ty ≡ maker_type (with_sample s))
      → ty ≡ maker_type default
      → OnValue (λ m. ty ≡ maker_type m) (sampled p field sample with_sample default)
  unfolding sampled
  sampled-maker_type field sample ty with_sample default h d =
      if_ind (OnValue (λ m. ty ≡ maker_type m)) (text_eq sample []) d
        (elim (parse_sample p sample)
          as (λ r.
            OnValue (λ m. ty ≡ maker_type m)
              (elim r [ inl s ↦ inl (with_sample s) | inr e ↦ inr (invalid_sample field e) ])) [
                | inl s ↦ h s
                | inr e ↦ _
              ])

  value_or_error-FitsAs :
      (ty ty' : TypeName) (tag : Text) (r : Maker Float ⊎ NewError)
      → OnValue (λ m. ty ≡ maker_type m) r
      → OnValue (FitsAs none ty tag) (value_or_error p false tag r)
        × OnValue (FitsAs (some ty) ty' tag) (value_or_error p true tag r)
  unfolding value_or_error value_of
  value_or_error-FitsAs ty ty' tag (inl m) h = ((refl, h), (ap some h, refl))
  value_or_error-FitsAs ty ty' tag (inr e) h = (_, _)

  gauge-FitsAs :
      (P : Created Float → Type 0) (field : Text) (make : GaugeFunction → Created Float)
      (r : GaugeFunction ⊎ GaugeError)
      → ((fn : GaugeFunction) → P (make fn))
      → OnValue P (gauge_or_error p field make r)
  unfolding gauge_or_error
  gauge-FitsAs P field make (inl fn) h = h fn
  gauge-FitsAs P field make (inr e) h = _

  created-FitsAs :
      (t : StructType) (f : Field) (ty : TypeName)
      → metric_type false ty ≡ true
      → OnValue (FitsAs none ty f.metric_tag) (created p t f false ty)
  unfolding created value_of gauge_or_error metric_type
  created-FitsAs t f counter_type h = (refl, refl)
  created-FitsAs t f gauge_type h = (refl, refl)
  created-FitsAs t f gauge_float64_type h = (refl, refl)
  created-FitsAs t f histogram_type h =
      (value_or_error-FitsAs histogram_type histogram_type f.metric_tag _
        (sampled-maker_type f.name f.sample_tag histogram_type new_histogram _ (λ s. refl) refl)).0
  created-FitsAs t f meter_type h = (refl, refl)
  created-FitsAs t f timer_type h =
      (value_or_error-FitsAs timer_type timer_type f.metric_tag _ (
        sampled-maker_type f.name f.sample_tag timer_type new_custom_timer new_timer (λ s. refl)
          refl)).0
  created-FitsAs t f functional_gauge_type h =
      gauge-FitsAs (FitsAs none functional_gauge_type f.metric_tag) f.name functional_gauge _
        (λ fn. (refl, refl))
  created-FitsAs t f functional_gauge_float64_type h =
      gauge-FitsAs (FitsAs none functional_gauge_float64_type f.metric_tag) f.name
        functional_gauge_float64 _ (λ fn. (refl, refl))
  created-FitsAs t f other_type h = cc

  created_tagged-FitsAs :
      (t : StructType) (f : Field) (ty ty' : TypeName)
      → metric_type true ty ≡ true
      → OnValue (FitsAs (some ty) ty' f.metric_tag) (created p t f true ty)
  unfolding created value_of metric_type
  created_tagged-FitsAs t f counter_type ty' h = (refl, refl)
  created_tagged-FitsAs t f gauge_type ty' h = (refl, refl)
  created_tagged-FitsAs t f gauge_float64_type ty' h = (refl, refl)
  created_tagged-FitsAs t f histogram_type ty' h =
      (value_or_error-FitsAs histogram_type ty' f.metric_tag _
        (sampled-maker_type f.name f.sample_tag histogram_type new_histogram _ (λ s. refl) refl)).1
  created_tagged-FitsAs t f meter_type ty' h = (refl, refl)
  created_tagged-FitsAs t f timer_type ty' h =
      (value_or_error-FitsAs timer_type ty' f.metric_tag _ (
        sampled-maker_type f.name f.sample_tag timer_type new_custom_timer new_timer (λ s. refl)
          refl)).1
  created_tagged-FitsAs t f functional_gauge_type ty' h = cc
  created_tagged-FitsAs t f functional_gauge_float64_type ty' h = cc
  created_tagged-FitsAs t f other_type ty' h = cc

  created_as-FitsAs :
      (t : StructType) (f : Field) (of : Option TypeName)
      → is_metric_of of f.field_type.type_name ≡ true
      → OnValue (FitsAs of f.field_type.type_name f.metric_tag) (created_as p t f of)
  unfolding created_as is_metric_of
  created_as-FitsAs t f none h = created-FitsAs t f f.field_type.type_name h
  created_as-FitsAs t f (some ty) h = created_tagged-FitsAs t f ty f.field_type.type_name h

  can_set-is_exported :
      (f : Field) (v : Created Float) → can_set p f v ≡ true → f.is_exported ≡ true
  unfolding can_set
  can_set-is_exported f (made m) h = h
  can_set-is_exported f (made_tagged n m) h = ground arith
  can_set-is_exported f (functional_gauge fn) h = h
  can_set-is_exported f (functional_gauge_float64 fn) h = h
  can_set-is_exported f no_value h = cc

  set_field-named :
      (f : Field) (r : Created Float ⊎ NewError)
      → OnValue (FitsAs (is_tagged f.field_type) f.field_type.type_name f.metric_tag) r
      → OnValue (λ v. Fits f (f.name, v)) (set_field p f r)
  unfolding set_field
  set_field-named f (inr e) h = _
  set_field-named f (inl v) h = elim (Bool-cases (can_set p f v)) [
    | inl c ↦ rw c (refl, can_set-is_exported f v c, h)
    | inr c ↦ rw c _
  ]

  add_value-AllFit :
      (f : Field) (fs : List Field) (r : Created Float ⊎ NewError)
      (rest : List (Text × Created Float) ⊎ NewError)
      → OnValue (λ v. Fits f (f.name, v)) r
      → OnValue (AllFit fs) rest
      → OnValue (AllFit (f ∷ fs)) (add_value p f.name r rest)
  unfolding add_value
  add_value-AllFit f fs (inr e) rest h k = _
  add_value-AllFit f fs (inl v) (inr e) h k = _
  add_value-AllFit f fs (inl v) (inl vs) h k = (h, k)

  pub create_fields-AllFit :
      (t : StructType) (fs : List Field)
      → All (λ f. is_metric f.field_type ≡ true) fs
      → OnValue (AllFit fs) (create_fields p t fs)
  unfolding create_fields create_field is_metric
  create_fields-AllFit t [] h = _
  create_fields-AllFit t (f ∷ fs) (m, h) =
      add_value-AllFit f fs _ (create_fields p t fs)
        (set_field-named f _ (created_as-FitsAs t f (is_tagged f.field_type) m))
        (create_fields-AllFit t fs h)
