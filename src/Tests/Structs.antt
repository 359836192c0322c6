-- ===== src/Tests/Structs.antt =====
-- Structs of metrics.
use go_baseapp.Appmetrics.Structs.Creating.Succeeding.{IsPlain, new_struct-IsPlain}
use go_baseapp.Prelude.{
  ℕ, ◌≡◌, refl, inl, inr, true, false, none, some, List, [], ◌∷◌, ◌++◌, arith, if◌then◌else◌, All,
}
use go_baseapp.Text.{Text, codes, text_eq, split}
use go_baseapp.Text.Numbers.{pos, itoa, atoi, two63}
use go_baseapp.Appmetrics.Registry.{Registry, Kind}
use go_baseapp.Appmetrics.Samples.{
  Parsing, uniform, exp_decay, parse_sample, to_lower, invalid_exp_decay, default_reservoir_size,
  uniform_reservoir, exp_decay_reservoir,
}
use go_baseapp.Appmetrics.Samples.Written.{parse_sample_lem}
use go_baseapp.Appmetrics.Samples.Bounds.{parse_sample-IsSized, IsSized}
use go_baseapp.Appmetrics.Structs.{
  StructType, Field, counter_type, other_type, plain, tagged, Values, get_metric_fields, register,
  unregister, histogram_type, is_metric, is_tagged,
}
use go_baseapp.Appmetrics.Structs.Registering.{register-get, first_object, or_object, IsAttached}
use go_baseapp.Appmetrics.Structs.Unregistering.{unregister-register, is_name}
use go_baseapp.Appmetrics.Structs.Creating.{
  Created, new_struct, made, made_tagged, new_counter, new_histogram, create_field,
}
use go_baseapp.Appmetrics.Structs.Creating.Matching.{AllFit}
use go_baseapp.Appmetrics.Structs.Creating.Making.{new_struct-AllFit}
use go_baseapp.Tests.Providers.{list_registry}

abbrev one_float : Parsing
one_float = record {
  Float = ℕ;
  lower_rune = λ c. c;
  parse_float = λ s. if text_eq s (codes "0.5") then some 50 else none;
  default_exp_decay_alpha = 15;
}

upper_case_test : parse_sample one_float (codes "ExpDecay,20,0.5") ≡ inl (exp_decay (pos 20) 50)
unfolding parse_sample to_lower split text_eq atoi
upper_case_test = refl

parse_sample_lem_example :
    (parse_sample one_float (codes "uniform") ≡ inl (uniform default_reservoir_size))
    × (parse_sample one_float (codes "uniform," ++ itoa (pos 20)) ≡ inl (uniform (pos 20)))
    × (parse_sample one_float (codes "expdecay") ≡ inl (exp_decay default_reservoir_size 15))
    × (parse_sample one_float (codes "expdecay," ++ (itoa (pos 20) ++ b',' ∷ codes "0.5"))
        ≡ inl (exp_decay (pos 20) 50))
    × (parse_sample one_float (codes "expdecay," ++ itoa (pos 20)) ≡ inr invalid_exp_decay)
unfolding to_lower text_eq
parse_sample_lem_example =
    parse_sample_lem one_float (pos 20) (codes "0.5") 50 (omega arith) refl (omega arith) refl

parse_sample-IsSized_example :
    IsSized one_float (parse_sample one_float (codes "uniform,-7"))
    × (parse_sample one_float (codes "uniform," ++ itoa (pos two63)) ≡ inr uniform_reservoir)
    × (parse_sample one_float (codes "expdecay," ++ (itoa (pos two63) ++ b',' ∷ codes "0.5"))
        ≡ inr exp_decay_reservoir)
unfolding to_lower text_eq
parse_sample-IsSized_example =
    parse_sample-IsSized one_float (codes "uniform,-7") (codes "0.5") (pos two63) (omega arith) refl
      (omega arith)

abbrev counter_field : Field
counter_field = record {
  name = codes "Responses";
  field_type = record {
    type_name = counter_type;
    is_interface = true;
    tag_method = none;
    has_other_methods = true;
  };
  metric_tag = codes "responses";
  sample_tag = [];
  is_exported = true;
}

-- A field of the type `Tagged[metrics.Histogram]`.
abbrev tagged_field : Field
tagged_field = record {
  name = codes "Sizes";
  field_type = record {
    type_name = other_type;
    is_interface = true;
    tag_method =
        some
          (record { is_variadic = true; string_slices = true ∷ []; outputs = histogram_type ∷ [] });
    has_other_methods = false;
  };
  metric_tag = codes "sizes";
  sample_tag = codes "uniform,20";
  is_exported = true;
}

abbrev plain_field : Field
plain_field = record counter_field { name = codes "Name"; metric_tag = [] }

abbrev two_metrics : StructType
two_metrics = record {
  is_struct = true;
  fields = counter_field ∷ plain_field ∷ tagged_field ∷ [];
  method_by_name = λ n. none;
  field_by_name = λ n. none;
}

abbrev two_values : List (Text × Created ℕ)
two_values =
    (codes "Responses", made new_counter)
    ∷ (codes "Sizes", made_tagged (codes "sizes") (new_histogram (uniform (pos 20))))
    ∷ []

two_fields : get_metric_fields two_metrics.fields ≡ inl (counter_field ∷ tagged_field ∷ [])
unfolding get_metric_fields text_eq is_metric is_tagged
two_fields = refl

new_struct_test : new_struct one_float two_metrics ≡ inl two_values
unfolding new_struct create_field get_metric_fields text_eq is_metric is_tagged parse_sample
    to_lower atoi split
new_struct_test = refl

new_struct-AllFit_example : AllFit (counter_field ∷ tagged_field ∷ []) two_values
new_struct-AllFit_example =
    new_struct-AllFit one_float two_metrics (counter_field ∷ tagged_field ∷ []) two_values
      two_fields new_struct_test

abbrev made_values : Values
made_values n =
    if text_eq n (codes "Sizes")
    then tagged (record { attached = false; name = codes "sizes"; kind = Kind.histogram })
        (record { kind = Kind.histogram; id = 2 })
    else plain (record { kind = Kind.counter; id = 1 })

register-get_example :
    (values' : Values) × (s' : Registry.State list_registry) × (register list_registry two_metrics
        made_values []
      ≡ some (values', s'))
    × ((k : Text)
        → Registry.get list_registry k s'
          ≡ or_object
              (Registry.get list_registry k [])
              (first_object k (counter_field ∷ tagged_field ∷ []) made_values))
    × All (λ f. IsAttached (values' f.name)) (counter_field ∷ tagged_field ∷ [])
register-get_example =
    register-get list_registry two_metrics (counter_field ∷ tagged_field ∷ []) made_values [] refl
      two_fields (refl, (refl, _))

unregister-register_example :
    (values' : Values) × (s' s'' : Registry.State list_registry) × (register list_registry
        two_metrics made_values []
      ≡ some (values', s'))
    × (unregister list_registry two_metrics s' ≡ some s'')
    × (Registry.get list_registry (codes "sizes") s'' ≡ (
        if is_name (codes "sizes") (counter_field ∷ tagged_field ∷ [])
        then none
        else Registry.get list_registry (codes "sizes") []))
unfolding text_eq
unregister-register_example =
    unregister-register list_registry two_metrics (counter_field ∷ tagged_field ∷ []) made_values []
      (codes "sizes") refl two_fields (refl, (refl, _)) (refl, (refl, _))

abbrev default_field : Field
default_field = record tagged_field { sample_tag = [] }

abbrev default_metrics : StructType
default_metrics = record two_metrics { fields = counter_field ∷ plain_field ∷ default_field ∷ [] }

default_fields : get_metric_fields default_metrics.fields ≡ inl (counter_field ∷ default_field ∷ [])
unfolding get_metric_fields text_eq is_metric is_tagged
default_fields = refl

counter_field-IsPlain : IsPlain counter_field
unfolding is_tagged
counter_field-IsPlain = (refl, refl, inl refl, λ e. cc, λ e. cc)

default_field-IsPlain : IsPlain default_field
default_field-IsPlain = (refl, refl, inr refl, λ e. cc, λ e. cc)

new_struct-IsPlain_example :
    (vs : List (Text × Created ℕ)) × (new_struct one_float default_metrics ≡ inl vs)
    × AllFit (counter_field ∷ default_field ∷ []) vs
new_struct-IsPlain_example =
    new_struct-IsPlain one_float default_metrics (counter_field ∷ default_field ∷ []) refl
      default_fields (counter_field-IsPlain, (default_field-IsPlain, _))
