-- ===== src/Appmetrics/Structs/Creating.antt =====
-- `New`: the metrics that it makes for the fields of a struct.
pub mod Matching
pub mod Making
pub mod Succeeding
use go_baseapp.Prelude.{
  ◌⊎◌, inl, inr, Bool, true, false, not, ◌&&◌, Option, none, some, List, [], ◌∷◌, ◌++◌, ◌==◌,
  if◌then◌else◌,
}
use go_baseapp.Text.{Text, codes, text_eq}
use go_baseapp.Appmetrics.Samples.{
  Parsing, Sample, SampleError, exp_decay, parse_sample, default_reservoir_size,
}
use go_baseapp.Appmetrics.Structs.{
  StructType, Field, TypeName, counter_type, gauge_type, gauge_float64_type, histogram_type,
  meter_type, timer_type, functional_gauge_type, functional_gauge_float64_type, other_type, Output,
  output_eq, int64_output, float64_output, Signature0, is_tagged, get_metric_fields,
}

-- A constructor of a metric: `newMetric`. The default timer has go-metrics' own sample.
pub data Maker (F : Type 0) : Type 0 where
  new_counter new_gauge new_gauge_float64 new_meter new_timer : Maker F
  new_histogram : Sample F → Maker F
  new_custom_timer : Sample F → Maker F

-- The function of a functional gauge: a method, or the field's value at the time of the call.
pub data GaugeFunction : Type 0 where
  gauge_method : Text → GaugeFunction
  gauge_field : Text → GaugeFunction

pub data GaugeError : Type 0 where
  does_not_exist not_a_function takes_parameters not_a_single_value wrong_type : GaugeError

-- What a field is set to. `no_value` is a nil value, with which `Set` panics.
pub data Created (F : Type 0) : Type 0 where
  made : Maker F → Created F
  made_tagged : Text → Maker F → Created F
  functional_gauge : GaugeFunction → Created F
  functional_gauge_float64 : GaugeFunction → Created F
  no_value : Created F

-- Why New panics: its own messages, or a panic of reflection's Set.
pub data NewError : Type 0 where
  not_a_struct : NewError
  non_metric_type : Text → NewError
  invalid_sample : Text → SampleError → NewError
  invalid_gauge : Text → GaugeError → NewError
  cannot_set : Text → NewError

-- The checks on the function's type.
output_of : List Output → Output → GaugeFunction → GaugeFunction ⊎ GaugeError
output_of (o ∷ []) n fn = if output_eq o n then inl fn else inr wrong_type
output_of _ n fn = inr not_a_single_value

check_function : Signature0 → Output → GaugeFunction → GaugeFunction ⊎ GaugeError
unfolding output_of
check_function m n fn = if m.inputs == 0 then output_of m.results n fn else inr takes_parameters

function_field : Option (Option Signature0) → Text → Output → GaugeFunction ⊎ GaugeError
unfolding check_function
function_field none name n = inr does_not_exist
function_field (some none) name n = inr not_a_function
function_field (some (some m)) name n = check_function m n (gauge_field name)

function_method :
    Option Signature0 → Option (Option Signature0) → Text → Output → GaugeFunction ⊎ GaugeError
unfolding check_function function_field
function_method none field name n = function_field field name n
function_method (some m) field name n = check_function m n (gauge_method name)

-- `getGaugeFunction`
unfoldable pub get_gauge_function : StructType → Text → Output → GaugeFunction ⊎ GaugeError
unfolding function_method
get_gauge_function t field_name n =
    let name = codes "Compute" ++ field_name in
    function_method (t.method_by_name name) (t.field_by_name name) name n

module _ (p : Parsing) where
  open p use {Float, default_exp_decay_alpha}

  -- Set with a made metric: untagged, or as a tagged metric with the name.
  value_of : Bool → Text → Maker Float → Created Float
  value_of true name maker = made_tagged name maker
  value_of false name maker = made maker

  -- A histogram's or a timer's constructor, by the sample tag.
  sampled : Text → Text → (Sample Float → Maker Float) → Maker Float → Maker Float ⊎ NewError
  sampled field sample with_sample default =
      if text_eq sample [] then inl default else elim (parse_sample p sample) [
        | inl s ↦ inl (with_sample s)
        | inr e ↦ inr (invalid_sample field e)
      ]

  value_or_error : Bool → Text → Maker Float ⊎ NewError → Created Float ⊎ NewError
  unfolding value_of
  value_or_error tagged name (inl maker) = inl (value_of tagged name maker)
  value_or_error tagged name (inr e) = inr e

  gauge_or_error :
      Text → (GaugeFunction → Created Float) → GaugeFunction ⊎ GaugeError → Created Float ⊎ NewError
  gauge_or_error field f (inl fn) = inl (f fn)
  gauge_or_error field f (inr e) = inr (invalid_gauge field e)

  -- The switch of `createField`, by `tagged` and the metric's type.
  created : StructType → Field → Bool → TypeName → Created Float ⊎ NewError
  unfolding value_of sampled value_or_error gauge_or_error
  created t f tagged counter_type = inl (value_of tagged f.metric_tag new_counter)
  created t f tagged functional_gauge_type =
      gauge_or_error f.name functional_gauge (get_gauge_function t f.name int64_output)
  created t f tagged gauge_type = inl (value_of tagged f.metric_tag new_gauge)
  created t f tagged functional_gauge_float64_type =
      gauge_or_error f.name functional_gauge_float64 (get_gauge_function t f.name float64_output)
  created t f tagged gauge_float64_type = inl (value_of tagged f.metric_tag new_gauge_float64)
  created t f tagged histogram_type = value_or_error tagged f.metric_tag (
      sampled f.name f.sample_tag new_histogram
        (new_histogram (exp_decay default_reservoir_size default_exp_decay_alpha)))
  created t f tagged meter_type = inl (value_of tagged f.metric_tag new_meter)
  created t f tagged timer_type =
      value_or_error tagged f.metric_tag (sampled f.name f.sample_tag new_custom_timer new_timer)
  created t f tagged other_type = inl no_value

  created_as : StructType → Field → Option TypeName → Created Float ⊎ NewError
  unfolding created
  created_as t f none = created t f false f.field_type.type_name
  created_as t f (some m) = created t f true m

  -- Whether a field can be set to the value: it is exported, the value is not nil, and a tagged
  -- metric has all methods of the field's interface.
  can_set : Field → Created Float → Bool
  can_set f no_value = false
  can_set f (made_tagged name maker) = f.is_exported && not f.field_type.has_other_methods
  can_set f _ = f.is_exported

  set_field : Field → Created Float ⊎ NewError → Created Float ⊎ NewError
  unfolding can_set
  set_field f (inr e) = inr e
  set_field f (inl v) = if can_set f v then inl v else inr (cannot_set f.name)

  -- `createField`
  unfoldable pub create_field : StructType → Field → Created Float ⊎ NewError
  unfolding created_as set_field
  create_field t f = set_field f (created_as t f (is_tagged f.field_type))

  add_value :
      Text
      → Created Float ⊎ NewError
      → List (Text × Created Float) ⊎ NewError
      → List (Text × Created Float) ⊎ NewError
  add_value name (inr e) rest = inr e
  add_value name (inl v) (inr e) = inr e
  add_value name (inl v) (inl vs) = inl ((name, v) ∷ vs)

  -- The loop of `New`: the values that the fields are set to, by name.
  pub create_fields : StructType → List Field → List (Text × Created Float) ⊎ NewError
  unfolding add_value
  create_fields t [] = inl []
  create_fields t (f ∷ fs) = add_value f.name (create_field t f) (create_fields t fs)

  create_all : StructType → List Field ⊎ Text → List (Text × Created Float) ⊎ NewError
  unfolding create_fields
  create_all t (inr name) = inr (non_metric_type name)
  create_all t (inl fs) = create_fields t fs

  -- `New`; an error is the panic that it ends with.
  unfoldable pub new_struct : StructType → List (Text × Created Float) ⊎ NewError
  unfolding create_all
  new_struct t = if t.is_struct then create_all t (get_metric_fields t.fields) else inr not_a_struct
