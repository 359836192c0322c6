-- ===== src/Appmetrics/Structs.antt =====
-- appmetrics/appmetrics.go and gauges.go: structs of metrics, as reflection sees them. The struct is
-- the list of its visible fields; embedded pointers are outside the model.
pub mod Registering
pub mod Unregistering
pub mod Creating
use go_baseapp.Prelude.{
  ℕ, ◌⊎◌, inl, inr, Bool, true, false, not, Option, none, some, List, [], ◌∷◌, map, if◌then◌else◌,
}
use go_baseapp.Text.{Text, text_eq}
use go_baseapp.Appmetrics.Registry.{Registry, Metric}
use go_baseapp.Appmetrics.Tags.{TaggedMetric, register_tagged}

-- The identity of a Go type: the interfaces that the package knows, or another type.
pub data TypeName : Type 0 where
  counter_type gauge_type gauge_float64_type histogram_type meter_type timer_type : TypeName
  functional_gauge_type functional_gauge_float64_type other_type : TypeName

-- The signature of a method of an interface; `string_slices` tells which inputs are `[]string`.
pub record Signature : Type 0 where
  pub is_variadic : Bool
  pub string_slices : List Bool
  pub outputs : List TypeName

-- A type: its identity, whether it is an interface, the method `Tag` that it has, if any, and
-- whether it is an interface with methods besides.
pub record GoType : Type 0 where
  pub type_name : TypeName
  pub is_interface : Bool
  pub tag_method : Option Signature
  pub has_other_methods : Bool

-- A function as reflection sees it: the number of inputs, and its outputs.
pub data Output : Type 0 where
  int64_output float64_output other_output : Output

abbrev output_eq : Output → Output → Bool
output_eq int64_output int64_output = true
output_eq float64_output float64_output = true
output_eq _ _ = false

pub record Signature0 : Type 0 where
  pub inputs : ℕ
  pub results : List Output

pub record Field : Type 0 where
  pub name : Text
  pub field_type : GoType
  pub metric_tag : Text
  pub sample_tag : Text
  pub is_exported : Bool

-- A struct type: its visible fields, the methods of its pointer, and of each field the signature, if
-- it is a function.
pub record StructType : Type 0 where
  pub is_struct : Bool
  pub fields : List Field
  pub method_by_name : Text → Option Signature0
  pub field_by_name : Text → Option (Option Signature0)

tag_output : List TypeName → Option TypeName
tag_output (t ∷ []) = some t
tag_output _ = none

tag_signature : Bool → List Bool → List TypeName → Option TypeName
unfolding tag_output
tag_signature true (true ∷ []) outputs = tag_output outputs
tag_signature _ _ _ = none

tag_type : Option Signature → Option TypeName
unfolding tag_signature
tag_type none = none
tag_type (some m) = tag_signature m.is_variadic m.string_slices m.outputs

-- `isTagged`: the type that a tagged type is tagged for.
unfoldable pub is_tagged : GoType → Option TypeName
unfolding tag_type
is_tagged t = if t.is_interface then tag_type t.tag_method else none

-- The switch of `isMetric`, by `tagged` and the type.
pub metric_type : Bool → TypeName → Bool
metric_type tagged functional_gauge_type = not tagged
metric_type tagged functional_gauge_float64_type = not tagged
metric_type tagged other_type = false
metric_type tagged _ = true

is_metric_of : Option TypeName → TypeName → Bool
unfolding metric_type
is_metric_of none t = metric_type false t
is_metric_of (some t) _ = metric_type true t

unfoldable pub is_metric : GoType → Bool
unfolding is_metric_of
is_metric t = is_metric_of (is_tagged t) t.type_name

-- `getMetricFields`; the error names the field.
unfoldable pub get_metric_fields : List Field → List Field ⊎ Text
get_metric_fields [] = inl []
get_metric_fields (f ∷ fs) =
    let rest = get_metric_fields fs in
    if text_eq f.metric_tag []
    then rest
    else if is_metric f.field_type
    then elim rest [ inl found ↦ inl (f ∷ found) | inr e ↦ inr e ]
    else inr f.name

-- `MetricNames`; `none` is its panic.
names_of : List Field ⊎ Text → Option (List Text)
names_of (inr e) = none
names_of (inl fs) = some (map (λ f. f.metric_tag) fs)

unfoldable pub metric_names : StructType → Option (List Text)
unfolding names_of
metric_names t = if t.is_struct then names_of (get_metric_fields t.fields) else none

-- What a field holds: a metric, or a tagged metric of this package with the object that its newMetric
-- would make. A nil interface and another package's implementation of Tagged are outside the model.
pub data FieldValue : Type 0 where
  plain : Metric → FieldValue
  tagged : TaggedMetric → Metric → FieldValue

-- The values of the fields of a struct, by the names of the fields.
abbrev pub Values : Type 0
Values = Text → FieldValue

abbrev pub set_value : Text → FieldValue → Values → Values
set_value n v values k = if text_eq n k then v else values k

module _ (reg : Registry) where
  open reg use {State}

  -- One round of the loop of `Register`.
  register_value : Text → FieldValue → State → FieldValue × State
  register_value name (plain m) s = (plain m, reg.register name m s)
  register_value name (tagged m fresh) s =
      let (m', s') = register_tagged reg m fresh s in (tagged m' fresh, s')

  -- The loop of `Register`; reading an unexported field panics.
  register_fields : List Field → Values → State → Option (Values × State)
  unfolding register_value
  register_fields [] values s = some (values, s)
  register_fields (f ∷ fs) values s =
      let (v, s') = register_value f.metric_tag (values f.name) s in
      let rest = register_fields fs (set_value f.name v values) s' in
      if f.is_exported then rest else none

  register_all : List Field ⊎ Text → Values → State → Option (Values × State)
  unfolding register_fields
  register_all (inr e) values s = none
  register_all (inl fs) values s = register_fields fs values s

  -- `Register`; `none` is a panic.
  unfoldable pub register : StructType → Values → State → Option (Values × State)
  unfolding register_all
  register t values s =
      if t.is_struct then register_all (get_metric_fields t.fields) values s else none

  unregister_fields : List Field → State → State
  unregister_fields [] s = s
  unregister_fields (f ∷ fs) s = unregister_fields fs (reg.unregister f.metric_tag s)

  unregister_all : List Field ⊎ Text → State → Option State
  unfolding unregister_fields
  unregister_all (inr e) s = none
  unregister_all (inl fs) s = some (unregister_fields fs s)

  -- `Unregister`
  unfoldable pub unregister : StructType → State → Option State
  unfolding unregister_all
  unregister t s = if t.is_struct then unregister_all (get_metric_fields t.fields) s else none
