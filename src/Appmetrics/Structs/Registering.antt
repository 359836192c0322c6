-- ===== src/Appmetrics/Structs/Registering.antt =====
-- What Register and Unregister do to a registry.
use go_baseapp.Prelude.{
  ◌≡◌, refl, sym, ap, ◌∙◌, inl, inr, Bool, true, false, Option, none, some, List, [], ◌∷◌,
  if◌then◌else◌, Bool-cases, if_ind, All,
}
use go_baseapp.Text.{Text, text_eq}
use go_baseapp.Text.Equality.{text_eq_refl, text_eq_sound}
use go_baseapp.Appmetrics.Registry.{Registry, Metric, found_or}
use go_baseapp.Appmetrics.Tags.{register_tagged}
use go_baseapp.Appmetrics.Structs.{
  StructType, Field, FieldValue, plain, tagged, Values, set_value, get_metric_fields, register,
  register_all, register_fields, register_value,
}

-- The name that a field registers under, and the object that it registers.
abbrev pub key_of : Text → FieldValue → Text
key_of name (plain m) = name
key_of name (tagged m fresh) = m.name

abbrev pub object_of : FieldValue → Metric
object_of (plain m) = m
object_of (tagged m fresh) = fresh

-- What the first of the fields with that name registers.
unfoldable pub first_object : Text → List Field → Values → Option Metric
first_object k [] values = none
first_object k (f ∷ fs) values =
    let rest = first_object k fs values in
    if text_eq (key_of f.metric_tag (values f.name)) k
    then some (object_of (values f.name))
    else rest

abbrev pub or_object : Option Metric → Option Metric → Option Metric
or_object none o = o
or_object (some m) o = some m

abbrev pub IsAttached : FieldValue → Type 0
IsAttached (plain m) = Unit
IsAttached (tagged m fresh) = m.attached ≡ true

abbrev pub IsExported : Field → Type 0
IsExported f = f.is_exported ≡ true

-- Two structs whose fields register the same.
abbrev Same : Values → Values → Type 0
Same values values' =
    (k : Text)
    → ((n : Text) → key_of n (values' k) ≡ key_of n (values k))
      × (object_of (values' k) ≡ object_of (values k))

first_object-Same :
    (k : Text) (fs : List Field) (values values' : Values)
    → Same values values'
    → first_object k fs values' ≡ first_object k fs values
unfolding first_object
first_object-Same k [] values values' h = refl
first_object-Same k (f ∷ fs) values values' h =
    rw ((h f.name).0 f.metric_tag, (h f.name).1, first_object-Same k fs values values' h) refl

found_or-object : (o : Option Metric) (m : Metric) → some (found_or o m) ≡ or_object o (some m)
found_or-object none m = refl
found_or-object (some old) m = refl

pub or_object-none : (o : Option Metric) → or_object o none ≡ o
or_object-none none = refl
or_object-none (some m) = refl

or_object_assoc :
    (o p q : Option Metric) → or_object (or_object o p) q ≡ or_object o (or_object p q)
or_object_assoc none p q = refl
or_object_assoc (some m) p q = refl

or_object-if :
    (b : Bool) (m : Metric) (o : Option Metric)
    → or_object (if b then some m else none) o ≡ (if b then some m else o)
or_object-if true m o = refl
or_object-if false m o = refl

module _ (reg : Registry) where
  open reg use {State, get, get-get_or_register, get-register}

  stored :
      (n k : Text) (m : Metric) (s : State)
      → (if text_eq n k then some (found_or (get n s) m) else get k s)
        ≡ or_object (get k s) (if text_eq n k then some m else none)
  stored n k m s = elim (Bool-cases (text_eq n k)) [
    | inl e ↦ rw (e, text_eq_sound n k e) (found_or-object (get k s) m)
    | inr e ↦ rw e (sym (or_object-none (get k s)))
  ]

  -- A registration stores the object, unless the name is in use.
  register_value-get :
      (name k : Text) (v : FieldValue) (s : State)
      → get k (register_value reg name v s).1
        ≡ or_object (get k s) (if text_eq (key_of name v) k then some (object_of v) else none)
  unfolding register_value register_tagged
  register_value-get name k (plain m) s = get-register k name m s ∙ stored name k m s
  register_value-get name k (tagged m fresh) s =
      get-get_or_register k m.name fresh s ∙ stored m.name k fresh s

  register_value-key :
      (name n : Text) (v : FieldValue) (s : State)
      → (key_of n (register_value reg name v s).0 ≡ key_of n v)
        × (object_of (register_value reg name v s).0 ≡ object_of v)
        × IsAttached (register_value reg name v s).0
  unfolding register_value register_tagged
  register_value-key name n (plain m) s = (refl, refl, _)
  register_value-key name n (tagged m fresh) s = (refl, refl, refl)

  register_value-Same :
      (f : Field) (values : Values) (s : State)
      → Same values (set_value f.name (register_value reg f.metric_tag (values f.name) s).0 values)
  register_value-Same f values s k = elim (Bool-cases (text_eq f.name k)) [
    | inl e ↦
        rw (e, sym (text_eq_sound f.name k e))
          (
            (λ n. (register_value-key f.metric_tag n (values f.name) s).0),
            (register_value-key f.metric_tag [] (values f.name) s).1,
          )
    | inr e ↦ rw e ((λ n. refl), refl)
  ]

  -- What is attached stays attached.
  register_value-IsAttached :
      (f : Field) (k : Text) (values : Values) (s : State)
      → IsAttached (values k)
      → IsAttached (set_value f.name (register_value reg f.metric_tag (values f.name) s).0 values k)
  register_value-IsAttached f k values s h =
      if_ind IsAttached (text_eq f.name k) (register_value-key f.metric_tag [] (values f.name) s).2
        h

  -- What the loop of Register does to the registry and to the fields.
  abbrev Done : List Field → Values → State → Type 0
  Done fs values s =
      (values' : Values) × (s' : State) × (register_fields reg fs values s ≡ some (values', s'))
      × ((k : Text) → get k s' ≡ or_object (get k s) (first_object k fs values))
      × All (λ f. IsAttached (values' f.name)) fs
      × ((k : Text) → IsAttached (values k) → IsAttached (values' k))

  register_fields-Done :
      (fs : List Field) (values : Values) (s : State) → All IsExported fs → Done fs values s
  unfolding register_fields first_object
  register_fields-Done [] values s h =
      (values, s, refl, (λ k. sym (or_object-none (get k s))), _, λ k a. a)
  register_fields-Done (f ∷ fs) values s (x, h) =
      let v = (register_value reg f.metric_tag (values f.name) s).0 in
      let (values', s', e, g, a, keep) =
        register_fields-Done fs (set_value f.name v values)
          (register_value reg f.metric_tag (values f.name) s).1 h in
      let got : (k : Text) → get k s' ≡ or_object (get k s) (first_object k (f ∷ fs) values) = λ k.
        rw
          (
            g k,
            register_value-get f.metric_tag k (values f.name) s,
            first_object-Same k fs values (set_value f.name v values)
                (register_value-Same f values s),
          )
          (or_object_assoc (get k s) _ _
            ∙ ap (or_object (get k s)) (
                or_object-if (text_eq (key_of f.metric_tag (values f.name)) k)
                  (object_of (values f.name)) (first_object k fs values))) in
      let kept : (k : Text) → IsAttached (values k) → IsAttached (values' k) =
        λ k b. keep k (register_value-IsAttached f k values s b) in
      let attached : IsAttached (values' f.name) =
        keep f.name
          (rw (text_eq_refl f.name) (register_value-key f.metric_tag [] (values f.name) s).2) in
      (values', s', rw (x, e) refl, got, (attached, a), kept)

  -- If a struct's metric fields are valid and exported, Register does not panic: a name that the
  -- registry already has keeps its metric, every other name of a field has the object of the first
  -- field with that name, no other name changes, and every tagged field is attached to the registry.
  pub register-get :
      (t : StructType) (fs : List Field) (values : Values) (s : State)
      → t.is_struct ≡ true
      → get_metric_fields t.fields ≡ inl fs
      → All IsExported fs
      → (values' : Values) × (s' : State) × (register reg t values s ≡ some (values', s'))
        × ((k : Text) → get k s' ≡ or_object (get k s) (first_object k fs values))
        × All (λ f. IsAttached (values' f.name)) fs
  unfolding register register_all
  register-get t fs values s y e h =
      let (values', s', done, g, a, _) = register_fields-Done fs values s h in
      (values', s', rw (y, e) done, g, a)
