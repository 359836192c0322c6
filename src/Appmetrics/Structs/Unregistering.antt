-- ===== src/Appmetrics/Structs/Unregistering.antt =====
-- What Unregister does to a registry, and what remains of a registration.
use go_baseapp.Prelude.{
  ◌≡◌, refl, ◌∙◌, inl, inr, Bool, true, false, ◌||◌, none, some, List, [], ◌∷◌, arith,
  if◌then◌else◌, Bool-cases, All,
}
use go_baseapp.Text.{Text, text_eq}
use go_baseapp.Appmetrics.Registry.{Registry}
use go_baseapp.Appmetrics.Structs.Registering.{
  register-get, key_of, first_object, IsExported, or_object-none,
}
use go_baseapp.Appmetrics.Structs.{
  StructType, Field, Values, get_metric_fields, register, unregister, unregister_all,
  unregister_fields,
}

-- The names that Unregister removes.
pub is_name : Text → List Field → Bool
is_name k [] = false
is_name k (f ∷ fs) = text_eq f.metric_tag k || is_name k fs

-- Each field is registered under its tag, as New makes it.
abbrev pub IsNamed : Values → Field → Type 0
IsNamed values f = key_of f.metric_tag (values f.name) ≡ f.metric_tag

first_object-is_name :
    (k : Text) (fs : List Field) (values : Values)
    → All (IsNamed values) fs
    → is_name k fs ≡ false
    → first_object k fs values ≡ none
unfolding is_name first_object
first_object-is_name k [] values h n = refl
first_object-is_name k (f ∷ fs) values (e, h) n =
    rw e (ground (arith, first_object-is_name k fs values h))

module _ (reg : Registry) where
  open reg use {State, get, get-unregister}

  unregister_fields-get :
      (k : Text) (fs : List Field) (s : State)
      → get k (unregister_fields reg fs s) ≡ (if is_name k fs then none else get k s)
  unfolding unregister_fields is_name
  unregister_fields-get k [] s = refl
  unregister_fields-get k (f ∷ fs) s =
      unregister_fields-get k fs (reg.unregister f.metric_tag s)
      ∙ rw (get-unregister k f.metric_tag s) (ground arith)

  -- Unregister after Register: the names of the struct are gone, also those that the registry had
  -- before, and every other name is as it was before.
  pub unregister-register :
      (t : StructType) (fs : List Field) (values : Values) (s : State) (k : Text)
      → t.is_struct ≡ true
      → get_metric_fields t.fields ≡ inl fs
      → All IsExported fs
      → All (IsNamed values) fs
      → (values' : Values) × (s' : State) × (s'' : State) × (register reg t values s
          ≡ some (values', s'))
        × (unregister reg t s' ≡ some s'')
        × (get k s'' ≡ (if is_name k fs then none else get k s))
  unfolding unregister unregister_all
  unregister-register t fs values s k y e h n =
      let (values', s', done, g, _) = register-get reg t fs values s y e h in
      let removed = unregister_fields-get k fs s' in
      let before = g k in
      let unnamed = first_object-is_name k fs values n in
      (
        values',
        s',
        unregister_fields reg fs s',
        done,
        rw (y, e) refl,
        (removed ∙ elim (Bool-cases (is_name k fs)) [
          | inl i ↦ rw i refl
          | inr i ↦ rw i (before ∙ rw (unnamed i) (or_object-none (get k s)))
        ]),
      )
