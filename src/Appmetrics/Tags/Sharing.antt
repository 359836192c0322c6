-- ===== src/Appmetrics/Tags/Sharing.antt =====
-- Tag and register against a registry: when two calls return the same metric object, and when the
-- type assertion panics.
use mathlib.Core.List.{Perm}
use go_baseapp.Prelude.{◌≡◌, refl, sym, true, List}
use go_baseapp.Text.{Text}
use go_baseapp.Text.Equality.{text_eq_refl}
use go_baseapp.Appmetrics.Registry.{Registry, Metric}
use go_baseapp.Appmetrics.Tags.{TaggedMetric, tag, tag_name}
use go_baseapp.Appmetrics.Tags.Naming.{tag_name-perm}

module _ (reg : Registry) where
  open reg use {State, get, get_or_register, get_or_register_value, get-get_or_register}

  get_or_register_again :
      (n : Text) (m m' : Metric) (s : State)
      → (get_or_register n m' (get_or_register n m s).1).0 ≡ (get_or_register n m s).0
  get_or_register_again n m m' s =
      rw (get_or_register_value n m', get-get_or_register n n m s, text_eq_refl n)
        (sym (get_or_register_value n m s))

  -- Once a tagged metric is attached to a registry, a second call of Tag with the same tags in any
  -- order returns what the first call returned (the same metric object, or the same panic), and the
  -- object that newMetric would make is not used.
  pub tag-tag :
      (m : TaggedMetric) (fresh fresh' : Metric) (ts us : List Text) (s : State)
      → m.attached ≡ true
      → Perm ts us
      → (tag reg m fresh' us (tag reg m fresh ts s).1).0 ≡ (tag reg m fresh ts s).0
  unfolding tag
  tag-tag m fresh fresh' ts us s on p =
      rw (on, tag_name-perm m.name ts us p)
        (rw (get_or_register_again (tag_name m.name us) fresh fresh' s) refl)
