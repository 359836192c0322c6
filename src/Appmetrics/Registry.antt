-- ===== src/Appmetrics/Registry.antt =====
-- The registry of rcrowley/go-metrics, which is not part of the repository: its operations are a
-- parameter of the models, with the documented behaviour that the code relies on.
use go_baseapp.Prelude.{ℕ, ◌≡◌, Bool, true, false, Option, none, some, if◌then◌else◌}
use go_baseapp.Text.{Text, text_eq}

-- The metric interfaces of go-metrics.
pub data Kind : Type 0 where
  counter gauge gauge_float64 histogram meter timer : Kind

abbrev pub kind_eq : Kind → Kind → Bool
kind_eq counter counter = true
kind_eq gauge gauge = true
kind_eq gauge_float64 gauge_float64 = true
kind_eq histogram histogram = true
kind_eq meter meter = true
kind_eq timer timer = true
kind_eq _ _ = false

-- A metric object: the interface that it implements, and its identity.
pub record Metric : Type 0 where
  pub kind : Kind
  pub id : ℕ

-- What is found under a name, or else the given metric.
abbrev pub found_or : Option Metric → Metric → Metric
found_or none m = m
found_or (some old) m = old

-- `get_or_register n m` is `GetOrRegister` with a constructor that would return the new object `m`.
-- `register` is `Register` with its error dropped: a name in use keeps its metric.
pub record Registry : Type 1 where
  pub State : Type 0
  pub get : Text → State → Option Metric
  pub get_or_register : Text → Metric → State → Metric × State
  pub register : Text → Metric → State → State
  pub unregister : Text → State → State
  pub get_or_register_value :
      (n : Text) (m : Metric) (s : State) → (get_or_register n m s).0 ≡ found_or (get n s) m
  pub get-get_or_register :
      (k n : Text) (m : Metric) (s : State)
      → get k (get_or_register n m s).1
        ≡ (if text_eq n k then some (found_or (get n s) m) else get k s)
  pub get-register :
      (k n : Text) (m : Metric) (s : State)
      → get k (register n m s) ≡ (if text_eq n k then some (found_or (get n s) m) else get k s)
  pub get-unregister :
      (k n : Text) (s : State) → get k (unregister n s) ≡ (if text_eq n k then none else get k s)
