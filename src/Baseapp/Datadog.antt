-- ===== src/Baseapp/Datadog.antt =====
-- baseapp/datadog/datadog.go: the names of the emitter's package, passed on for compatibility.
use go_baseapp.Prelude.{ℕ, ◌⊎◌, Option, List}
use go_baseapp.Text.{Text}
use go_baseapp.Text.Numbers.{ℤ}
use go_baseapp.Appmetrics.Values.{Floats, Value}
use go_baseapp.Appmetrics.Emitter.Datadog.{Counters, Packet}
use go_baseapp.Appmetrics.Emitter.Datadog
use go_baseapp.Appmetrics.Emitter.Datadog.Running.{Progress}
use go_baseapp.Appmetrics.Emitter.Datadog.Running

abbrev pub default_address : Text
default_address = Running.default_address

abbrev pub default_interval : ℤ
default_interval = Running.default_interval

abbrev pub set_timer_unit : ℕ → ℕ → ℕ
set_timer_unit unit timer_unit = Datadog.set_timer_unit unit timer_unit

abbrev pub Config : Type 0
Config = Running.Config

-- `StartEmitter`, for the registry that the server reports.
unfoldable pub start_emitter :
    (floats : Floats)
    → ℕ
    → (Text → List Text → Option ℕ)
    → Config
    → List (List (Text × Value floats.Float))
    → (Progress × Counters × List (Packet floats.Float)) ⊎ ℕ
start_emitter floats timer_unit new_client c ticks =
    Running.start_emitter floats timer_unit new_client c ticks

abbrev pub new_emitter : Counters
new_emitter = Datadog.new_emitter
