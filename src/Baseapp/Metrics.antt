-- ===== src/Baseapp/Metrics.antt =====
-- baseapp/metrics.go: the server's metrics, their registration, and what a request counts.
pub mod Counting
use go_baseapp.Prelude.{
  ℕ, ◌+◌, true, false, ◌&&◌, Option, none, some, List, [], ◌∷◌, ◌++◌, ltb, leb, if◌then◌else◌,
  ◌>>=◌,
}
use go_baseapp.Text.{Text, codes}
use go_baseapp.Appmetrics.Registry.{Registry, Metric, Kind, kind_eq}
use go_baseapp.Baseapp.Ignore.{Request, Heap, is_ignored}

abbrev pub key_requests : Text
key_requests = codes "server.requests"

abbrev pub key_requests2xx : Text
key_requests2xx = codes "server.requests.2xx"

abbrev pub key_requests3xx : Text
key_requests3xx = codes "server.requests.3xx"

abbrev pub key_requests4xx : Text
key_requests4xx = codes "server.requests.4xx"

abbrev pub key_requests5xx : Text
key_requests5xx = codes "server.requests.5xx"

abbrev pub latency_suffix : Text
latency_suffix = codes ".latency"

abbrev key_num_goroutines : Text
key_num_goroutines = codes "server.goroutines"

abbrev key_memory_used : Text
key_memory_used = codes "server.mem.used"

-- The keys of the loop of `RegisterDefaultMetrics`.
abbrev pub default_keys : List Text
default_keys =
    key_requests ∷ key_requests2xx ∷ key_requests3xx ∷ key_requests4xx ∷ key_requests5xx ∷ []

-- `bucketStatus`; the empty text is no bucket. A status below 0 does not occur.
unfoldable pub bucket_status : ℕ → Text
bucket_status status =
    if leb 200 status && ltb status 300
    then key_requests2xx
    else if leb 300 status && ltb status 400
    then key_requests3xx
    else if leb 400 status && ltb status 500
    then key_requests4xx
    else if leb 500 status && ltb status 600
    then key_requests5xx
    else []

-- `MetricsCtx`: the registry of the request's context, or the default registry.
unfoldable pub metrics_ctx : Option ℕ → ℕ → ℕ
metrics_ctx (some r) default_registry = r
metrics_ctx none default_registry = default_registry

-- `WithMetricsCtx`, on a request.
unfoldable pub with_metrics_ctx : Request → ℕ → Request
with_metrics_ctx r registry = record r { registry = some registry }

-- What is done to metric objects: `Inc(1)` and `Update(elapsed)`.
pub data Effect : Type 0 where
  inc : ℕ → Effect
  update : ℕ → ℕ → Effect

-- The effects so far, or `none` after a panic.
abbrev pub Run : Type 0
Run = Option (List Effect)

infixl 5 ◌then_do◌
abbrev ◌then_do◌ : Run → Run → Run
none then_do next = none
some done then_do none = none
some done then_do some more = some (done ++ more)

-- `c.(metrics.Counter).Inc(1)`, where there is a metric.
count_on : Option Metric → Run
count_on none = some []
count_on (some m) = if kind_eq m.kind Kind.counter then some (inc m.id ∷ []) else none

-- `t.(metrics.Timer).Update(elapsed)`, where there is a metric.
time_on : Option Metric → ℕ → Run
time_on none elapsed = some []
time_on (some m) elapsed =
    if kind_eq m.kind Kind.timer then some (update m.id elapsed ∷ []) else none

module _ (reg : Registry) where
  open reg use {State, get, get_or_register}

  -- The counter and the timer of a key.
  record_key : Text → ℕ → State → Run
  unfolding count_on time_on
  record_key key elapsed s =
      count_on (get key s) then_do time_on (get (key ++ latency_suffix) s) elapsed

  -- The second half of `CountRequest`, for `key := bucketStatus(status)`.
  record_bucket : Text → ℕ → State → Run
  unfolding record_key
  record_bucket [] elapsed s = some []
  record_bucket (c ∷ key) elapsed s = record_key (c ∷ key) elapsed s

  -- `CountRequest`; `states` gives the state of each registry.
  unfoldable pub count_request : ℕ → (ℕ → State) → Heap → Request → ℕ → ℕ → Run
  unfolding record_key record_bucket bucket_status metrics_ctx
  count_request default_registry states h r status elapsed =
      if is_ignored r (record { logs = false; metrics = true }) h
      then some []
      else (let s = states (metrics_ctx r.registry default_registry) in
          record_key key_requests elapsed s then_do record_bucket (bucket_status status) elapsed s)

  -- `GetOrRegisterCounter` and `GetOrRegisterTimer`, which assert the metric's type; `id` is the
  -- identity of the object that would be made.
  get_or_register_as : Kind → Text → ℕ → State → Option State
  get_or_register_as kind key id s =
      let (found, s') = get_or_register key (record { kind = kind; id = id }) s in
      if kind_eq found.kind kind then some s' else none

  -- The loop of `RegisterDefaultMetrics`; the objects made take identities from `next` on.
  register_keys : List Text → ℕ → State → Option State
  unfolding get_or_register_as
  register_keys [] next s = some s
  register_keys (key ∷ keys) next s = do
    s' ← get_or_register_as Kind.counter key next s
    s'' ← get_or_register_as Kind.timer (key ++ latency_suffix) (next + 1) s'
    register_keys keys (next + 2) s''

  -- The two functional gauges.
  register_gauges : ℕ → State → State
  register_gauges next s =
      let s' = (get_or_register key_num_goroutines (record { kind = Kind.gauge; id = next }) s).1 in
      (get_or_register key_memory_used (record { kind = Kind.gauge; id = next + 1 }) s').1

  -- `RegisterDefaultMetrics`; `none` is the panic of a failed type assertion.
  unfoldable pub register_default_metrics : ℕ → State → Option State
  unfolding register_keys register_gauges
  register_default_metrics next s = do
    s' ← register_keys default_keys next s
    some (register_gauges (next + 10) s')
