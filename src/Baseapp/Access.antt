-- ===== src/Baseapp/Access.antt =====
-- baseapp/middleware.go: the middleware that reports each request.
pub mod Reporting
use go_baseapp.Prelude.{ℕ, ◌-◌, true, false, Option, none, some, if◌then◌else◌, ◌>>=◌}
use go_baseapp.Text.{Text}
use go_baseapp.Appmetrics.Registry.{Registry}
use go_baseapp.Baseapp.Ignore.{Request, Heap, is_ignored}
use go_baseapp.Baseapp.Metrics.{Run, count_request, with_metrics_ctx}
use go_baseapp.Baseapp.Writer.{ResponseWriter, Recorder, new_recorder, status, bytes_written_of}

-- The fields of the line that `LogRequest` writes.
pub record LogLine : Type 0 where
  pub method : Text
  pub path : Text
  pub client_ip : Text
  pub status : ℕ
  pub size : ℕ
  pub elapsed : ℕ
  pub user_agent : Text

-- `LogRequest`; `none` is an early return.
unfoldable pub log_request : Heap → Request → ℕ → ℕ → ℕ → Option LogLine
log_request h r status size elapsed =
    if is_ignored r (record { logs = true; metrics = false }) h
    then none
    else some (record {
      method = r.method;
      path = r.path;
      client_ip = r.remote_addr;
      status = status;
      size = size;
      elapsed = elapsed;
      user_agent = r.user_agent;
    })

-- The handler of `NewMetricsHandler`: the request that the next handler gets.
unfoldable pub new_metrics_handler : ℕ → Request → Request
new_metrics_handler registry r = with_metrics_ctx r registry

module _ (reg : Registry) (w : ResponseWriter) where
  -- `RecordRequest`: the line logged, if any, and the effects on the metrics, `none` after a panic.
  unfoldable pub record_request :
      ℕ → (ℕ → Registry.State reg) → Heap → Request → ℕ → ℕ → ℕ → Option LogLine × Run
  unfolding log_request
  record_request default_registry states h r status size elapsed = (
    log_request h r status size elapsed,
    count_request reg default_registry states h r status elapsed,
  )

  -- A handler behind the middleware: it acts on the recorder, on the ignore rules and on the
  -- registries; `none` is a panic.
  abbrev pub Handler : Type 0
  Handler =
      Request
      → Recorder w × Heap × (ℕ → Registry.State reg)
      → Option (Recorder w × Heap × (ℕ → Registry.State reg))

  -- The handler of `AccessHandler(RecordRequest)`. `start` and `now` are the two readings of the
  -- clock, and a panic of the next handler passes through: nothing is reported then.
  unfoldable pub access_handler :
      ℕ
      → ℕ
      → ℕ
      → Handler
      → Request
      → w.State
      → Heap
      → (ℕ → Registry.State reg)
      → Option (w.State × Heap × (Option LogLine × Run))
  unfolding record_request
  access_handler default_registry start now next r s h states = do
    (b, h', states') ← next r (new_recorder w s, h, states)
    some (
      b.inner,
      h',
      record_request default_registry states' h' r (status w b) (bytes_written_of w b)
          (now - start),
    )
