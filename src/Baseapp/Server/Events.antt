-- ===== src/Baseapp/Server/Events.antt =====
-- baseapp/server.go: what Start returns, by the events that it receives.
use go_baseapp.Prelude.{ℕ, Option, none, some, List, [], ◌∷◌}
use go_baseapp.Text.Numbers.{ℤ}

-- The error that serving ends with: http.ErrServerClosed or another, by its identity.
pub data ServeErr : Type 0 where
  server_closed : ServeErr
  serve_failed : ℕ → ServeErr

-- What happens while `Start` blocks: SIGINT or SIGTERM, or the error that `start` returned.
pub data Event : Type 0 where
  interrupt : Event
  quit : ServeErr → Event

-- What `Start` returns; `shutdown_failed` is the error of Shutdown, wrapped.
pub data StartResult : Type 0 where
  success : StartResult
  serve_error : ServeErr → StartResult
  shutdown_failed : ℕ → StartResult

-- `errors.Wrap(…, "Failed shutting down gracefully")`, which is nil for nil.
unfoldable pub wrap_shutdown : Option ℕ → StartResult
wrap_shutdown none = success
wrap_shutdown (some e) = shutdown_failed e

-- What `Start` returns once it has received an event; `shutdown` is the result of Shutdown, given
-- the wait time.
on_event : (ℤ → Option ℕ) → ℤ → Event → StartResult
unfolding wrap_shutdown
on_event shutdown wait interrupt = wrap_shutdown (shutdown wait)
on_event shutdown wait (quit server_closed) = wrap_shutdown (shutdown wait)
on_event shutdown wait (quit (serve_failed e)) = serve_error (serve_failed e)

-- `Start`, by the configured wait time and the events in the order in which they are received.
-- Without a wait time `Start` asks for no signals and calls `start` itself: a signal then takes the
-- process's own course, and the events of the model are those that the process survives. `none`: it
-- still blocks.
unfoldable pub start_result : (ℤ → Option ℕ) → Option ℤ → List Event → Option StartResult
unfolding on_event
start_result shutdown wait [] = none
start_result shutdown none (interrupt ∷ events) = start_result shutdown none events
start_result shutdown none (quit e ∷ events) = some (serve_error e)
start_result shutdown (some wait) (event ∷ events) = some (on_event shutdown wait event)
