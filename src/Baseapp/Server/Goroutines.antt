-- ===== src/Baseapp/Server/Goroutines.antt =====
-- baseapp/server.go: Start with a wait time as two goroutines, the caller and the one that serves,
-- whose steps are interleaved in any order.
pub mod Refining
use go_baseapp.Prelude.{ℕ, Option, none, some, List, [], ◌∷◌}
use go_baseapp.Text.Numbers.{ℤ}
use go_baseapp.Baseapp.Server.Events.{
  Event, interrupt, quit, StartResult, serve_error, ServeErr, server_closed, serve_failed,
  wrap_shutdown,
}

-- Where the goroutine that serves is: in `start`, at `quit <- err`, or at its end.
pub data Serving : Type 0 where
  listening : Serving
  sending : ServeErr → Serving
  finished : Serving

-- Where the caller of `Start` is: at the `select`, in Shutdown, or at its end.
pub data Caller : Type 0 where
  selecting : Caller
  shutting_down : Caller
  ended : StartResult → Caller

-- `if err := s.start(); err != nil { quit <- err }`
unfoldable pub after_start : Option ServeErr → Serving
after_start none = finished
after_start (some err) = sending err

-- The cases of the `select`, and what comes behind it.
unfoldable pub after_select : Event → Caller
after_select interrupt = shutting_down
after_select (quit server_closed) = shutting_down
after_select (quit (serve_failed err)) = ended (serve_error (serve_failed err))

-- `shutdown` is the result of Shutdown, given the wait time.
module _ (shutdown : ℤ → Option ℕ) (wait : ℤ) where
  -- The steps at which nothing is received: `start` returns, always with an error as net/http says
  -- of its two ways to serve, and Shutdown returns.
  pub data Step : Caller → Serving → Caller → Serving → Type 0 where
    start_returns : (c : Caller) (err : ServeErr) → Step c listening c (after_start (some err))
    shutdown_returns :
        (s : Serving) → Step shutting_down s (ended (wrap_shutdown (shutdown wait))) s

  -- The steps at which the `select` receives: `interrupt` is a buffered channel, which the runtime
  -- fills at any time; `quit` has no buffer, and sending ends as the error is received.
  pub data Receive : Caller → Serving → Event → Caller → Serving → Type 0 where
    receive_signal : (s : Serving) → Receive selecting s interrupt (after_select interrupt) s
    receive_quit :
        (err : ServeErr)
        → Receive selecting (sending err) (quit err) (after_select (quit err)) finished

  -- The runs from one pair of places to another, by the events received.
  pub data Run : Caller → Serving → List Event → Caller → Serving → Type 0 where
    stop : {c : Caller} {s : Serving} → Run c s [] c s
    silent :
        {c c' c'' : Caller} {s s' s'' : Serving} {events : List Event}
        → Step c s c' s'
        → Run c' s' events c'' s''
        → Run c s events c'' s''
    receiving :
        {c c' c'' : Caller} {s s' s'' : Serving} {event : Event} {events : List Event}
        → Receive c s event c' s'
        → Run c' s' events c'' s''
        → Run c s (event ∷ events) c'' s''
