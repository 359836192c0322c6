-- ===== src/Baseapp/Server/Starting.antt =====
-- How Start ends.
use go_baseapp.Prelude.{Option, none, some, List, [], ◌∷◌}
use go_baseapp.Baseapp.Server.Events.{Event, interrupt, quit, StartResult, serve_error, ServeErr}

-- The first error that serving ends with.
pub first_quit : List Event → Option ServeErr
first_quit [] = none
first_quit (interrupt ∷ events) = first_quit events
first_quit (quit e ∷ events) = some e

pub to_result : Option ServeErr → Option StartResult
to_result none = none
to_result (some e) = some (serve_error e)
