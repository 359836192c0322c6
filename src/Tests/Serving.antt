-- ===== src/Tests/Serving.antt =====
-- Requests, their reports, and the server.
use go_baseapp.Baseapp.Writer.Optional.{
  recorder_method, flush_response, assertion_panic, forwarded, has_method,
  recorder_method-wrap_writer,
}
use go_baseapp.Baseapp.Server.Construction.{new_server_error, new_server-default_params, restarts}
use go_baseapp.Baseapp.Metrics.Counting.{
  Counted, BucketCounted, count_request-register_default_metrics,
}
use go_baseapp.Text.Dict.{lookup, insert}
use go_baseapp.Baseapp.Server.Goroutines.{
  Run, selecting, listening, sending, ended, receiving, receive_signal, silent, shutdown_returns,
  start_returns, stop, after_select, after_start,
}
use go_baseapp.Baseapp.Server.Goroutines.Refining.{run-start_result, Served}
use go_baseapp.Appmetrics.Registry.{Metric}
use go_baseapp.Baseapp.Metrics.{
  Effect, register_default_metrics, count_request, bucket_status, key_requests,
}
use go_baseapp.Baseapp.Errors.Responses.{statuses, expected_status, handle_route_error-statuses}
use go_baseapp.Baseapp.Config.{HttpConfig}
use go_baseapp.Text.Numbers.{pos, ℤ, itoa}
use go_baseapp.Baseapp.Errors.{canceled, debug, Encoding, handle_route_error}
use go_baseapp.Baseapp.Server.{
  mux, Param, Zerolog, apply_params, new_server, with_logger, base_server, default_params,
  default_middleware,
}
use go_baseapp.Baseapp.Server.Events.{
  interrupt, server_closed, start_result, StartResult, Event, wrap_shutdown,
}
use go_baseapp.Prelude.{
  ℕ, suc, ◌%◌, ◌^◌, ◌≡◌, refl, ◌≢◌, ◌↔◌, ◌⊎◌, inl, true, false, Option, none, some, List, [], ◌∷◌,
  ◌++◌,
}
use go_baseapp.Text.{codes, Text, text_eq}
use go_baseapp.Tests.Providers.{list_registry, buffer_writer, numbered_types, plain_encoding}
use go_baseapp.Baseapp.Ignore.{Request, Heap, IgnoreRule, zero_rule, is_ignored}
use go_baseapp.Baseapp.Writer.{
  Interfaces, Call, header, body, new_recorder, status, bytes_written_of, interfaces_of,
  wrap_writer,
}
use go_baseapp.Baseapp.Writer.Recording.{through, direct, first_status, total, through_lem}

abbrev ask : Request
ask = record {
  method = codes "GET";
  path = codes "/api/message";
  remote_addr = codes "10.0.0.1";
  user_agent = codes "test";
  rule = some 0;
  registry = none;
}

abbrev rules : Heap
rules = record { rule_at = λ p. zero_rule; next = 1 }

abbrev all_rules : IgnoreRule
all_rules = record { logs = true; metrics = true }

abbrev logs_only : IgnoreRule
logs_only = record { logs = true; metrics = false }

abbrev answer : List Call
answer = body (codes "hi") ∷ header 404 ∷ []

through_lem_example :
    ((through buffer_writer answer (new_recorder buffer_writer [])).0
      ≡ (direct buffer_writer answer []).0)
    × ((through buffer_writer answer (new_recorder buffer_writer [])).1.inner
        ≡ (direct buffer_writer answer []).1)
    × (status buffer_writer (through buffer_writer answer (new_recorder buffer_writer [])).1
        ≡ first_status buffer_writer answer)
    × (bytes_written_of buffer_writer
          (through buffer_writer answer (new_recorder buffer_writer [])).1
        ≡ total buffer_writer (direct buffer_writer answer []).0 % 2 ^ 64)
through_lem_example = through_lem buffer_writer answer []

registered : List (Text × Metric)
registered = elim (register_default_metrics list_registry 0 []) [ none ↦ [] | some s ↦ s ]

registered_some : register_default_metrics list_registry 0 [] ≡ some registered
unfolding registered register_default_metrics lookup insert text_eq
registered_some = refl

abbrev fresh_ask : Request
fresh_ask = record ask { rule = none }

heeded : is_ignored fresh_ask (record { logs = false; metrics = true }) rules ≡ false
unfolding is_ignored
heeded = refl

count_request-register_default_metrics_example :
    (all bucket : List Effect) × (count_request list_registry 0
        (λ r. registered)
        rules
        fresh_ask
        404
        7
      ≡ some (all ++ bucket))
    × Counted list_registry key_requests 7 registered all
    × BucketCounted list_registry (bucket_status 404) 7 registered bucket
count_request-register_default_metrics_example =
    count_request-register_default_metrics list_registry 0 [] 0 (λ r. registered) rules fresh_ask
      404 7 registered_some heeded

marshals : (obj : List (Text × Text)) → (b : Text) × (Encoding.marshal plain_encoding obj ≡ inl b)
marshals obj = (codes "{}", refl)

handle_route_error-statuses_example :
    (statuses (handle_route_error plain_encoding canceled none (codes "id")).0
      ≡ expected_status canceled none ∷ [])
    × (((handle_route_error plain_encoding canceled none (codes "id")).1 ≡ debug)
        ↔ (canceled ≡ canceled))
handle_route_error-statuses_example =
    handle_route_error-statuses plain_encoding canceled none (codes "id") marshals

abbrev config : HttpConfig
config = record {
  address = codes "127.0.0.1";
  port = pos 8080;
  public_url = [];
  tls_config = none;
  shutdown_wait_time = none;
}

abbrev quiet : Zerolog numbered_types
quiet = record { utc_nano_time = false; error_marshal = none }

new_server-default_params_example :
    let (s, z', err) =
      new_server numbered_types config 9 (default_params numbered_types 3 4) quiet in
    (err ≡ none)
    × (s.registry ≡ 4)
    × (s.registered ≡ [])
    × (s.server
        ≡ some (record {
          addr = codes "127.0.0.1" ++ b':' ∷ itoa (pos 8080);
          handler = some (mux (default_middleware numbered_types 3 4));
          tls = some 12;
        }))
    × ((n : ℕ) → (restarts numbered_types (suc n) s).registered ≡ 4 ∷ [])
    × (z' ≡ record { utc_nano_time = true; error_marshal = some 1 })
new_server-default_params_example = new_server-default_params numbered_types config 9 3 4 quiet

abbrev failing : Param numbered_types
failing s z = (s, z, some 5)

one_logger :
    apply_params numbered_types
      (with_logger numbered_types 3 ∷ [])
      (base_server numbered_types config 9)
      quiet
    ≡ (record (base_server numbered_types config 9) { logger = 3 }, quiet, none)
unfolding apply_params with_logger
one_logger = refl

new_server_error_example :
    new_server numbered_types config 9
      ((with_logger numbered_types 3 ∷ []) ++ failing ∷ with_logger numbered_types 8 ∷ [])
      quiet
    ≡ (record (base_server numbered_types config 9) { logger = 3 }, quiet, some 5)
new_server_error_example =
    new_server_error numbered_types config 9 (with_logger numbered_types 3 ∷ [])
      (with_logger numbered_types 8 ∷ []) failing
      (record (base_server numbered_types config 9) { logger = 3 })
      (record (base_server numbered_types config 9) { logger = 3 }) quiet quiet quiet 5 one_logger
      refl

abbrev no_shutdown_error : ℤ → Option ℕ
no_shutdown_error wait = none

-- A signal, the shutdown, and then the error of the goroutine that serves.
signalled :
    Run no_shutdown_error
      (pos 30)
      selecting
      listening
      (interrupt ∷ [])
      (ended (wrap_shutdown none))
      (sending server_closed)
unfolding after_select after_start
signalled = receiving (receive_signal listening) (
    silent (shutdown_returns listening)
      (silent (start_returns (ended (wrap_shutdown none)) server_closed) stop))

run-start_result_example :
    ((ended (wrap_shutdown none) ≡ selecting) ↔ (interrupt ∷ [] ≡ []))
    × ((interrupt ∷ [] ≢ [])
        → (result : StartResult) × Run no_shutdown_error
            (pos 30)
            (ended (wrap_shutdown none))
            (sending server_closed)
            []
            (ended result)
            (sending server_closed))
    × ((result : StartResult)
        → ended (wrap_shutdown none) ≡ ended result
        → start_result no_shutdown_error (some (pos 30)) (interrupt ∷ []) ≡ some result)
    × ((interrupt ∷ [] ≡ [])
        ⊎ ((event : Event) × (interrupt ∷ [] ≡ event ∷ [])
            × Served no_shutdown_error (pos 30) event (sending server_closed)))
run-start_result_example = run-start_result no_shutdown_error (pos 30) signalled

abbrev http1 : Interfaces
http1 = record { flusher = true; close_notifier = true; hijacker = true; reader_from = true }

recorder_method-wrap_writer_example :
    (recorder_method (wrap_writer http1) http1 flush_response ≢ assertion_panic)
    × ((recorder_method (wrap_writer http1) http1 flush_response ≡ forwarded)
        ↔ (has_method (interfaces_of (wrap_writer http1)) flush_response ≡ true))
    × (wrap_writer (interfaces_of (wrap_writer http1)) ≡ wrap_writer http1)
recorder_method-wrap_writer_example = recorder_method-wrap_writer http1 flush_response
