-- ===== src/Tests/Programs.antt =====
-- Requests through the stack of middleware, and runs of the example program.
use go_baseapp.Baseapp.Metrics.Counting.{Counted, BucketCounted}
use go_baseapp.Baseapp.Datadog
use go_baseapp.Example.{
  Config, Surroundings, ConfigError, read_config, main, config_panic, running, routes,
  goroutine_panic,
}
use go_baseapp.Baseapp.Stack.Reporting.{line_of, stack-reported}
use go_baseapp.Baseapp.Metrics.{
  with_metrics_ctx, Effect, key_requests, key_requests2xx, bucket_status,
}
use go_baseapp.Example.Answering.{message_calls}
use go_baseapp.Baseapp.Writer.Recording.{direct, first_status, total}
use go_baseapp.Baseapp.Stack.Running.{packages_at, routing_on}
use go_baseapp.Tests.Providers.{
  list_registry, numbered_types, buffer_writer, plain_encoding, counting_floats,
}
use go_baseapp.Baseapp.Ignore.{Request, new_ignore}
use go_baseapp.Baseapp.Access.{new_metrics_handler}
use go_baseapp.Baseapp.Errors.{no_error}
use go_baseapp.Text.{Text, codes, text_eq}
use go_baseapp.Baseapp.Stack.{Toolkit, World, served, stack, Handler}
use go_baseapp.Baseapp.Middleware.Composing.{inner_request, identified, error_calls}
use go_baseapp.Prelude.{
  ℕ, ◌-◌, ◌%◌, ◌^◌, ◌≡◌, refl, ◌⊎◌, inl, inr, Bool, true, false, Option, none, some, List, [], ◌∷◌,
  ◌++◌,
}
use go_baseapp.Example.Serving.{main-served}
use go_baseapp.Baseapp.Server.Getters.{registry, http_server}
use go_baseapp.Appmetrics.Emitter.Datadog.Running.{completed, emit, start_emitter}
use go_baseapp.Baseapp.Server.{
  HttpServer, Served, Server, default_middleware, new_server, default_params,
}
use go_baseapp.Baseapp.Server.Events.{start_result, interrupt}
use go_baseapp.Example.Running.{Ran, main_lem, emitted}
use go_baseapp.Appmetrics.Values.{counter}
use go_baseapp.Text.Numbers.{pos, negsuc}
use go_baseapp.Baseapp.Middleware.{Packages, Inner, returned, caught, recovered}
use go_baseapp.Tests.Stacks.{ask, rules, calls, ending, registered, registered_some}

-- An error is its status code, and a panic's value is any number.
abbrev kit : Toolkit numbered_types list_registry
kit = record {
  Err = Option ℕ;
  PanicValue = ℕ;
  with_logger = λ logger r. r;
  request_id_handler = λ w field_key header_name r s. (r, w.set_header header_name (codes "7") s);
  id_of = λ r. codes "7";
  cause_status = λ err. err;
  panic_error = λ v. none;
  assertion_failed = 1;
  catch = λ f next w r u. caught (f w) r (next w r u);
  recover = λ next w r u. recovered (λ v. none) (next w r u);
  other = λ m next. next;
  given_handler = λ h w r u. (returned none, u);
  request_id_handler-registry = λ w field_key header_name r s. refl;
  catch_law = λ f next w r u. refl;
  recover_law = λ next w r u. refl;
}

abbrev world : World list_registry Text
world = record { sent = []; rules = rules; registries = λ r. registered; reports = [] }

abbrev at_buffer : Packages Text (Inner list_registry buffer_writer)
at_buffer = packages_at numbered_types list_registry kit plain_encoding buffer_writer

stack-reported_example :
    let (q, h') =
      inner_request list_registry buffer_writer at_buffer plain_encoding 3 4 ask [] rules in
    let s' = (identified list_registry buffer_writer at_buffer plain_encoding 3 4 ask []).1 in
    let all =
      calls
      ++ error_calls list_registry buffer_writer at_buffer plain_encoding no_error q (some none) in
    let sent = direct buffer_writer all s' in
    (every bucket : List Effect) × (stack numbered_types list_registry kit plain_encoding 0 10 15
        no_error
        (default_middleware numbered_types 3 4)
        (routing_on numbered_types list_registry kit plain_encoding calls (λ h. h) (λ s. s) ending)
        buffer_writer
        ask
        world
      ≡ (
        returned none,
        record {
          sent = sent.1;
          rules = h';
          registries = λ r. registered;
          reports =
              (
                some (
                    line_of q
                      (first_status buffer_writer all)
                      (total buffer_writer sent.0 % 2 ^ 64)
                      (15 - 10)),
                some (every ++ bucket),
              )
              ∷ [];
        },
      ))
    × Counted list_registry key_requests (15 - 10) registered every
    × BucketCounted list_registry
        (bucket_status (first_status buffer_writer all))
        (15 - 10)
        registered
        bucket
stack-reported_example =
    stack-reported numbered_types list_registry kit plain_encoding 0 10 15 0 no_error [] 3 4 calls
      (λ s. s) ending buffer_writer ask world registered_some

-- A pattern matches the requests with its path.
abbrev matches : Text → Request → Bool
matches pattern r = text_eq pattern r.path

abbrev not_found : Handler list_registry (Option ℕ) ℕ
not_found w r u = (returned none, record u { sent = w.write_header 404 u.sent })

matched :
    matches
      (codes "/api/message")
      (inner_request list_registry buffer_writer at_buffer plain_encoding 3 4 ask [] rules).0
    ≡ true
unfolding inner_request identified new_ignore text_eq new_metrics_handler with_metrics_ctx
matched = refl

abbrev config : Config
config = record {
  server = record {
    address = codes "127.0.0.1";
    port = pos 8080;
    public_url = codes "http://localhost:8080";
    tls_config = none;
    shutdown_wait_time = some (pos 5);
  };
  datadog = record { address = []; interval = pos 0; tags = codes "app" ∷ [] };
  logging = record { level = codes "debug"; pretty = true };
  app = record { message = codes "hello" };
}

-- One tick, a signal, and no errors.
abbrev surroundings : Surroundings numbered_types counting_floats ℕ
surroundings = record {
  read_file = λ path. inl path;
  unmarshal = λ bytes. inl config;
  parse_level = λ s. inl 0;
  quote = λ s. s;
  as_logger = λ logger. 3;
  default_registry = 0;
  new_registry = 4;
  zerolog = record { utc_nano_time = false; error_marshal = none };
  timer_unit = 1;
  new_client = λ address tags. none;
  emitter_runs = true;
  ticks = ((codes "m", counter 5) ∷ []) ∷ [];
  shutdown = λ wait. none;
  events = interrupt ∷ [];
}

main_lem_example :
    ((err : ConfigError) × (read_config surroundings.read_file surroundings.unmarshal
          (codes "example/config.yml")
        ≡ inr err)
      × (main numbered_types counting_floats surroundings ≡ config_panic err))
    ⊎ ((c : Config) × (read_config surroundings.read_file surroundings.unmarshal
            (codes "example/config.yml")
          ≡ inl c)
        × Ran numbered_types counting_floats surroundings c)
main_lem_example = main_lem numbered_types counting_floats surroundings

main-served_example :
    let (q, h') =
      inner_request list_registry buffer_writer at_buffer plain_encoding 3 4 ask [] rules in
    let s' = (identified list_registry buffer_writer at_buffer plain_encoding 3 4 ask []).1 in
    let sent =
      direct buffer_writer
        (message_calls numbered_types list_registry kit plain_encoding (codes "hello"))
        s' in
    (s : Server numbered_types) × (h : HttpServer numbered_types) × (handler : Served
      numbered_types)
    × (all bucket : List Effect) × (main numbered_types counting_floats surroundings
        ≡ running s
            (emitted numbered_types counting_floats surroundings)
            (start_result surroundings.shutdown (some (pos 5)) surroundings.events))
    × (s.registered ≡ registry numbered_types s ∷ [])
    × (http_server numbered_types s ≡ some h)
    × (h.handler ≡ some handler)
    × (served numbered_types list_registry kit plain_encoding 0 10 15 no_error handler
          (routes numbered_types list_registry kit plain_encoding matches not_found (codes "hello"))
          buffer_writer
          ask
          world
        ≡ (
          returned none,
          record {
            sent = sent.1;
            rules = h';
            registries = λ r. registered;
            reports =
                (
                  some (line_of q 200 (total buffer_writer sent.0 % 2 ^ 64) (15 - 10)),
                  some (all ++ bucket),
                )
                ∷ [];
          },
        ))
    × Counted list_registry key_requests (15 - 10) registered all
    × Counted list_registry key_requests2xx (15 - 10) registered bucket
unfolding read_config
main-served_example =
    main-served numbered_types counting_floats surroundings list_registry kit plain_encoding config
      0 10 15 0 no_error [] matches not_found buffer_writer ask world refl refl refl
      (λ obj. (codes "{}", refl)) matched registered_some

-- A negative interval ends the program.
negative_interval_test :
    main numbered_types counting_floats (record surroundings {
      unmarshal = λ bytes.
          inl (record config { datadog = record { address = []; interval = negsuc 0; tags = [] } });
    })
    ≡ goroutine_panic
unfolding main read_config start_emitter Datadog.start_emitter completed emit text_eq new_server
    default_params
negative_interval_test = refl
