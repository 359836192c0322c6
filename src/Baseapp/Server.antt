-- ===== src/Baseapp/Server.antt =====
-- baseapp/server.go and baseapp/params.go: how a server is put together, started and shut down.
pub mod Construction
pub mod Events
pub mod Starting
pub mod Goroutines
pub mod Getters
use go_baseapp.Prelude.{
  ℕ, Bool, true, false, Option, none, some, List, [], ◌∷◌, ◌++◌, if◌then◌else◌,
}
use go_baseapp.Text.{Text, codes, text_eq}
use go_baseapp.Text.Numbers.{itoa}
use go_baseapp.Baseapp.Config.{HttpConfig, TlsConfig}

-- The types that other packages provide: loggers, middleware, handlers and TLS settings. A registry
-- and an error are known by an identity.
pub record Types : Type 1 where
  pub Logger : Type 0
  pub OtherMiddleware : Type 0
  pub Handler : Type 0
  pub Tls : Type 0
  pub Marshal : Type 0
  -- zerolog.Nop()
  pub nop : Logger
  -- The TLS settings that NewServer makes.
  pub recommended : Tls
  -- RichErrorMarshalFunc, which the package only hands on
  pub rich_error_marshal : Marshal

module _ (t : Types) where
  open t use {Logger, OtherMiddleware, Handler, Tls, Marshal, nop, recommended, rich_error_marshal}

  -- Middleware by what makes it; the callbacks of AccessHandler and Catch are those of
  -- DefaultMiddleware, RecordRequest and HandleRouteError.
  pub data Middleware : Type 0 where
    hlog_new_handler : Logger → Middleware
    metrics_handler : ℕ → Middleware
    hlog_request_id_handler : Text → Text → Middleware
    ignore_handler : Middleware
    access_handler_record_request : Middleware
    hatpear_catch_handle_route_error : Middleware
    hatpear_recover : Middleware
    other_middleware : OtherMiddleware → Middleware

  -- `DefaultMiddleware`
  unfoldable pub default_middleware : Logger → ℕ → List Middleware
  default_middleware logger registry =
      hlog_new_handler logger
      ∷ metrics_handler registry
      ∷ hlog_request_id_handler (codes "rid") (codes "X-Request-ID")
      ∷ ignore_handler
      ∷ access_handler_record_request
      ∷ hatpear_catch_handle_route_error
      ∷ hatpear_recover
      ∷ []

  -- What serves the requests: a given handler, or the server's mux with its middleware.
  pub data Served : Type 0 where
    given : Handler → Served
    mux : List Middleware → Served

  -- http.Server
  pub record HttpServer : Type 0 where
    pub addr : Text
    pub handler : Option Served
    pub tls : Option Tls

  -- The functions of `initFns`.
  pub data InitFn : Type 0 where
    register_defaults : InitFn

  -- Server. `middleware` is `none` for a nil slice, `mux` holds what `mux.Use` was called with, and
  -- `registry` is an identity; `registered` lists the registries on which an init function has run.
  pub record Server : Type 0 where
    pub config : HttpConfig
    pub middleware : Option (List Middleware)
    pub logger : Logger
    pub mux : List Middleware
    pub server : Option HttpServer
    pub registry : ℕ
    pub init_fns : List InitFn
    pub init_done : Bool
    pub registered : List ℕ

  -- The settings of the package zerolog.
  pub record Zerolog : Type 0 where
    pub utc_nano_time : Bool
    pub error_marshal : Option Marshal

  -- Param: it changes the server and zerolog's settings, and may fail.
  abbrev pub Param : Type 0
  Param = Server → Zerolog → Server × Zerolog × Option ℕ

  abbrev pub succeed : Server → Zerolog → Server × Zerolog × Option ℕ
  succeed s z = (s, z, none)

  unfoldable pub with_logger : Logger → Param
  with_logger logger s z = succeed (record s { logger = logger }) z

  unfoldable pub with_middleware : Option (List Middleware) → Param
  with_middleware middleware s z = succeed (record s { middleware = middleware }) z

  unfoldable pub with_utc_nano_time : Param
  with_utc_nano_time s z = succeed s (record z { utc_nano_time = true })

  unfoldable pub with_error_logging : Marshal → Param
  with_error_logging marshal s z = succeed s (record z { error_marshal = some marshal })

  unfoldable pub with_registry : ℕ → Param
  with_registry registry s z = succeed (record s { registry = registry }) z

  unfoldable pub with_metrics : Param
  with_metrics s z = succeed (record s { init_fns = s.init_fns ++ register_defaults ∷ [] }) z

  unfoldable pub with_http_server : HttpServer → Param
  with_http_server server s z = succeed (record s { server = some server }) z

  -- `DefaultParams`; `new_registry` is the registry that it makes, prefixed or not.
  unfoldable pub default_params : Logger → ℕ → List Param
  unfolding with_logger with_registry with_middleware with_utc_nano_time with_error_logging
      with_metrics
  default_params logger new_registry =
      with_logger logger
      ∷ with_registry new_registry
      ∷ with_middleware (some (default_middleware logger new_registry))
      ∷ with_utc_nano_time
      ∷ with_error_logging rich_error_marshal
      ∷ with_metrics
      ∷ []

  -- `if err := p(base); err != nil { return base, err }`, and what comes next.
  and_then : Server × Zerolog × Option ℕ → Param → Server × Zerolog × Option ℕ
  and_then (s, z, none) next = next s z
  and_then (s, z, some e) next = (s, z, some e)

  -- The loop over the parameters, which stops at the first error.
  unfoldable pub apply_params : List Param → Param
  unfolding and_then
  apply_params [] s z = succeed s z
  apply_params (p ∷ ps) s z = and_then (p s z) (λ s' z'. apply_params ps s' z')

  -- `base.middleware`, or the default.
  middleware_of : Option (List Middleware) → Logger → ℕ → List Middleware
  middleware_of none logger registry = default_middleware logger registry
  middleware_of (some middleware) logger registry = middleware

  -- `base.server`, or a new one.
  server_of : Option HttpServer → HttpServer
  server_of none = record { addr = []; handler = none; tls = some recommended }
  server_of (some server) = server

  handler_of : Option Served → List Middleware → Served
  handler_of none used = mux used
  handler_of (some h) used = h

  -- The rest of `NewServer`, once the parameters are applied.
  complete : HttpConfig → Server → Server
  unfolding middleware_of server_of handler_of
  complete c s =
      let middleware = middleware_of s.middleware s.logger s.registry in
      let used = s.mux ++ middleware in
      let server = server_of s.server in
      let addr = if text_eq server.addr [] then c.address ++ b':' ∷ itoa c.port else server.addr in
      record s {
        middleware = some middleware;
        mux = used;
        server =
            some (record server { addr = addr; handler = some (handler_of server.handler used) });
      }

  -- The server that `NewServer` starts from.
  unfoldable pub base_server : HttpConfig → ℕ → Server
  base_server c default_registry = record {
    config = c;
    middleware = none;
    logger = nop;
    mux = [];
    server = none;
    registry = default_registry;
    init_fns = [];
    init_done = false;
    registered = [];
  }

  -- `NewServer`
  unfoldable pub new_server : HttpConfig → ℕ → List Param → Zerolog → Server × Zerolog × Option ℕ
  unfolding apply_params complete base_server and_then
  new_server c default_registry params z =
      and_then (apply_params params (base_server c default_registry) z)
        (λ s z'. succeed (complete c s) z')

  -- The call that serves.
  pub data Listen : Type 0 where
    listen : Listen
    listen_tls : Text → Text → Listen

  -- `fn(s)` for each of the init functions: RegisterDefaultMetrics(s.Registry()).
  run_init_fns : List InitFn → ℕ → List ℕ → List ℕ
  run_init_fns [] registry done = done
  run_init_fns (register_defaults ∷ fns) registry done =
      run_init_fns fns registry (done ++ registry ∷ [])

  -- `s.init.Do(…)`
  init : Server → Server
  unfolding run_init_fns
  init s = if s.init_done then s else record s {
    init_done = true;
    registered = run_init_fns s.init_fns s.registry s.registered;
  }

  listen_of : Option TlsConfig → Listen
  listen_of none = listen
  listen_of (some tls) = listen_tls tls.cert_file tls.key_file

  -- `start`: the server afterwards, and the call that it blocks on.
  unfoldable pub start : Server → Server × Listen
  unfolding init listen_of
  start s = (init s, listen_of s.config.tls_config)
