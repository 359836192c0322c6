-- ===== src/Example.antt =====
-- example/config.go and example/main.go: a program that puts the packages together.
pub mod Running
pub mod Answering
pub mod Serving
use go_baseapp.Prelude.{ℕ, ◌⊎◌, inl, inr, Bool, Option, none, some, List, [], ◌∷◌, if◌then◌else◌}
use go_baseapp.Text.{Text, codes}
use go_baseapp.Text.Numbers.{ℤ}
use go_baseapp.Appmetrics.Values.{Floats, Value}
use go_baseapp.Appmetrics.Registry.{Registry}
use go_baseapp.Appmetrics.Emitter.Datadog.{Counters, Packet}
use go_baseapp.Appmetrics.Emitter.Datadog.Running.{Progress, ticker_panic}
use go_baseapp.Baseapp.Config.{HttpConfig, LoggingConfig}
use go_baseapp.Baseapp.Datadog
use go_baseapp.Baseapp.Datadog.{start_emitter}
use go_baseapp.Baseapp.Logging.{Logger, new_logger}
use go_baseapp.Baseapp.Server.{Types, Server, Zerolog, new_server, default_params, start}
use go_baseapp.Baseapp.Server.Events.{Event, StartResult, start_result}
use go_baseapp.Baseapp.Ignore.{Request}
use go_baseapp.Baseapp.Errors.{Encoding, write_json}
use go_baseapp.Baseapp.Middleware.{returned, calls_of}
use go_baseapp.Baseapp.Writer.Recording.{direct}
use go_baseapp.Baseapp.Stack.{Handler, Toolkit}

pub record AppConfig : Type 0 where
  pub message : Text

pub record Config : Type 0 where
  pub server : HttpConfig
  pub datadog : Datadog.Config
  pub logging : LoggingConfig
  pub app : AppConfig

pub data ConfigError : Type 0 where
  read_failed : Text → ℕ → ConfigError
  parse_failed : ℕ → ConfigError

-- `ReadConfig` behind ioutil.ReadFile; `unmarshal` is yaml.UnmarshalStrict into an empty Config.
parsed_config : Config ⊎ ℕ → Config ⊎ ConfigError
parsed_config (inl c) = inl c
parsed_config (inr err) = inr (parse_failed err)

config_of_file : (Text → Config ⊎ ℕ) → Text → Text ⊎ ℕ → Config ⊎ ConfigError
unfolding parsed_config
config_of_file unmarshal path (inr err) = inr (read_failed path err)
config_of_file unmarshal path (inl bytes) = parsed_config (unmarshal bytes)

-- `ReadConfig`
unfoldable pub read_config : (Text → Text ⊎ ℕ) → (Text → Config ⊎ ℕ) → Text → Config ⊎ ConfigError
unfolding config_of_file
read_config read_file unmarshal path = config_of_file unmarshal path (read_file path)

module _ (t : Types) (floats : Floats) where
  open floats use {Float}

  -- What the emitter's goroutine has done, `none` if it has not run yet.
  abbrev pub Emitted : Type 0
  Emitted = Option (Progress × Counters × List (Packet Float))

  -- How the program goes on or ends: a panic of `main`, the panic of time.NewTicker in the emitter's
  -- goroutine, which ends the program too, or the server that `main` has started, with what Start
  -- returns, if it does.
  pub data MainEnd : Type 0 where
    config_panic : ConfigError → MainEnd
    server_panic : ℕ → MainEnd
    emitter_panic : ℕ → MainEnd
    goroutine_panic : MainEnd
    running : Server t → Emitted → Option StartResult → MainEnd

  -- What the program meets: the files, the parsers, the statsd client, what its two goroutines
  -- receive, and whether the emitter's goroutine gets to run at all before `main` ends. `as_logger` is
  -- the zerolog.Logger with the settings that NewLogger gives it, `default_registry` and
  -- `new_registry` are the registries of go-metrics that NewServer and DefaultParams start with, and
  -- `zerolog` holds that package's settings.
  pub record Surroundings (Level : Type 0) : Type 0 where
    pub read_file : Text → Text ⊎ ℕ
    pub unmarshal : Text → Config ⊎ ℕ
    pub parse_level : Text → Level ⊎ ℕ
    pub quote : Text → Text
    pub as_logger : Logger Level → t.Logger
    pub default_registry : ℕ
    pub new_registry : ℕ
    pub zerolog : Zerolog t
    pub timer_unit : ℕ
    pub new_client : Text → List Text → Option ℕ
    pub emitter_runs : Bool
    pub ticks : List (List (Text × Value Float))
    pub shutdown : ℤ → Option ℕ
    pub events : List Event

  module _ {Level : Type 0} (env : Surroundings Level) where
    -- `server.Start()`, while the emitter's goroutine does this.
    started : Server t → Emitted → MainEnd
    started s (some (ticker_panic, counters, sent)) = goroutine_panic
    started s emitted =
        running (start t s).0 emitted
          (start_result env.shutdown s.config.shutdown_wait_time env.events)

    -- By the result of StartEmitter, which only starts the goroutine.
    with_emitter : Server t → (Progress × Counters × List (Packet Float)) ⊎ ℕ → MainEnd
    unfolding started
    with_emitter s (inr err) = emitter_panic err
    with_emitter s (inl emitted) = started s (if env.emitter_runs then some emitted else none)

    with_server : Config → Server t × Zerolog t × Option ℕ → MainEnd
    unfolding with_emitter
    with_server c (s, z, some err) = server_panic err
    with_server c (s, z, none) =
        with_emitter s (start_emitter floats env.timer_unit env.new_client c.datadog env.ticks)

    -- The logger of `main`.
    abbrev pub main_logger : Config → t.Logger
    main_logger c = env.as_logger (new_logger Level env.parse_level env.quote c.logging).0

    with_config : Config ⊎ ConfigError → MainEnd
    unfolding with_server
    with_config (inr err) = config_panic err
    with_config (inl c) = with_server c (
        new_server t c.server env.default_registry
          (default_params t (main_logger c) env.new_registry) env.zerolog)

    -- `main`
    unfoldable pub main : MainEnd
    unfolding with_config
    main = with_config (read_config env.read_file env.unmarshal (codes "example/config.yml"))

module _ (t : Types) (reg : Registry) (kit : Toolkit t reg) (enc : Encoding) where
  open kit use {Err, PanicValue}

  -- The user agent in the line that ServeHTTP of a MessageHandler logs first.
  abbrev pub logged_user_agent : Request → Text
  logged_user_agent r = r.user_agent

  -- `(*MessageHandler).ServeHTTP`, behind that line.
  unfoldable pub message_handler : Text → Handler reg Err PanicValue
  message_handler message w r u = (
    returned none,
    record u {
      sent = (direct w (calls_of (write_json enc 200 ((codes "message", message) ∷ []))) u.sent).1;
    },
  )

  -- The routes of the mux: goji matches a request against a pattern, and answers by `not_found`.
  unfoldable pub routes :
      (Text → Request → Bool) → Handler reg Err PanicValue → Text → Handler reg Err PanicValue
  unfolding message_handler
  routes matches not_found message w r u =
      if matches (codes "/api/message") r then message_handler message w r u else not_found w r u
