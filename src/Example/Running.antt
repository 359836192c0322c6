-- ===== src/Example/Running.antt =====
-- How the example program ends.
use go_baseapp.Prelude.{
  ℕ, ◌≡◌, refl, ◌⊎◌, inl, inr, true, false, Option, none, some, [], ◌∷◌, ◌++◌, if◌then◌else◌,
  Bool-cases, either_cases,
}
use go_baseapp.Text.{codes, text_eq}
use go_baseapp.Text.Numbers.{itoa, pos, negsuc}
use go_baseapp.Appmetrics.Values.{Floats}
use go_baseapp.Appmetrics.Emitter.Datadog.Running.{completed, start_emitter-cases, waiting, reached}
use go_baseapp.Appmetrics.Emitter.Datadog.{emit_rounds}
use go_baseapp.Baseapp.Datadog.{start_emitter}
use go_baseapp.Baseapp.Server.{
  Types, Server, mux, default_middleware, new_server, default_params, start,
}
use go_baseapp.Baseapp.Server.Getters.{registry, http_server}
use go_baseapp.Baseapp.Server.Events.{start_result}
use go_baseapp.Example.{
  Config, ConfigError, read_config, config_panic, emitter_panic, running, Surroundings, main,
  main_logger, with_config, with_server, with_emitter, started, goroutine_panic, Emitted,
}

module _ (t : Types) (floats : Floats) {Level : Type 0} (env : Surroundings t floats Level) where
  -- The server of a configuration, as it runs: it serves the default middleware over the mux, and
  -- the default metrics have been registered once, in the registry of that middleware.
  abbrev pub Serves : Config → Server t → Type 0
  Serves c s =
      (registry t s ≡ env.new_registry)
      × (s.registered ≡ env.new_registry ∷ [])
      × (http_server t s
          ≡ some (record {
            addr = c.server.address ++ b':' ∷ itoa c.server.port;
            handler =
                some (mux (default_middleware t (main_logger t floats env c) env.new_registry));
            tls = some t.recommended;
          }))

  -- What the emitter has done after its ticks, unless its goroutine has not run yet.
  abbrev pub emitted : Emitted t floats
  emitted =
      if env.emitter_runs
      then some
          (reached floats env.timer_unit waiting (emit_rounds floats env.timer_unit env.ticks []))
      else none

  -- The statsd client that StartEmitter makes, or its error.
  abbrev pub client_of : Config → Option ℕ
  client_of c = env.new_client (completed c.datadog).address c.datadog.tags

  -- What becomes of the program once it has a configuration.
  abbrev pub Ran : Config → Type 0
  Ran c =
      ((err : ℕ) × (client_of c ≡ some err) × (main t floats env ≡ emitter_panic err))
      ⊎ ((n : ℕ) × (client_of c ≡ none)
          × (c.datadog.interval ≡ negsuc n)
          × (env.emitter_runs ≡ true)
          × (main t floats env ≡ goroutine_panic))
      ⊎ ((s : Server t) × (client_of c ≡ none)
          × (((n : ℕ) × (c.datadog.interval ≡ pos n)) ⊎ (env.emitter_runs ≡ false))
          × (main t floats env
              ≡ running s emitted
                  (start_result env.shutdown c.server.shutdown_wait_time env.events))
          × Serves c s)

  -- The server that `main` starts.
  abbrev server_of : Config → Server t
  server_of c =
      (start t
        (new_server t c.server env.default_registry
          (default_params t (main_logger t floats env c) env.new_registry) env.zerolog).0).0

  server_of-Serves : (c : Config) → Serves c (server_of c)
  unfolding new_server default_params start text_eq
  server_of-Serves c = (refl, refl, refl)

  pub ran :
      (c : Config)
      → read_config env.read_file env.unmarshal (codes "example/config.yml") ≡ inl c
      → Ran c
  unfolding main with_config with_server with_emitter started start_emitter new_server
      default_params
  ran c e = elim (start_emitter-cases floats env.timer_unit env.new_client c.datadog env.ticks) [
    | inl (err, refused, failed) ↦ inl (err, refused, rw (e, failed) refl)
    | inr (made, inl (n, i, panics)) ↦ elim (Bool-cases env.emitter_runs) [
      | inl b ↦ inr (inl (n, made, i, b, rw (e, panics, b) refl))
      | inr b ↦ inr (inr (server_of c, made, inr b, rw (e, panics, b) refl, server_of-Serves c))
    ]
    | inr (made, inr (n, i, sent)) ↦ elim (Bool-cases env.emitter_runs) [
      | inl b ↦ inr (inr (server_of c, made, inl (n, i), rw (e, sent, b) refl, server_of-Serves c))
      | inr b ↦ inr (inr (server_of c, made, inl (n, i), rw (e, sent, b) refl, server_of-Serves c))
    ]
  ]

  -- `main` panics if its configuration cannot be read or parsed, or if the statsd client cannot be
  -- made for the configured address or the default one; it never panics over its server. The program
  -- is ended by the emitter's goroutine if the configured interval is negative and that goroutine
  -- gets to run. Otherwise its server runs with the default middleware, on the configured address and
  -- port, with the default metrics registered once; the emitter, if its goroutine runs, has sent what
  -- its ticks make; and Start returns what it returns for the events and the configured wait time.
  pub main_lem :
      ((err : ConfigError) × (read_config env.read_file env.unmarshal (codes "example/config.yml")
          ≡ inr err)
        × (main t floats env ≡ config_panic err))
      ⊎ ((c : Config) × (read_config env.read_file env.unmarshal (codes "example/config.yml")
            ≡ inl c)
          × Ran c)
  unfolding main with_config
  main_lem =
      elim (either_cases (read_config env.read_file env.unmarshal (codes "example/config.yml"))) [
        | inl h ↦ let (c, e) = h in inr (c, e, ran c e)
        | inr h ↦ let (err, e) = h in inl (err, e, rw e refl)
      ]
