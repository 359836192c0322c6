-- ===== src/Example/Serving.antt =====
-- The running server of the example program, and the requests that it gets.
use go_baseapp.Prelude.{
  ℕ, ◌-◌, ◌%◌, ◌^◌, ◌≡◌, ◌≢◌, refl, sym, ◌∙◌, inl, inr, Bool, true, none, some, List, [], ◌∷◌, ◌++◌,
}
use mathlib.Core.Option.{none-ne-some}
use go_baseapp.Text.{Text, codes}
use go_baseapp.Appmetrics.Values.{Floats}
use go_baseapp.Appmetrics.Registry.{Registry}
use go_baseapp.Baseapp.Metrics.{Effect, register_default_metrics, key_requests, key_requests2xx}
use go_baseapp.Baseapp.Metrics.Counting.{Counted}
use go_baseapp.Baseapp.Writer.{ResponseWriter}
use go_baseapp.Baseapp.Writer.Recording.{direct, total}
use go_baseapp.Baseapp.Errors.{Encoding, ContextErr}
use go_baseapp.Baseapp.Ignore.{Request}
use go_baseapp.Baseapp.Middleware.{returned}
use go_baseapp.Baseapp.Middleware.Composing.{identified, inner_request}
use go_baseapp.Baseapp.Middleware.Failing.{Marshals}
use go_baseapp.Baseapp.Server.{Types, Server, HttpServer, Served}
use go_baseapp.Baseapp.Server.Getters.{registry, http_server}
use go_baseapp.Baseapp.Server.Events.{start_result}
use go_baseapp.Baseapp.Stack.{World, Handler, Toolkit, served}
use go_baseapp.Baseapp.Stack.Running.{packages_at}
use go_baseapp.Baseapp.Stack.Reporting.{line_of}
use go_baseapp.Example.{Config, read_config, running, Surroundings, main, main_logger, routes}
use go_baseapp.Example.Running.{ran, emitted, client_of}
use go_baseapp.Text.Numbers.{pos, negsuc}
use go_baseapp.Example.Answering.{message_calls, served-routes}

pos-ne-negsuc : (n m : ℕ) → pos n ≢ negsuc m
pos-ne-negsuc n m e = cc

module _ (t : Types) (floats : Floats) {Level : Type 0} (env : Surroundings t floats Level)
    (reg : Registry) (kit : Toolkit t reg) (enc : Encoding) where
  open kit use {Err, PanicValue}

  -- The configuration can be read and has an interval that is not negative, the statsd client can be
  -- made, every object can be marshalled, and
  -- the default metrics are registered in the one registry on which the started server registers
  -- them. Then the program runs, and the handler of its http.Server, with the route of the configured
  -- message, answers a request that goji matches with the pattern by that message as JSON with the
  -- status 200; there is exactly one more report, which logs that status and counts the request among
  -- all requests and among those with a status 2xx, in the registry that the server reports.
  pub main-served :
      (c : Config) (n start now next : ℕ) (cerr : ContextErr) (metrics : Registry.State reg)
      (matches : Text → Request → Bool) (not_found : Handler reg Err PanicValue)
      (w : ResponseWriter) (r : Request) (u : World reg w.State)
      → read_config env.read_file env.unmarshal (codes "example/config.yml") ≡ inl c
      → client_of t floats env c ≡ none
      → c.datadog.interval ≡ pos n
      → Marshals enc
      → matches
          (codes "/api/message")
          (inner_request reg w
            (packages_at t reg kit enc w)
            enc
            (main_logger t floats env c)
            env.new_registry
            r
            u.sent
            u.rules).0
        ≡ true
      → register_default_metrics reg next metrics ≡ some (u.registries env.new_registry)
      → let (q, h') =
          inner_request reg w
            (packages_at t reg kit enc w)
            enc
            (main_logger t floats env c)
            env.new_registry
            r
            u.sent
            u.rules in
        let s' =
          (identified reg w
            (packages_at t reg kit enc w)
            enc
            (main_logger t floats env c)
            env.new_registry
            r
            u.sent).1 in
        let sent = direct w (message_calls t reg kit enc c.app.message) s' in
        (s : Server t) × (h : HttpServer t) × (handler : Served t) × (all bucket : List Effect)
        × (main t floats env
            ≡ running s
                (emitted t floats env)
                (start_result env.shutdown c.server.shutdown_wait_time env.events))
        × (s.registered ≡ registry t s ∷ [])
        × (http_server t s ≡ some h)
        × (h.handler ≡ some handler)
        × (served t reg kit enc env.default_registry start now cerr handler
              (routes t reg kit enc matches not_found c.app.message)
              w
              r
              u
            ≡ (
              returned none,
              record {
                sent = sent.1;
                rules = h';
                registries = u.registries;
                reports =
                    u.reports
                    ++ (
                      some (line_of q 200 (total w sent.0 % 2 ^ 64) (now - start)),
                      some (all ++ bucket),
                    )
                      ∷ [];
              },
            ))
        × Counted reg key_requests (now - start) (u.registries (registry t s)) all
        × Counted reg key_requests2xx (now - start) (u.registries (registry t s)) bucket
  main-served c n start now next cerr metrics matches not_found w r u e made i good matched done =
      let (all, bucket, answered, a, b) =
        served-routes t reg kit enc env.default_registry start now next cerr metrics
          (main_logger t floats env c) env.new_registry matches not_found c.app.message w r u good
          matched done in
      elim (ran t floats env c e) [
        | inl (err, refused, _) ↦ absurd (none-ne-some _ (sym made ∙ refused))
        | inr (inl (m, _, negative, _, _)) ↦ absurd (pos-ne-negsuc n m (sym i ∙ negative))
        | inr (inr (s, _, _, runs, (same, registered, handled))) ↦ (
          s,
          _,
          _,
          all,
          bucket,
          runs,
          rw same registered,
          handled,
          refl,
          answered,
          rw same a,
          rw same b,
        )
      ]
