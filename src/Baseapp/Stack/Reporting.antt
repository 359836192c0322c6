-- ===== src/Baseapp/Stack/Reporting.antt =====
-- What the stack of DefaultMiddleware reports of a request.
use mathlib.Core.Path.{subst}
use go_baseapp.Prelude.{
  sym, ap, ℕ, ◌-◌, ◌%◌, ◌^◌, ◌≡◌, refl, ◌∙◌, true, false, none, some, List, [], ◌∷◌, ◌++◌,
}
use go_baseapp.Appmetrics.Registry.{Registry}
use go_baseapp.Baseapp.Ignore.{Request, Heap, is_ignored}
use go_baseapp.Baseapp.Metrics.{
  Effect, register_default_metrics, metrics_ctx, bucket_status, key_requests,
}
use go_baseapp.Baseapp.Metrics.Counting.{
  Counted, BucketCounted, count_request-register_default_metrics,
}
use go_baseapp.Baseapp.Writer.{Recorder, recording, new_recorder, ResponseWriter, Call}
use go_baseapp.Baseapp.Writer.Recording.{direct, total, first_status}
use go_baseapp.Baseapp.Access.{LogLine, log_request, record_request}
use go_baseapp.Baseapp.Errors.{Encoding, ContextErr}
use go_baseapp.Baseapp.Middleware.{caught, recovered, Ending, returned}
use go_baseapp.Baseapp.Middleware.Composing.{
  error_of, error_calls, identified, inner_request, identified-registry, inner_request_fresh,
  inner_request_fresh,
}
use go_baseapp.Baseapp.Server.{Types, default_middleware}
use go_baseapp.Baseapp.Stack.{
  access_reported, route_error_on, Handler, apply, World, Toolkit, add_report, stack,
}
use go_baseapp.Baseapp.Stack.Running.{packages_at, routing_on, stack_lem}

-- The line that LogRequest writes of a request.
abbrev pub line_of : Request → ℕ → ℕ → ℕ → LogLine
line_of r status size elapsed = record {
  method = r.method;
  path = r.path;
  client_ip = r.remote_addr;
  status = status;
  size = size;
  elapsed = elapsed;
  user_agent = r.user_agent;
}

pub log_request_heeded :
    (h : Heap) (r : Request) (status size elapsed : ℕ)
    → is_ignored r (record { logs = true; metrics = false }) h ≡ false
    → log_request h r status size elapsed ≡ some (line_of r status size elapsed)
unfolding log_request
log_request_heeded h r status size elapsed e = rw e refl

module _ (t : Types) (reg : Registry) (kit : Toolkit t reg) (enc : Encoding) where
  open kit use {Err, PanicValue}

  -- A handler behind Catch and Recover.
  guarded :
      (f : (w : ResponseWriter) → Request → Err → World reg w.State → World reg w.State)
      (next : Handler reg Err PanicValue) (w : ResponseWriter) (r : Request) (u : World reg w.State)
      → kit.catch f (kit.recover next) w r u
        ≡ caught (f w) r (recovered kit.panic_error (next w r u))
  guarded f next w r u =
      kit.catch_law f (kit.recover next) w r u ∙ ap (caught (f w) r) (kit.recover_law next w r u)

  -- The stack runs the route once: on the recorder of the request, with what AccessHandler finds.
  pub stack-route :
      (default_registry start now : ℕ) (cerr : ContextErr) (logger : t.Logger) (registry : ℕ)
      (route route' : Handler reg Err PanicValue) (w : ResponseWriter) (r : Request)
      (u : World reg w.State)
      → let (q, h') =
          inner_request reg w (packages_at t reg kit enc w) enc logger registry r u.sent u.rules in
        let s' = (identified reg w (packages_at t reg kit enc w) enc logger registry r u.sent).1 in
        let inner : World reg (Recorder w) = record {
          sent = new_recorder w s';
          rules = h';
          registries = u.registries;
          reports = u.reports;
        } in
        route (recording w) q inner ≡ route' (recording w) q inner
        → stack t reg kit enc default_registry start now cerr
            (default_middleware t logger registry)
            route
            w
            r
            u
          ≡ stack t reg kit enc default_registry start now cerr
              (default_middleware t logger registry)
              route'
              w
              r
              u
  unfolding stack default_middleware inner_request identified apply
  stack-route default_registry start now cerr logger registry route route' w r u e =
      let (q, h') =
        inner_request reg w (packages_at t reg kit enc w) enc logger registry r u.sent u.rules in
      let s' = (identified reg w (packages_at t reg kit enc w) enc logger registry r u.sent).1 in
      let inner : World reg (Recorder w) = record {
        sent = new_recorder w s';
        rules = h';
        registries = u.registries;
        reports = u.reports;
      } in
      let on_error = route_error_on t reg kit enc default_registry start now cerr in
      ap (access_reported t reg kit enc default_registry start now cerr w q) (
        guarded on_error route (recording w) q inner
        ∙ ap (λ x. caught (on_error (recording w)) q (recovered kit.panic_error x)) e
        ∙ sym (guarded on_error route' (recording w) q inner))

  -- Behind the stack of DefaultMiddleware of a registry on which the default metrics are registered,
  -- any route that makes calls on its response writer, acts on the registries but not on the ignore
  -- rules, and returns, stores an error or panics: the stack returns, the response is that of the
  -- route's calls and then of the error handler's, and there is exactly one more report. It logs the
  -- request with the status and the size of all these calls and the time between the readings of the
  -- clock, and counts it among all requests and in the bucket of that status.
  pub stack-reported :
      (default_registry start now next : ℕ) (cerr : ContextErr) (metrics : Registry.State reg)
      (logger : t.Logger) (registry : ℕ) (calls : List Call)
      (on_metrics : (ℕ → Registry.State reg) → (ℕ → Registry.State reg))
      (ending : Ending Err PanicValue) (w : ResponseWriter) (r : Request) (u : World reg w.State)
      → register_default_metrics reg next metrics ≡ some (on_metrics u.registries registry)
      → let (q, h') =
          inner_request reg w (packages_at t reg kit enc w) enc logger registry r u.sent u.rules in
        let s' = (identified reg w (packages_at t reg kit enc w) enc logger registry r u.sent).1 in
        let sent =
          direct w
            (calls
              ++ error_calls reg w
                  (packages_at t reg kit enc w)
                  enc
                  cerr
                  q
                  (error_of reg w (packages_at t reg kit enc w) enc ending))
            s' in
        let status = first_status w (
          calls
          ++ error_calls reg w
              (packages_at t reg kit enc w)
              enc
              cerr
              q
              (error_of reg w (packages_at t reg kit enc w) enc ending)) in
        (all bucket : List Effect) × (stack t reg kit enc default_registry start now cerr
            (default_middleware t logger registry)
            (routing_on t reg kit enc calls (λ h. h) on_metrics ending)
            w
            r
            u
          ≡ (
            returned none,
            record {
              sent = sent.1;
              rules = h';
              registries = on_metrics u.registries;
              reports =
                  u.reports
                  ++ (
                    some (line_of q status (total w sent.0 % 2 ^ 64) (now - start)),
                    some (all ++ bucket),
                  )
                    ∷ [];
            },
          ))
        × Counted reg key_requests (now - start) (on_metrics u.registries registry) all
        × BucketCounted reg
            (bucket_status status)
            (now - start)
            (on_metrics u.registries registry)
            bucket
  unfolding add_report record_request metrics_ctx
  stack-reported default_registry start now next cerr metrics logger registry calls on_metrics
        ending w r u done =
      let (q, h') =
        inner_request reg w (packages_at t reg kit enc w) enc logger registry r u.sent u.rules in
      let status = first_status w (
        calls
        ++ error_calls reg w (packages_at t reg kit enc w) enc cerr q
            (error_of reg w (packages_at t reg kit enc w) enc ending)) in
      let of_registry =
        identified-registry reg w (packages_at t reg kit enc w) enc logger registry r u.sent
          u.rules in
      let fresh =
        inner_request_fresh reg w (packages_at t reg kit enc w) enc logger registry r u.sent
          u.rules in
      let (all, bucket, counted, a, b) =
        count_request-register_default_metrics reg next metrics default_registry
          (on_metrics u.registries) h' q status (now - start) (rw of_registry done) (fresh _) in
      let e : metrics_ctx q.registry default_registry ≡ registry = rw of_registry refl in
      (
        all,
        bucket,
        stack_lem t reg kit enc default_registry start now cerr logger registry calls (λ h. h)
              on_metrics ending w r u
            ∙ rw (log_request_heeded h' q status _ (now - start) (fresh _), counted) refl,
        subst (λ n. Counted reg key_requests (now - start) (on_metrics u.registries n) all) e a,
        subst
            (λ n.
              BucketCounted reg (bucket_status status) (now - start) (on_metrics u.registries n)
                bucket)
            e b,
      )
