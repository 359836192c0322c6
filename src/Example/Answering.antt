-- ===== src/Example/Answering.antt =====
-- What a client of the example program gets, and what the program reports of its request.
use go_baseapp.Prelude.{
  ℕ, ◌-◌, ◌%◌, ◌^◌, ◌≡◌, refl, ◌∙◌, Bool, true, none, some, List, [], ◌∷◌, ◌++◌, append-nil, arith,
}
use go_baseapp.Text.{Text, codes}
use go_baseapp.Appmetrics.Registry.{Registry}
use go_baseapp.Baseapp.Metrics.{
  Effect, register_default_metrics, key_requests, key_requests2xx, bucket_status,
}
use go_baseapp.Baseapp.Metrics.Counting.{Counted}
use go_baseapp.Baseapp.Writer.{ResponseWriter, Call, recording}
use go_baseapp.Baseapp.Writer.Recording.{direct, total}
use go_baseapp.Baseapp.Errors.{Encoding, ContextErr, write_json}
use go_baseapp.Baseapp.Ignore.{Request}
use go_baseapp.Baseapp.Middleware.{returned, calls_of}
use go_baseapp.Baseapp.Middleware.Composing.{error_calls, identified, inner_request}
use go_baseapp.Baseapp.Middleware.Failing.{Marshals, first_status-write_json}
use go_baseapp.Baseapp.Server.{Types, default_middleware, mux}
use go_baseapp.Baseapp.Stack.{World, Handler, Toolkit, served}
use go_baseapp.Baseapp.Stack.Running.{packages_at, routing_on}
use go_baseapp.Baseapp.Stack.Reporting.{stack-route, stack-reported, line_of}
use go_baseapp.Example.{message_handler, routes}

module _ (t : Types) (reg : Registry) (kit : Toolkit t reg) (enc : Encoding) where
  open kit use {Err, PanicValue}

  -- The calls that the handler of the message makes.
  abbrev pub message_calls : Text → List Call
  message_calls message = calls_of (write_json enc 200 ((codes "message", message) ∷ []))

  -- A request that matches the pattern is answered by the message.
  routes-routing_on :
      (matches : Text → Request → Bool) (not_found : Handler reg Err PanicValue) (message : Text)
      (w : ResponseWriter) (r : Request) (u : World reg w.State)
      → matches (codes "/api/message") r ≡ true
      → routes t reg kit enc matches not_found message w r u
        ≡ routing_on t reg kit enc (message_calls message) (λ h. h) (λ s. s) (returned none) w r u
  unfolding routes message_handler routing_on
  routes-routing_on matches not_found message w r u e = rw e refl

  -- A request that goji matches with the pattern, to a server whose mux has the route of the message
  -- behind the default middleware, and on whose registry the default metrics are registered, where
  -- every object can be marshalled: the client gets the message as JSON with the status 200 behind
  -- what RequestIDHandler has set, and there is exactly one more report, which logs that status and
  -- counts the request among all requests and among those with a status 2xx.
  pub served-routes :
      (default_registry start now next : ℕ) (cerr : ContextErr) (metrics : Registry.State reg)
      (logger : t.Logger) (registry : ℕ) (matches : Text → Request → Bool)
      (not_found : Handler reg Err PanicValue) (message : Text) (w : ResponseWriter) (r : Request)
      (u : World reg w.State)
      → Marshals enc
      → matches
          (codes "/api/message")
          (inner_request reg w (packages_at t reg kit enc w) enc logger registry r u.sent u.rules).0
        ≡ true
      → register_default_metrics reg next metrics ≡ some (u.registries registry)
      → let (q, h') =
          inner_request reg w (packages_at t reg kit enc w) enc logger registry r u.sent u.rules in
        let s' = (identified reg w (packages_at t reg kit enc w) enc logger registry r u.sent).1 in
        let sent = direct w (message_calls message) s' in
        (all bucket : List Effect) × (served t reg kit enc default_registry start now cerr
            (mux (default_middleware t logger registry))
            (routes t reg kit enc matches not_found message)
            w
            r
            u
          ≡ (
            returned none,
            record {
              sent = sent.1;
              rules = h';
              registries = u.registries;
              reports =
                  u.reports
                  ++ (
                    some (line_of q 200 (total w sent.0 % 2 ^ 64) (now - start)),
                    some (all ++ bucket),
                  )
                    ∷ [];
            },
          ))
        × Counted reg key_requests (now - start) (u.registries registry) all
        × Counted reg key_requests2xx (now - start) (u.registries registry) bucket
  unfolding served bucket_status error_calls
  served-routes default_registry start now next cerr metrics logger registry matches not_found
        message w r u good matched done =
      let code =
        first_status-write_json w enc 200 ((codes "message", message) ∷ []) good
          (λ e. absurd (omega arith)) in
      let (all, bucket, e, a, b) =
        stack-reported t reg kit enc default_registry start now next cerr metrics logger registry
          (message_calls message) (λ s. s) (returned none) w r u done in
      (
        all,
        bucket,
        stack-route t reg kit enc default_registry start now cerr logger registry
              (routes t reg kit enc matches not_found message)
              (routing_on t reg kit enc (message_calls message) (λ h. h) (λ s. s) (returned none)) w
              r u (routes-routing_on matches not_found message (recording w) _ _ matched)
            ∙ rw (append-nil, code) at e,
        a,
        rw (append-nil, code) at b,
      )
