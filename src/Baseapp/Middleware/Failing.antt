-- ===== src/Baseapp/Middleware/Failing.antt =====
-- What is logged and counted of a request whose handler fails before it has answered.
use mathlib.Core.Path.{subst}
use go_baseapp.Prelude.{
  ℕ, zero, suc, ◌-◌, ◌%◌, ◌^◌, ◌≡◌, refl, ◌∙◌, ◌≢◌, inl, true, false, Option, none, some, List, [],
  ◌∷◌, ◌++◌,
}
use go_baseapp.Text.{Text}
use go_baseapp.Appmetrics.Registry.{Registry}
use go_baseapp.Baseapp.Ignore.{Request, Heap, is_ignored}
use go_baseapp.Baseapp.Metrics.{
  Effect, register_default_metrics, bucket_status, key_requests, metrics_ctx,
}
use go_baseapp.Baseapp.Metrics.Counting.{
  Counted, BucketCounted, count_request-register_default_metrics,
}
use go_baseapp.Baseapp.Writer.{ResponseWriter, Call, header, body}
use go_baseapp.Baseapp.Writer.Recording.{direct, total, first_status, first_status-append}
use go_baseapp.Baseapp.Access.{record_request, log_request}
use go_baseapp.Baseapp.Errors.{
  Encoding, ContextErr, Object, handle_route_error, write_json, no_error, canceled,
  deadline_exceeded,
}
use go_baseapp.Baseapp.Errors.Responses.{expected_status}
use go_baseapp.Baseapp.Middleware.{Ending, Packages, Inner, calls_of, default_middleware}
use go_baseapp.Baseapp.Middleware.Composing.{
  error_of, error_calls, routing, identified, inner_request, identified-registry,
  default_middleware-routing,
}

-- Whatever is to be written can be marshalled.
abbrev pub Marshals : Encoding → Type 0
Marshals enc = (obj : Object) → (b : Text) × (enc.marshal obj ≡ inl b)

module _ (w : ResponseWriter) where
  first_status_header :
      (code : ℕ) (calls : List Call) → code ≢ 0 → first_status w (header code ∷ calls) ≡ code
  unfolding first_status
  first_status_header zero calls h = absurd (h refl)
  first_status_header (suc code) calls h = refl

  pub first_status-write_json :
      (enc : Encoding) (code : ℕ) (obj : Object)
      → Marshals enc
      → code ≢ 0
      → first_status w (calls_of (write_json enc code obj)) ≡ code
  unfolding first_status write_json calls_of
  first_status-write_json enc code obj good h =
      let (b, e) = good obj in rw e (first_status_header code (body b ∷ []) h)

  first_status-handle_route_error :
      (enc : Encoding) (cerr : ContextErr) (cause : Option ℕ) (id : Text)
      → Marshals enc
      → expected_status cerr cause ≢ 0
      → first_status w (calls_of (handle_route_error enc cerr cause id).0)
        ≡ expected_status cerr cause
  unfolding handle_route_error expected_status
  first_status-handle_route_error enc canceled none id good h =
      first_status-write_json enc _ _ good h
  first_status-handle_route_error enc canceled (some code) id good h =
      first_status-write_json enc _ _ good h
  first_status-handle_route_error enc no_error none id good h =
      first_status-write_json enc _ _ good h
  first_status-handle_route_error enc no_error (some code) id good h =
      first_status-write_json enc _ _ good h
  first_status-handle_route_error enc deadline_exceeded none id good h =
      first_status-write_json enc _ _ good h
  first_status-handle_route_error enc deadline_exceeded (some code) id good h =
      first_status-write_json enc _ _ good h

module _ (reg : Registry) (w : ResponseWriter) (packages : Packages w.State (Inner reg w))
    (enc : Encoding) where
  open packages use {Logger, Err, PanicValue, id_of, cause_status}

  -- A handler stores an error or panics before its calls have decided the status of the response,
  -- behind the default middleware of a registry on which the default metrics are registered; the
  -- metrics of the request are not ignored, every object can be marshalled, and the status of the
  -- error handler is not 0. Then the client gets what the handler and then the error handler send,
  -- the request is logged with the status of the error handler unless its logs are ignored, and it
  -- is counted without a panic among all requests and in the bucket of that status.
  pub default_middleware-failing :
      (logger : Logger) (registry d start now next : ℕ) (metrics : Registry.State reg)
      (cerr : ContextErr) (calls : List Call) (on_rules : Heap → Heap)
      (on_metrics : (ℕ → Registry.State reg) → (ℕ → Registry.State reg))
      (ending : Ending Err PanicValue) (err : Err) (r : Request) (s : w.State) (h : Heap)
      (states : ℕ → Registry.State reg)
      → Marshals enc
      → first_status w calls ≡ 0
      → error_of reg w packages enc ending ≡ some err
      → expected_status cerr (cause_status err) ≢ 0
      → register_default_metrics reg next metrics ≡ some (on_metrics states registry)
      → is_ignored
          (inner_request reg w packages enc logger registry r s h).0
          (record { logs = false; metrics = true })
          (on_rules (inner_request reg w packages enc logger registry r s h).1)
        ≡ false
      → let (q, h') = inner_request reg w packages enc logger registry r s h in
        let s' = (identified reg w packages enc logger registry r s).1 in
        let sent = direct w (calls ++ error_calls reg w packages enc cerr q (some err)) s' in
        let status = expected_status cerr (cause_status err) in
        (all bucket : List Effect) × (default_middleware reg w packages enc logger registry d start
            now cerr
            (routing reg w packages enc calls on_rules on_metrics ending)
            r
            s
            h
            states
          ≡ some (
            sent.1,
            on_rules h',
            (
              log_request (on_rules h') q status (total w sent.0 % 2 ^ 64) (now - start),
              some (all ++ bucket),
            ),
          ))
        × Counted reg key_requests (now - start) (on_metrics states registry) all
        × BucketCounted reg (bucket_status status) (now - start) (on_metrics states registry) bucket
  unfolding record_request metrics_ctx error_calls
  default_middleware-failing logger registry d start now next metrics cerr calls on_rules on_metrics
        ending err r s h states good undecided failed valid done heeded =
      let (q, h') = inner_request reg w packages enc logger registry r s h in
      let status =
        first_status-append w calls (error_calls reg w packages enc cerr q (some err)) undecided
        ∙ first_status-handle_route_error w enc cerr (cause_status err) (id_of q) good valid in
      let of_registry = identified-registry reg w packages enc logger registry r s h in
      let (all, bucket, counted, a, b) =
        count_request-register_default_metrics reg next metrics d (on_metrics states) (on_rules h')
          q (expected_status cerr (cause_status err)) (now - start) (rw of_registry done) heeded in
      let run =
        default_middleware-routing reg w packages enc logger registry d start now cerr calls
          on_rules on_metrics ending r s h states in
      let e : metrics_ctx q.registry d ≡ registry = rw of_registry refl in
      (
        all,
        bucket,
        run ∙ rw (failed, status, counted) refl,
        subst (λ n. Counted reg key_requests (now - start) (on_metrics states n) all) e a,
        subst
            (λ n.
              BucketCounted reg (bucket_status (expected_status cerr (cause_status err)))
                (now - start) (on_metrics states n) bucket)
            e b,
      )
