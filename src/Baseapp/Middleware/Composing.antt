-- ===== src/Baseapp/Middleware/Composing.antt =====
-- What the client gets, and what is reported, of a request to a route behind the default middleware.
use go_baseapp.Prelude.{
  ℕ, ◌-◌, ◌%◌, ◌^◌, ◌≡◌, refl, ◌∙◌, Option, none, some, List, [], ◌++◌, append-nil, false,
}
use go_baseapp.Text.{codes}
use go_baseapp.Appmetrics.Registry.{Registry}
use go_baseapp.Baseapp.Ignore.Laws.{new_ignore_fresh}
use go_baseapp.Baseapp.Ignore.{IgnoreRule, is_ignored, Request, Heap, new_ignore}
use go_baseapp.Baseapp.Metrics.{with_metrics_ctx}
use go_baseapp.Baseapp.Writer.{ResponseWriter, Call, new_recorder}
use go_baseapp.Baseapp.Writer.Recording.{through, direct, total, first_status, through-append}
use go_baseapp.Baseapp.Access.{Handler, access_handler, new_metrics_handler, record_request}
use go_baseapp.Baseapp.Access.Reporting.{calling, access_handler-calling}
use go_baseapp.Baseapp.Errors.{Encoding, ContextErr, handle_route_error}
use go_baseapp.Baseapp.Middleware.{
  Ending, returned, panicked, Route, Packages, Inner, calls_of, default_middleware, route_error,
  as_handler,
}

module _ (reg : Registry) (w : ResponseWriter) where
  -- AccessHandler runs its next handler once, on a new recorder.
  access_handler-next :
      (d start now : ℕ) (next next' : Handler reg w) (r : Request) (s : ResponseWriter.State w)
      (h : Heap) (states : ℕ → Registry.State reg)
      → next r (new_recorder w s, h, states) ≡ next' r (new_recorder w s, h, states)
      → access_handler reg w d start now next r s h states
        ≡ access_handler reg w d start now next' r s h states
  unfolding access_handler
  access_handler-next d start now next next' r s h states e = rw e refl

  module _ (packages : Packages w.State (Inner reg w)) (enc : Encoding) where
    open packages use {
      Logger, Err, PanicValue, with_logger, request_id_handler, request_id_handler-registry, id_of,
      cause_status, panic_error, catch, recover, catch_law, recover_law,
    }

    -- The error that Catch finds behind Recover.
    abbrev pub error_of : Ending Err PanicValue → Option Err
    error_of (returned err) = err
    error_of (panicked v) = some (panic_error v)

    -- The calls of the error handler.
    unfoldable pub error_calls : ContextErr → Request → Option Err → List Call
    error_calls cerr r none = []
    error_calls cerr r (some err) =
        calls_of (handle_route_error enc cerr (cause_status err) (id_of r)).0

    -- A route that makes these calls on its response writer, acts on the rules and registries as it
    -- will, and ends so.
    pub routing :
        List Call
        → (Heap → Heap)
        → ((ℕ → Registry.State reg) → (ℕ → Registry.State reg))
        → Ending Err PanicValue
        → Route Err PanicValue (Inner reg w)
    routing calls on_rules on_metrics ending r (b, h, states) =
        (ending, ((through w calls b).1, on_rules h, on_metrics states))

    -- Behind Catch and Recover a route makes its own calls and then those of the error handler.
    inner-calling :
        (cerr : ContextErr) (calls : List Call) (on_rules : Heap → Heap)
        (on_metrics : (ℕ → Registry.State reg) → (ℕ → Registry.State reg))
        (ending : Ending Err PanicValue) (r : Request) (s : Inner reg w)
        → as_handler reg w packages enc (
            catch
              (route_error reg w packages enc cerr)
              (recover (routing calls on_rules on_metrics ending))
              r
              s)
          ≡ calling reg w (calls ++ error_calls cerr r (error_of ending)) on_rules on_metrics r s
    unfolding as_handler route_error routing calling error_calls
    inner-calling cerr calls on_rules on_metrics (returned none) r s =
        rw (catch_law, recover_law, append-nil calls) refl
    inner-calling cerr calls on_rules on_metrics (returned (some err)) r (b, h, states) =
        rw (catch_law, recover_law, through-append w calls _ b) refl
    inner-calling cerr calls on_rules on_metrics (panicked v) r (b, h, states) =
        rw (catch_law, recover_law, through-append w calls _ b) refl

    -- What the middleware in front of AccessHandler makes of a request and its writer.
    unfoldable pub identified : Logger → ℕ → Request → w.State → Request × w.State
    identified logger registry r s =
        request_id_handler (codes "rid") (codes "X-Request-ID")
          (new_metrics_handler registry (with_logger logger r)) s

    -- The request that a route gets, and the rules then.
    unfoldable pub inner_request : Logger → ℕ → Request → w.State → Heap → Request × Heap
    inner_request logger registry r s h = new_ignore (identified logger registry r s).0 h

    pub identified-registry :
        (logger : Logger) (registry : ℕ) (r : Request) (s : w.State) (h : Heap)
        → (inner_request logger registry r s h).0.registry ≡ some registry
    unfolding inner_request identified new_ignore new_metrics_handler with_metrics_ctx
    identified-registry logger registry r s h =
        request_id_handler-registry (codes "rid") (codes "X-Request-ID")
          (new_metrics_handler registry (with_logger logger r)) s

    pub inner_request_fresh :
        (logger : Logger) (registry : ℕ) (r : Request) (s : w.State) (h : Heap) (query : IgnoreRule)
        → let (q, h') = inner_request logger registry r s h in is_ignored q query h' ≡ false
    unfolding inner_request
    inner_request_fresh logger registry r s h query =
        new_ignore_fresh (identified logger registry r s).0 query h

    -- What the client gets of a route behind the default middleware is what the route sends and
    -- then what the error handler sends for the error that it has stored or for its panic, if any;
    -- and RecordRequest is always called, with the status and the size of all of that and the
    -- rules and registries as the route left them.
    pub default_middleware-routing :
        (logger : Logger) (registry d start now : ℕ) (cerr : ContextErr) (calls : List Call)
        (on_rules : Heap → Heap) (on_metrics : (ℕ → Registry.State reg) → (ℕ → Registry.State reg))
        (ending : Ending Err PanicValue) (r : Request) (s : w.State) (h : Heap)
        (states : ℕ → Registry.State reg)
        → let (q, h') = inner_request logger registry r s h in
          let s' = (identified logger registry r s).1 in
          let all = calls ++ error_calls cerr q (error_of ending) in
          default_middleware reg w packages enc logger registry d start now cerr
            (routing calls on_rules on_metrics ending)
            r
            s
            h
            states
          ≡ some (
            (direct w all s').1,
            on_rules h',
            record_request reg w d
                (on_metrics states)
                (on_rules h')
                q
                (first_status w all)
                (total w (direct w all s').0 % 2 ^ 64)
                (now - start),
          )
    unfolding default_middleware identified inner_request
    default_middleware-routing logger registry d start now cerr calls on_rules on_metrics ending r s
          h states =
        let (q, h') = inner_request logger registry r s h in
        let s' = (identified logger registry r s).1 in
        access_handler-next d start now _ _ q s' h' states
          (inner-calling cerr calls on_rules on_metrics ending q (new_recorder w s', h', states))
        ∙ access_handler-calling reg w d start now (calls ++ error_calls cerr q (error_of ending))
            on_rules on_metrics q s' h' states
