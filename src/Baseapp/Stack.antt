-- ===== src/Baseapp/Stack.antt =====
-- baseapp/middleware.go and baseapp/server.go: middleware as functions from handlers to handlers, a
-- handler being one for every response writer, and the stack of middleware that a server uses.
pub mod Running
pub mod Reporting
use go_baseapp.Prelude.{ℕ, ◌-◌, ◌≡◌, Option, none, some, List, [], ◌∷◌, ◌++◌}
use go_baseapp.Text.{Text}
use go_baseapp.Appmetrics.Registry.{Registry}
use go_baseapp.Baseapp.Ignore.{Request, Heap, new_ignore}
use go_baseapp.Baseapp.Metrics.{Run}
use go_baseapp.Baseapp.Writer.{
  ResponseWriter, Recorder, new_recorder, recording, status, bytes_written_of,
}
use go_baseapp.Baseapp.Writer.Recording.{direct}
use go_baseapp.Baseapp.Access.{LogLine, record_request, new_metrics_handler}
use go_baseapp.Baseapp.Errors.{Encoding, ContextErr, handle_route_error}
use go_baseapp.Baseapp.Middleware.{Ending, returned, panicked, caught, recovered, calls_of}
use go_baseapp.Baseapp.Server.{
  Types, Middleware, hlog_new_handler, metrics_handler, hlog_request_id_handler, ignore_handler,
  access_handler_record_request, hatpear_catch_handle_route_error, hatpear_recover,
  other_middleware, Served, given, mux,
}

-- What RecordRequest did for a request: the line logged and the effects on the metrics.
abbrev pub Report : Type 0
Report = Option LogLine × Run

-- What handlers act on: the state of the response writer, the ignore rules, the registries, and the
-- reports so far.
pub record World (reg : Registry) (W : Type 0) : Type 0 where
  pub sent : W
  pub rules : Heap
  pub registries : ℕ → Registry.State reg
  pub reports : List Report

-- http.Handler, with the ways in which a handler of this package ends.
abbrev pub Handler : Registry → Type 0 → Type 0 → Type 1
Handler reg Err PanicValue =
    (w : ResponseWriter) → Request → World reg w.State → Ending Err PanicValue × World reg w.State

-- The packages hatpear and hlog as in `Packages`, for every response writer; `assertion_failed` is
-- the value of the panic of a type assertion. `other` and `given_handler` are middleware and
-- handlers that a caller gives to the server.
pub record Toolkit (t : Types) (reg : Registry) : Type 1 where
  pub Err : Type 0
  pub PanicValue : Type 0
  pub with_logger : t.Logger → Request → Request
  pub request_id_handler :
      (w : ResponseWriter) → Text → Text → Request → w.State → Request × w.State
  pub id_of : Request → Text
  pub cause_status : Err → Option ℕ
  pub panic_error : PanicValue → Err
  pub assertion_failed : PanicValue
  pub catch :
      ((w : ResponseWriter) → Request → Err → World reg w.State → World reg w.State)
      → Handler reg Err PanicValue
      → Handler reg Err PanicValue
  pub recover : Handler reg Err PanicValue → Handler reg Err PanicValue
  pub other : t.OtherMiddleware → Handler reg Err PanicValue → Handler reg Err PanicValue
  pub given_handler : t.Handler → Handler reg Err PanicValue
  pub request_id_handler-registry :
      (w : ResponseWriter) (field_key header_name : Text) (r : Request) (s : w.State)
      → (request_id_handler w field_key header_name r s).0.registry ≡ r.registry
  pub catch_law :
      (f : (w : ResponseWriter) → Request → Err → World reg w.State → World reg w.State)
      (next : Handler reg Err PanicValue) (w : ResponseWriter) (r : Request) (u : World reg w.State)
      → catch f next w r u ≡ caught (f w) r (next w r u)
  pub recover_law :
      (next : Handler reg Err PanicValue) (w : ResponseWriter) (r : Request) (u : World reg w.State)
      → recover next w r u ≡ recovered panic_error (next w r u)

-- `start` and `now` are the readings of the clock in AccessHandler, and `cerr` is the error of the
-- request's context at the end.
module _ (t : Types) (reg : Registry) (kit : Toolkit t reg) (enc : Encoding)
    (default_registry start now : ℕ) (cerr : ContextErr) where
  open kit use {
    Err, PanicValue, with_logger, request_id_handler, id_of, cause_status, panic_error,
    assertion_failed, catch, recover, other, given_handler,
  }

  -- `HandleRouteError` on any response writer.
  route_error_on : (w : ResponseWriter) → Request → Err → World reg w.State → World reg w.State
  route_error_on w r err u = record u {
    sent =
        (direct w (calls_of (handle_route_error enc cerr (cause_status err) (id_of r)).0) u.sent).1;
  }

  -- The end of AccessHandler's callback: a failed type assertion in CountRequest panics.
  unfoldable pub add_report :
      {W : Type 0} → Option Err → Report → World reg W → Ending Err PanicValue × World reg W
  add_report err (log, none) u =
      (panicked assertion_failed, record u { reports = u.reports ++ (log, none) ∷ [] })
  add_report err (log, some effects) u =
      (returned err, record u { reports = u.reports ++ (log, some effects) ∷ [] })

  -- `AccessHandler(RecordRequest)` behind its next handler, which got a recorder.
  access_reported :
      (w : ResponseWriter)
      → Request
      → Ending Err PanicValue × World reg (Recorder w)
      → Ending Err PanicValue × World reg w.State
  unfolding add_report
  access_reported w r (panicked v, u) = (
    panicked v,
    record { sent = u.sent.inner; rules = u.rules; registries = u.registries; reports = u.reports },
  )
  access_reported w r (returned err, u) =
      add_report err
        (record_request reg w default_registry u.registries u.rules r (status w u.sent)
          (bytes_written_of w u.sent) (now - start))
        (record {
          sent = u.sent.inner;
          rules = u.rules;
          registries = u.registries;
          reports = u.reports;
        })

  -- One middleware around the next handler.
  apply : Middleware t → Handler reg Err PanicValue → Handler reg Err PanicValue
  unfolding route_error_on access_reported
  apply (hlog_new_handler logger) next w r u = next w (with_logger logger r) u
  apply (metrics_handler registry) next w r u = next w (new_metrics_handler registry r) u
  apply (hlog_request_id_handler field_key header_name) next w r u =
      let (r', sent') = request_id_handler w field_key header_name r u.sent in
      next w r' (record u { sent = sent' })
  apply ignore_handler next w r u =
      let (r', rules') = new_ignore r u.rules in next w r' (record u { rules = rules' })
  apply access_handler_record_request next w r u = access_reported w r (
      next (recording w) r (record {
        sent = new_recorder w u.sent;
        rules = u.rules;
        registries = u.registries;
        reports = u.reports;
      }))
  apply hatpear_catch_handle_route_error next w r u = catch route_error_on next w r u
  apply hatpear_recover next w r u = recover next w r u
  apply (other_middleware m) next w r u = other m next w r u

  -- The middleware that a mux uses, the first outermost, around its routes.
  unfoldable pub stack :
      List (Middleware t) → Handler reg Err PanicValue → Handler reg Err PanicValue
  unfolding apply
  stack [] routes = routes
  stack (m ∷ ms) routes = apply m (stack ms routes)

  -- The handler of an http.Server that NewServer has made: the mux, whose routes are given, or a
  -- handler that the caller has set.
  unfoldable pub served : Served t → Handler reg Err PanicValue → Handler reg Err PanicValue
  unfolding stack
  served (mux ms) routes = stack ms routes
  served (given h) routes = given_handler h
