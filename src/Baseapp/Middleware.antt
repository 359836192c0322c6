-- ===== src/Baseapp/Middleware.antt =====
-- baseapp/middleware.go: the stack of DefaultMiddleware around the handler of a route.
pub mod Composing
pub mod Failing
pub mod Ignoring
use go_baseapp.Prelude.{ℕ, ◌≡◌, Option, none, some, List, [], ◌∷◌}
use go_baseapp.Text.{Text, codes}
use go_baseapp.Appmetrics.Registry.{Registry}
use go_baseapp.Baseapp.Ignore.{Request, Heap, new_ignore}
use go_baseapp.Baseapp.Metrics.{Run}
use go_baseapp.Baseapp.Writer.{ResponseWriter, Recorder, Call, set_field, header, body}
use go_baseapp.Baseapp.Writer.Recording.{through}
use go_baseapp.Baseapp.Access.{LogLine, access_handler, new_metrics_handler}
use go_baseapp.Baseapp.Errors.{
  Encoding, ContextErr, WriterCall, set_header, write_header, write, handle_route_error,
}

-- How a route's handler ends: it returns, with the error that it has stored in the request, if any,
-- or it panics.
pub data Ending (Err PanicValue : Type 0) : Type 0 where
  returned : Option Err → Ending Err PanicValue
  panicked : PanicValue → Ending Err PanicValue

-- A handler that acts on the state `S`.
abbrev pub Route : Type 0 → Type 0 → Type 0 → Type 0
Route Err PanicValue S = Request → S → Ending Err PanicValue × S

-- What a handler does behind hatpear.Catch: a stored error goes to the callback.
abbrev pub caught :
    {Err PanicValue S : Type 0}
    → (Request → Err → S → S)
    → Request
    → Ending Err PanicValue × S
    → Ending Err PanicValue × S
caught f r (returned none, s) = (returned none, s)
caught f r (returned (some err), s) = (returned none, f r err s)
caught f r (panicked v, s) = (panicked v, s)

-- What a handler does behind hatpear.Recover: a panic becomes a stored error.
abbrev pub recovered :
    {Err PanicValue S : Type 0}
    → (PanicValue → Err)
    → Ending Err PanicValue × S
    → Ending Err PanicValue × S
recovered panic_error (returned err, s) = (returned err, s)
recovered panic_error (panicked v, s) = (returned (some (panic_error v)), s)

-- The packages hatpear and hlog, with what their documentation says of them: `with_logger` is the
-- request that hlog.NewHandler passes on, `request_id_handler` what hlog.RequestIDHandler passes on
-- and does to the writer, and `id_of` the text of hlog.IDFromRequest. `cause_status` is the status
-- code of `errors.Cause(err)`, if it has one, and `panic_error` makes a hatpear.PanicError.
pub record Packages (W S : Type 0) : Type 1 where
  pub Logger : Type 0
  pub Err : Type 0
  pub PanicValue : Type 0
  pub with_logger : Logger → Request → Request
  pub request_id_handler : Text → Text → Request → W → Request × W
  pub id_of : Request → Text
  pub cause_status : Err → Option ℕ
  pub panic_error : PanicValue → Err
  pub catch : (Request → Err → S → S) → Route Err PanicValue S → Route Err PanicValue S
  pub recover : Route Err PanicValue S → Route Err PanicValue S
  pub request_id_handler-registry :
      (field_key header_name : Text) (r : Request) (s : W)
      → (request_id_handler field_key header_name r s).0.registry ≡ r.registry
  pub catch_law :
      (f : Request → Err → S → S) (next : Route Err PanicValue S) (r : Request) (s : S)
      → catch f next r s ≡ caught f r (next r s)
  pub recover_law :
      (next : Route Err PanicValue S) (r : Request) (s : S)
      → recover next r s ≡ recovered panic_error (next r s)

-- The calls of the error handler as calls on a response writer.
unfoldable pub calls_of : List WriterCall → List Call
calls_of [] = []
calls_of (set_header k v ∷ calls) = set_field k v ∷ calls_of calls
calls_of (write_header code ∷ calls) = header code ∷ calls_of calls
calls_of (write b ∷ calls) = body b ∷ calls_of calls

module _ (reg : Registry) (w : ResponseWriter) where
  -- What a route's handler acts on: the recorder, the ignore rules and the registries.
  abbrev pub Inner : Type 0
  Inner = Recorder w × Heap × (ℕ → Registry.State reg)

  module _ (packages : Packages w.State Inner) (enc : Encoding) where
    open packages use {
      Logger, Err, PanicValue, with_logger, request_id_handler, id_of, cause_status, catch, recover,
    }

    -- `HandleRouteError` as the callback of hatpear.Catch.
    unfoldable pub route_error : ContextErr → Request → Err → Inner → Inner
    route_error cerr r err (b, h, states) = (
      (through w (calls_of (handle_route_error enc cerr (cause_status err) (id_of r)).0) b).1,
      h,
      states,
    )

    -- A route as a handler of net/http: nobody reads a stored error any more.
    as_handler : Ending Err PanicValue × Inner → Option Inner
    as_handler (returned err, s) = some s
    as_handler (panicked v, s) = none

    -- The handler of a route behind `DefaultMiddleware(logger, registry)`, whose first middleware
    -- is the outermost. `start` and `now` are the readings of the clock in AccessHandler, and
    -- `cerr` is the error of the request's context at the end.
    unfoldable pub default_middleware :
        Logger
        → ℕ
        → ℕ
        → ℕ
        → ℕ
        → ContextErr
        → Route Err PanicValue Inner
        → Request
        → w.State
        → Heap
        → (ℕ → Registry.State reg)
        → Option (w.State × Heap × (Option LogLine × Run))
    unfolding route_error as_handler
    default_middleware logger registry default_registry start now cerr route r s h states =
        let (r', s') =
          request_id_handler (codes "rid") (codes "X-Request-ID")
            (new_metrics_handler registry (with_logger logger r)) s in
        let (r'', h') = new_ignore r' h in
        access_handler reg w default_registry start now
          (λ q inner. as_handler (catch (route_error cerr) (recover route) q inner)) r'' s' h'
          states
