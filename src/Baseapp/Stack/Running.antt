-- ===== src/Baseapp/Stack/Running.antt =====
-- What the stack of DefaultMiddleware does around a route that makes some calls.
use go_baseapp.Baseapp.Access.{record_request}
use go_baseapp.Prelude.{◌^◌, ℕ, ◌≡◌, refl, none, some, List, ◌++◌, append-nil, ◌%◌, ◌-◌, ap, ◌∙◌}
use go_baseapp.Appmetrics.Registry.{Registry}
use go_baseapp.Baseapp.Ignore.{Request, Heap}
use go_baseapp.Baseapp.Writer.{ResponseWriter, Recorder, Call, recording, new_recorder}
use go_baseapp.Baseapp.Writer.Recording.{
  through, direct, through-append, direct-recording, first_status, total, through_lem,
}
use go_baseapp.Baseapp.Errors.{Encoding, ContextErr}
use go_baseapp.Baseapp.Middleware.{Ending, returned, panicked, caught, recovered, Packages, Inner}
use go_baseapp.Baseapp.Middleware.Composing.{error_of, error_calls, inner_request, identified}
use go_baseapp.Baseapp.Server.{Types, default_middleware}
use go_baseapp.Baseapp.Stack.{
  World, Handler, Toolkit, route_error_on, access_reported, stack, Report, add_report, apply,
}

module _ (t : Types) (reg : Registry) (kit : Toolkit t reg) (enc : Encoding) where
  open kit use {Err, PanicValue}

  -- The packages at one response writer.
  abbrev pub packages_at : (w : ResponseWriter) → Packages w.State (Inner reg w)
  packages_at w = record {
    Logger = t.Logger;
    Err = Err;
    PanicValue = PanicValue;
    with_logger = kit.with_logger;
    request_id_handler = kit.request_id_handler w;
    id_of = kit.id_of;
    cause_status = kit.cause_status;
    panic_error = kit.panic_error;
    catch = λ f next r s. caught f r (next r s);
    recover = λ next r s. recovered kit.panic_error (next r s);
    request_id_handler-registry = kit.request_id_handler-registry w;
    catch_law = λ f next r s. refl;
    recover_law = λ next r s. refl;
  }

  -- A route that makes these calls on its response writer, acts on the rules and registries as it
  -- will, and ends so.
  unfoldable pub routing_on :
      List Call
      → (Heap → Heap)
      → ((ℕ → Registry.State reg) → (ℕ → Registry.State reg))
      → Ending Err PanicValue
      → Handler reg Err PanicValue
  routing_on calls on_rules on_metrics ending w r u = (
    ending,
    record u {
      sent = (direct w calls u.sent).1;
      rules = on_rules u.rules;
      registries = on_metrics u.registries;
    },
  )

  module _ (default_registry start now : ℕ) (cerr : ContextErr) where
    -- The recorder and the rest, once the route and the error handler have run.
    caught_routing :
        (calls : List Call) (on_rules : Heap → Heap)
        (on_metrics : (ℕ → Registry.State reg) → (ℕ → Registry.State reg))
        (ending : Ending Err PanicValue) (w : ResponseWriter) (r : Request)
        (u : World reg (Recorder w))
        → kit.catch
            (route_error_on t reg kit enc default_registry start now cerr)
            (kit.recover (routing_on calls on_rules on_metrics ending))
            (recording w)
            r
            u
          ≡ (
            returned none,
            record u {
              sent =
                  (through w
                    (calls
                      ++ error_calls reg w
                          (packages_at w)
                          enc
                          cerr
                          r
                          (error_of reg w (packages_at w) enc ending))
                    u.sent).1;
              rules = on_rules u.rules;
              registries = on_metrics u.registries;
            },
          )
    unfolding route_error_on routing_on error_calls
    caught_routing calls on_rules on_metrics (returned none) w r u =
        rw (kit.catch_law, kit.recover_law, append-nil calls, direct-recording w calls u.sent) refl
    caught_routing calls on_rules on_metrics (returned (some err)) w r u =
        rw
          (
            kit.catch_law,
            kit.recover_law,
            direct-recording w calls u.sent,
            direct-recording,
            through-append w calls _ u.sent,
          )
          refl
    caught_routing calls on_rules on_metrics (panicked v) w r u =
        rw
          (
            kit.catch_law,
            kit.recover_law,
            direct-recording w calls u.sent,
            direct-recording,
            through-append w calls _ u.sent,
          )
          refl

    -- AccessHandler reports what the recorder has recorded of the calls.
    access_reported-through :
        (calls : List Call) (w : ResponseWriter) (r : Request) (s : w.State) (h : Heap)
        (states : ℕ → Registry.State reg) (reports : List Report)
        → access_reported t reg kit enc default_registry start now cerr w r (
          returned none,
          record {
            sent = (through w calls (new_recorder w s)).1;
            rules = h;
            registries = states;
            reports = reports;
          },
        )
          ≡ add_report t reg kit enc default_registry start now cerr none
              (record_request reg w default_registry states h r
                (first_status w calls)
                (total w (direct w calls s).0 % 2 ^ 64)
                (now - start))
              (record {
                sent = (direct w calls s).1;
                rules = h;
                registries = states;
                reports = reports;
              })
    unfolding access_reported
    access_reported-through calls w r s h states reports =
        let (_, inner, code, size) = through_lem w calls s in rw (inner, code, size) refl

    -- What the stack of DefaultMiddleware does around such a route.
    pub stack_lem :
        (logger : t.Logger) (registry : ℕ) (calls : List Call) (on_rules : Heap → Heap)
        (on_metrics : (ℕ → Registry.State reg) → (ℕ → Registry.State reg))
        (ending : Ending Err PanicValue) (w : ResponseWriter) (r : Request) (u : World reg w.State)
        → let (q, h') = inner_request reg w (packages_at w) enc logger registry r u.sent u.rules in
          let s' = (identified reg w (packages_at w) enc logger registry r u.sent).1 in
          let all =
            calls
            ++ error_calls reg w
                (packages_at w)
                enc
                cerr
                q
                (error_of reg w (packages_at w) enc ending) in
          stack t reg kit enc default_registry start now cerr
            (default_middleware t logger registry)
            (routing_on calls on_rules on_metrics ending)
            w
            r
            u
          ≡ add_report t reg kit enc default_registry start now cerr none
              (record_request reg w default_registry
                (on_metrics u.registries)
                (on_rules h')
                q
                (first_status w all)
                (total w (direct w all s').0 % 2 ^ 64)
                (now - start))
              (record {
                sent = (direct w all s').1;
                rules = on_rules h';
                registries = on_metrics u.registries;
                reports = u.reports;
              })
    unfolding stack default_middleware inner_request identified apply
    stack_lem logger registry calls on_rules on_metrics ending w r u =
        let (q, h') = inner_request reg w (packages_at w) enc logger registry r u.sent u.rules in
        let s' = (identified reg w (packages_at w) enc logger registry r u.sent).1 in
        ap (access_reported t reg kit enc default_registry start now cerr w q) (
          caught_routing calls on_rules on_metrics ending w q (record {
            sent = new_recorder w s';
            rules = h';
            registries = u.registries;
            reports = u.reports;
          }))
        ∙ access_reported-through
            (calls
              ++ error_calls reg w (packages_at w) enc cerr q
                  (error_of reg w (packages_at w) enc ending))
            w q s' (on_rules h') (on_metrics u.registries) u.reports
