-- ===== src/Baseapp/Access/Reporting.antt =====
-- What is reported of a request: the status and the size of the response that was sent.
use go_baseapp.Baseapp.Ignore.{Heap, Request}
use go_baseapp.Appmetrics.Registry.{Registry}
use go_baseapp.Prelude.{ℕ, ◌-◌, ◌%◌, ◌^◌, ◌≡◌, refl, none, some, List}
use go_baseapp.Baseapp.Access.{access_handler, Handler, record_request}
use go_baseapp.Baseapp.Writer.{ResponseWriter, new_recorder, Call}
use go_baseapp.Baseapp.Writer.Recording.{through, direct, total, first_status, through_lem}

module _ (reg : Registry) (w : ResponseWriter) where
  -- A handler that makes these calls on its response writer, and acts on the rules and registries
  -- as it will.
  unfoldable pub calling :
      List Call
      → (Heap → Heap)
      → ((ℕ → Registry.State reg) → (ℕ → Registry.State reg))
      → Handler reg w
  calling calls on_rules on_metrics r (b, h, states) =
      some ((through w calls b).1, on_rules h, on_metrics states)

  -- The middleware sends exactly what the handler sends, and reports once, after the handler, with
  -- the rules and registries as the handler left them: the status of the first WriteHeader or write
  -- (0 if there was none), the number of bytes written, modulo 2 ^ 64, and the time since the start.
  pub access_handler-calling :
      (d start now : ℕ) (calls : List Call) (on_rules : Heap → Heap)
      (on_metrics : (ℕ → Registry.State reg) → (ℕ → Registry.State reg)) (r : Request)
      (s : ResponseWriter.State w) (h : Heap) (states : ℕ → Registry.State reg)
      → access_handler reg w d start now (calling calls on_rules on_metrics) r s h states
        ≡ some (
          (direct w calls s).1,
          on_rules h,
          record_request reg w d
              (on_metrics states)
              (on_rules h)
              r
              (first_status w calls)
              (total w (direct w calls s).0 % 2 ^ 64)
              (now - start),
        )
  unfolding access_handler calling
  access_handler-calling d start now calls on_rules on_metrics r s h states =
      let (_, sent, code, size) = through_lem w calls s in rw (sent, code, size) refl

  -- A handler that panics is not reported.
  pub access_handler_panic :
      (d start now : ℕ) (next : Handler reg w) (r : Request) (s : ResponseWriter.State w) (h : Heap)
      (states : ℕ → Registry.State reg)
      → (next r (new_recorder w s, h, states) ≡ none)
      → access_handler reg w d start now next r s h states ≡ none
  unfolding access_handler
  access_handler_panic d start now next r s h states e = rw e refl
