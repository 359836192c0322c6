-- ===== src/Baseapp/Middleware/Ignoring.antt =====
-- What is logged and counted of a request whose handler sets an ignore rule.
use go_baseapp.Prelude.{
  ℕ, ◌-◌, ◌≡◌, refl, sym, ◌∙◌, ◌↔◌, inl, inr, true, false, Option, none, some, List, [], ◌++◌,
  Bool-cases,
}
use go_baseapp.Appmetrics.Registry.{Registry}
use go_baseapp.Baseapp.Ignore.{Request, Heap, IgnoreRule, ignore, new_ignore, is_ignored}
use go_baseapp.Baseapp.Ignore.Laws.{
  IsBelow, new_ignore-ignore, is_ignored-ignore_logs, is_ignored-ignore_metrics,
}
use go_baseapp.Baseapp.Metrics.{Run, count_request}
use go_baseapp.Baseapp.Writer.{ResponseWriter, Call}
use go_baseapp.Baseapp.Writer.Recording.{direct}
use go_baseapp.Baseapp.Access.{LogLine, record_request, log_request}
use go_baseapp.Baseapp.Errors.{Encoding, ContextErr}
use go_baseapp.Baseapp.Middleware.{Ending, Packages, Inner, default_middleware}
use go_baseapp.Baseapp.Middleware.Composing.{
  error_of, error_calls, routing, identified, inner_request, default_middleware-routing,
}

log_request-none :
    (h : Heap) (r : Request) (status size elapsed : ℕ)
    → (log_request h r status size elapsed ≡ none)
      ↔ (is_ignored r (record { logs = true; metrics = false }) h ≡ true)
unfolding log_request
log_request-none h r status size elapsed =
    elim (Bool-cases (is_ignored r (record { logs = true; metrics = false }) h)) [
      | inl e ↦ rw e (λ _. refl, λ _. refl)
      | inr e ↦ rw e (λ h. cc, λ h. cc)
    ]

log_request-ignore :
    (r : Request) (p : ℕ) (rule : IgnoreRule) (h : Heap) (status size elapsed : ℕ)
    → r.rule ≡ some p
    → (log_request (ignore r rule h) r status size elapsed ≡ none) ↔ (rule.logs ≡ true)
log_request-ignore r p rule h status size elapsed at =
    let (ignored, logged) = log_request-none (ignore r rule h) r status size elapsed in
    let e = is_ignored-ignore_logs r p rule h at in (λ n. sym e ∙ ignored n, λ t. logged (e ∙ t))

count_request_ignored :
    (reg : Registry) (d : ℕ) (states : ℕ → Registry.State reg) (h : Heap) (r : Request)
    (status elapsed : ℕ)
    → is_ignored r (record { logs = false; metrics = true }) h ≡ true
    → count_request reg d states h r status elapsed ≡ some []
unfolding count_request
count_request_ignored reg d states h r status elapsed e = rw e refl

module _ (reg : Registry) (w : ResponseWriter) (packages : Packages w.State (Inner reg w))
    (enc : Encoding) where
  open packages use {Logger, Err, PanicValue}

  inner_request-rule :
      (logger : Logger) (registry : ℕ) (r : Request) (s : w.State) (h : Heap)
      → (inner_request reg w packages enc logger registry r s h).0.rule ≡ some h.next
  unfolding inner_request new_ignore
  inner_request-rule logger registry r s h = refl

  -- A handler that calls Ignore on its request, behind the default middleware: the client gets
  -- what the handler and then the error handler send; the request is logged exactly if the rule
  -- does not ignore logs, however the handler ends, and counted in no metric if the rule ignores
  -- metrics; and for every request that was there before, what is ignored stays the same.
  pub default_middleware-ignore :
      (logger : Logger) (registry d start now : ℕ) (cerr : ContextErr) (calls : List Call)
      (rule : IgnoreRule) (on_metrics : (ℕ → Registry.State reg) → (ℕ → Registry.State reg))
      (ending : Ending Err PanicValue) (r : Request) (s : w.State) (h : Heap)
      (states : ℕ → Registry.State reg)
      → let (q, h') = inner_request reg w packages enc logger registry r s h in
        let s' = (identified reg w packages enc logger registry r s).1 in
        let all =
          calls ++ error_calls reg w packages enc cerr q (error_of reg w packages enc ending) in
        (log : Option LogLine) × (run : Run) × (default_middleware reg w packages enc logger
            registry d start now cerr
            (routing reg w packages enc calls (ignore q rule) on_metrics ending)
            r
            s
            h
            states
          ≡ some ((direct w all s').1, ignore q rule h', (log, run)))
        × ((log ≡ none) ↔ (rule.logs ≡ true))
        × (rule.metrics ≡ true → run ≡ some [])
        × ((old : Request) (query : IgnoreRule)
            → IsBelow old h
            → is_ignored old query (ignore q rule h') ≡ is_ignored old query h)
  unfolding record_request inner_request
  default_middleware-ignore logger registry d start now cerr calls rule on_metrics ending r s h
        states =
      let (q, h') = inner_request reg w packages enc logger registry r s h in
      let at = inner_request-rule logger registry r s h in
      (
        _,
        _,
        default_middleware-routing reg w packages enc logger registry d start now cerr calls
            (ignore q rule) on_metrics ending r s h states,
        log_request-ignore q h.next rule h' _ _ (now - start) at,
        (λ e.
            count_request_ignored reg d (on_metrics states) (ignore q rule h') q _ (now - start)
              (is_ignored-ignore_metrics q h.next rule h' at ∙ e)),
        λ old query below.
            (new_ignore-ignore old (identified reg w packages enc logger registry r s).0 rule query
              h below).1,
      )
