-- ===== src/Errfmt/Chain.antt =====
-- `Print` against the chain of causes as a list.
use mathlib.Core.List.{reverse-cons}
use go_baseapp.Prelude.{◌≡◌, refl, sym, ap, ◌∙◌, some, List, [], ◌∷◌, ◌++◌, reverse}
use go_baseapp.Errfmt.{
  Err, plain, caused_by, caused_by_nil, StackTrace, no_trace, pkg_errors, runtime_frames, message,
  deeper, deepest_from, fmt_stack, print,
}

-- The stack traces of an error and of its causes, the error's own first.
pub traces : Err → List StackTrace
traces (plain _ s) = s ∷ []
traces (caused_by_nil _ s) = s ∷ []
traces (caused_by _ s cause) = s ∷ traces cause

-- The first item that is a trace.
pub first_trace : List StackTrace → StackTrace
first_trace [] = no_trace
first_trace (no_trace ∷ ss) = first_trace ss
first_trace (pkg_errors t ∷ ss) = pkg_errors t
first_trace (runtime_frames fs ∷ ss) = runtime_frames fs

first_trace-append :
    (ss : List StackTrace) (s deepest : StackTrace)
    → deeper (first_trace (ss ++ s ∷ [])) deepest ≡ deeper (first_trace ss) (deeper s deepest)
unfolding first_trace deeper
first_trace-append [] no_trace deepest = refl
first_trace-append [] (pkg_errors t) deepest = refl
first_trace-append [] (runtime_frames fs) deepest = refl
first_trace-append (no_trace ∷ ss) s deepest = first_trace-append ss s deepest
first_trace-append (pkg_errors t ∷ ss) s deepest = refl
first_trace-append (runtime_frames fs ∷ ss) s deepest = refl

first_trace_single :
    (s deepest : StackTrace) → deeper s deepest ≡ deeper (first_trace (s ∷ [])) deepest
unfolding first_trace deeper
first_trace_single no_trace deepest = refl
first_trace_single (pkg_errors t) deepest = refl
first_trace_single (runtime_frames fs) deepest = refl

deepest_from-traces :
    (e : Err) (deepest : StackTrace)
    → deepest_from e deepest ≡ deeper (first_trace (reverse (traces e))) deepest
unfolding deepest_from traces
deepest_from-traces (plain _ s) deepest = first_trace_single s deepest
deepest_from-traces (caused_by_nil _ s) deepest = first_trace_single s deepest
deepest_from-traces (caused_by _ s cause) deepest =
    deepest_from-traces cause (deeper s deepest)
    ∙ sym (first_trace-append (reverse (traces cause)) s deepest)
    ∙ ap (λ ss. deeper (first_trace ss) deepest) (sym (reverse-cons s (traces cause)))

deeper_no_trace : (s : StackTrace) → deeper s no_trace ≡ s
unfolding deeper
deeper_no_trace no_trace = refl
deeper_no_trace (pkg_errors t) = refl
deeper_no_trace (runtime_frames fs) = refl

-- Print gives the message of the error itself, followed by the stack trace of the last error in its
-- chain of causes that has one, if any has.
pub print-traces :
    (e : Err) → print (some e) ≡ message e ++ fmt_stack (first_trace (reverse (traces e)))
unfolding print
print-traces e =
    ap (λ s. message e ++ fmt_stack s)
      (deepest_from-traces e no_trace ∙ deeper_no_trace (first_trace (reverse (traces e))))
