-- ===== src/Tests/Stacks.antt =====
-- Requests through the default middleware.
use go_baseapp.Prelude.{
  ℕ, ◌-◌, ◌%◌, ◌^◌, ◌≡◌, refl, ◌≢◌, ◌↔◌, true, false, Option, none, some, List, [], ◌∷◌, ◌++◌,
  arith, map,
}
use go_baseapp.Text.{Text, codes, text_eq}
use go_baseapp.Text.Dict.{lookup, insert}
use go_baseapp.Appmetrics.Registry.{Metric}
use go_baseapp.Baseapp.Ignore.{IgnoreRule, ignore, Request, Heap, zero_rule, is_ignored, new_ignore}
use go_baseapp.Baseapp.Metrics.{Run, Effect, register_default_metrics, bucket_status, key_requests}
use go_baseapp.Baseapp.Metrics.Counting.{Counted, BucketCounted}
use go_baseapp.Baseapp.Writer.{Call, set_field}
use go_baseapp.Baseapp.Writer.Recording.{direct, total, first_status}
use go_baseapp.Baseapp.Access.{LogLine, log_request}
use go_baseapp.Baseapp.Errors.{no_error}
use go_baseapp.Baseapp.Errors.Responses.{expected_status}
use go_baseapp.Baseapp.Middleware.{
  Packages, Inner, Ending, panicked, caught, recovered, default_middleware,
}
use go_baseapp.Baseapp.Middleware.Composing.{error_calls, routing, identified, inner_request}
use go_baseapp.Baseapp.Middleware.Ignoring.{default_middleware-ignore}
use go_baseapp.Baseapp.Ignore.Interleaving.{
  Event, arrive, call_ignore, call_ignore_all, run, rules_of, ignores,
}
use go_baseapp.Baseapp.Ignore.Interleaving.Refining.{is_ignored-run}
use go_baseapp.Baseapp.Ignore.Laws.{IsBelow}
use go_baseapp.Baseapp.Middleware.Failing.{default_middleware-failing}
use go_baseapp.Tests.Providers.{list_registry, buffer_writer, plain_encoding}

-- An error is its status code, and a panic's value is any number.
abbrev packages : Packages Text (Inner list_registry buffer_writer)
packages = record {
  Logger = ℕ;
  Err = Option ℕ;
  PanicValue = ℕ;
  with_logger = λ logger r. r;
  request_id_handler = λ field_key header_name r s. (r, s ++ header_name ++ codes "7");
  id_of = λ r. codes "7";
  cause_status = λ err. err;
  panic_error = λ v. none;
  catch = λ f next r s. caught f r (next r s);
  recover = λ next r s. recovered (λ v. none) (next r s);
  request_id_handler-registry = λ field_key header_name r s. refl;
  catch_law = λ f next r s. refl;
  recover_law = λ next r s. refl;
}

abbrev pub ask : Request
ask = record {
  method = codes "GET";
  path = codes "/api/message";
  remote_addr = codes "10.0.0.1";
  user_agent = codes "test";
  rule = none;
  registry = none;
}

abbrev pub rules : Heap
rules = record { rule_at = λ p. zero_rule; next = 1 }

abbrev pub calls : List Call
calls = set_field (codes "X-Test") (codes "1") ∷ []

abbrev pub ending : Ending (Option ℕ) ℕ
ending = panicked 5

pub registered : List (Text × Metric)
registered = elim (register_default_metrics list_registry 0 []) [ none ↦ [] | some s ↦ s ]

pub registered_some : register_default_metrics list_registry 0 [] ≡ some registered
unfolding registered register_default_metrics lookup insert text_eq
registered_some = refl

undecided : first_status buffer_writer calls ≡ 0
unfolding first_status
undecided = refl

valid : expected_status no_error none ≢ 0
unfolding expected_status
valid = λ e. absurd (omega arith)

heeded :
    is_ignored
      (inner_request list_registry buffer_writer packages plain_encoding 3 4 ask [] rules).0
      (record { logs = false; metrics = true })
      (inner_request list_registry buffer_writer packages plain_encoding 3 4 ask [] rules).1
    ≡ false
unfolding is_ignored inner_request identified new_ignore
heeded = refl

default_middleware-failing_example :
    let (q, h') =
      inner_request list_registry buffer_writer packages plain_encoding 3 4 ask [] rules in
    let s' = (identified list_registry buffer_writer packages plain_encoding 3 4 ask []).1 in
    let sent =
      direct buffer_writer
        (calls
          ++ error_calls list_registry buffer_writer packages plain_encoding no_error q (some none))
        s' in
    (all bucket : List Effect) × (default_middleware list_registry buffer_writer packages
        plain_encoding 3 4 0 10 15 no_error
        (routing list_registry buffer_writer packages plain_encoding calls (λ h. h) (λ s. s) ending)
        ask
        []
        rules
        (λ r. registered)
      ≡ some (
        sent.1,
        h',
        (
          log_request h' q
              (expected_status no_error none)
              (total buffer_writer sent.0 % 2 ^ 64)
              (15 - 10),
          some (all ++ bucket),
        ),
      ))
    × Counted list_registry key_requests (15 - 10) registered all
    × BucketCounted list_registry
        (bucket_status (expected_status no_error none))
        (15 - 10)
        registered
        bucket
default_middleware-failing_example =
    default_middleware-failing list_registry buffer_writer packages plain_encoding 3 4 0 10 15 0 []
      no_error calls (λ h. h) (λ s. s) ending none ask [] rules (λ r. registered)
      (λ obj. (codes "{}", refl)) undecided refl valid registered_some heeded

abbrev no_logs : IgnoreRule
no_logs = record { logs = true; metrics = false }

default_middleware-ignore_example :
    let (q, h') =
      inner_request list_registry buffer_writer packages plain_encoding 3 4 ask [] rules in
    let s' = (identified list_registry buffer_writer packages plain_encoding 3 4 ask []).1 in
    let all =
      calls
      ++ error_calls list_registry buffer_writer packages plain_encoding no_error q (some none) in
    (log : Option LogLine) × (run : Run) × (default_middleware list_registry buffer_writer packages
        plain_encoding 3 4 0 10 15 no_error
        (routing list_registry buffer_writer packages plain_encoding calls
          (ignore q no_logs)
          (λ s. s)
          ending)
        ask
        []
        rules
        (λ r. registered)
      ≡ some ((direct buffer_writer all s').1, ignore q no_logs h', (log, run)))
    × ((log ≡ none) ↔ (true ≡ true))
    × (false ≡ true → run ≡ some [])
    × ((old : Request) (query : IgnoreRule)
        → IsBelow old rules
        → is_ignored old query (ignore q no_logs h') ≡ is_ignored old query rules)
default_middleware-ignore_example =
    default_middleware-ignore list_registry buffer_writer packages plain_encoding 3 4 0 10 15
      no_error calls no_logs (λ s. s) ending ask [] rules (λ r. registered)

-- Two requests: both handlers call Ignore, and the first one again.
abbrev events : List Event
events =
    arrive ask
    ∷ call_ignore 0 (record { logs = true; metrics = false })
    ∷ arrive ask
    ∷ call_ignore_all 1
    ∷ call_ignore 0 (record { logs = false; metrics = true })
    ∷ []

last_rules_test :
    rules_of events []
    ≡ record { logs = false; metrics = true } ∷ record { logs = true; metrics = true } ∷ []
unfolding rules_of
last_rules_test = refl

is_ignored-run_example :
    let (h, rs) = run events (rules, []) in
    (map (λ r. is_ignored r no_logs h) rs ≡ map (ignores no_logs) (rules_of events []))
    × (is_ignored ask no_logs h ≡ is_ignored ask no_logs rules)
is_ignored-run_example = is_ignored-run rules events no_logs ask (λ p e. cc)
