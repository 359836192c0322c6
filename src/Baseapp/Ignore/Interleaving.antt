-- ===== src/Baseapp/Ignore/Interleaving.antt =====
-- Requests that are handled at the same time: their calls of Ignore and IgnoreAll, in any order.
pub mod Refining
use go_baseapp.Prelude.{
  ℕ, zero, suc, Bool, true, not, ◌&&◌, ◌||◌, Option, none, some, List, [], ◌∷◌, ◌++◌, get_elem?,
}
use go_baseapp.Baseapp.Ignore.{IgnoreRule, Request, Heap, zero_rule, new_ignore, ignore, ignore_all}

-- What happens to the rules: a request comes to the ignore middleware, or the handler of the request
-- that came as number `i`, counted from 0, calls Ignore or IgnoreAll.
pub data Event : Type 0 where
  arrive : Request → Event
  call_ignore : ℕ → IgnoreRule → Event
  call_ignore_all : ℕ → Event

-- The variables, and the requests as they are behind the middleware, in the order in which they came.
abbrev pub State : Type 0
State = Heap × List Request

-- A call for a request that has not come changes nothing.
for_request : Option Request → (Request → Heap → Heap) → Heap → Heap
for_request none f h = h
for_request (some r) f h = f r h

step : Event → State → State
unfolding for_request
step (arrive r) (h, rs) = let (r', h') = new_ignore r h in (h', rs ++ r' ∷ [])
step (call_ignore i rule) (h, rs) = (for_request (get_elem? rs i) (λ r. ignore r rule) h, rs)
step (call_ignore_all i) (h, rs) = (for_request (get_elem? rs i) ignore_all h, rs)

unfoldable pub run : List Event → State → State
unfolding step
run [] s = s
run (e ∷ events) s = run events (step e s)

-- The rules as a list, one for each request: what the variables stand for.
set_elem : ℕ → IgnoreRule → List IgnoreRule → List IgnoreRule
set_elem i rule [] = []
set_elem zero rule (q ∷ qs) = rule ∷ qs
set_elem (suc i) rule (q ∷ qs) = q ∷ set_elem i rule qs

abstract_step : Event → List IgnoreRule → List IgnoreRule
unfolding set_elem
abstract_step (arrive r) qs = qs ++ zero_rule ∷ []
abstract_step (call_ignore i rule) qs = set_elem i rule qs
abstract_step (call_ignore_all i) qs = set_elem i (record { logs = true; metrics = true }) qs

unfoldable pub rules_of : List Event → List IgnoreRule → List IgnoreRule
unfolding abstract_step
rules_of [] qs = qs
rules_of (e ∷ events) qs = rules_of events (abstract_step e qs)

-- A request with this rule ignores all types of reporting of the query, which has one.
abbrev pub ignores : IgnoreRule → IgnoreRule → Bool
ignores query rule =
    (query.logs || query.metrics)
    && (not query.logs || rule.logs)
    && (not query.metrics || rule.metrics)
