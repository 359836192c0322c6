-- ===== src/Baseapp/Ignore.antt =====
-- baseapp/ignore.go: ignore rules, kept in a variable that the context of a request points to.
pub mod Laws
pub mod Interleaving
use go_baseapp.Text.{Text}
use go_baseapp.Prelude.{
  ℕ, Bool, true, false, Option, none, some, if◌then◌else◌, not, ◌+◌, ◌&&◌, ◌==◌,
}

pub record IgnoreRule : Type 0 where
  pub logs : Bool
  pub metrics : Bool

-- `var rule IgnoreRule`
abbrev pub zero_rule : IgnoreRule
zero_rule = record { logs = false; metrics = false }

-- `rule == zeroRule`
is_zero : IgnoreRule → Bool
is_zero rule = not rule.logs && not rule.metrics

-- The variables of type IgnoreRule, by address, and the next free address.
pub record Heap : Type 0 where
  pub rule_at : ℕ → IgnoreRule
  pub next : ℕ

-- A request: what the package reads of it. `rule` is the value of its context under
-- `ignoreCtxKey`, a pointer to a variable, and `registry` the metrics registry under
-- `metricsCtxKey`.
pub record Request : Type 0 where
  pub method : Text
  pub path : Text
  pub remote_addr : Text
  pub user_agent : Text
  pub rule : Option ℕ
  pub registry : Option ℕ

-- `*p = rule`
abbrev pub store : ℕ → IgnoreRule → Heap → Heap
store p rule h = record h { rule_at = λ q. if q == p then rule else h.rule_at q }

-- What the handler of `NewIgnoreHandler` does before it calls the next one: a fresh variable, and a
-- request whose context points to it.
unfoldable pub new_ignore : Request → Heap → Request × Heap
new_ignore r h =
    let h' = store h.next zero_rule h in
    (record r { rule = some h.next }, record h' { next = h.next + 1 })

ignore_at : Option ℕ → IgnoreRule → Heap → Heap
ignore_at (some p) rule h = store p rule h
ignore_at none rule h = h

unfoldable pub ignore : Request → IgnoreRule → Heap → Heap
unfolding ignore_at
ignore r rule h = ignore_at r.rule rule h

unfoldable pub ignore_all : Request → Heap → Heap
unfolding ignore
ignore_all r h = ignore r (record { logs = true; metrics = true }) h

-- `IsIgnored` on the rule that the context points to.
is_ignored_by : IgnoreRule → IgnoreRule → Bool
is_ignored_by rule ctx_rule =
    if rule.logs && not ctx_rule.logs
    then false
    else if rule.metrics && not ctx_rule.metrics
    then false
    else true

is_ignored_at : Option ℕ → IgnoreRule → Heap → Bool
unfolding is_ignored_by
is_ignored_at (some p) rule h = is_ignored_by rule (h.rule_at p)
is_ignored_at none rule h = false

unfoldable pub is_ignored : Request → IgnoreRule → Heap → Bool
unfolding is_ignored_at is_zero
is_ignored r rule h = if is_zero rule then false else is_ignored_at r.rule rule h
