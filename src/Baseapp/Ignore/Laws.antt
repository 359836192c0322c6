-- ===== src/Baseapp/Ignore/Laws.antt =====
-- What Ignore and IsIgnored promise to each other.
use go_baseapp.Prelude.{
  ◌≡◌, false, none, true, ℕ, arith, some, ◌⊎◌, Option-cases, ◌<◌, ◌↔◌, inl, inr, refl,
}
use go_baseapp.Baseapp.Ignore.{IgnoreRule, Request, Heap, new_ignore, ignore, is_ignored}

-- The rule asks for something, and for nothing that the other rule does not ignore.
abbrev pub Covers : IgnoreRule → IgnoreRule → Type 0
Covers other rule =
    ((rule.logs ≡ true) ⊎ (rule.metrics ≡ true))
    × (rule.logs ≡ true → other.logs ≡ true)
    × (rule.metrics ≡ true → other.metrics ≡ true)

-- After Ignore with a rule, a request that went through the ignore middleware ignores exactly the
-- types of reporting that the rule sets: IsIgnored holds of a query if and only if the query sets at
-- least one type and each type that it sets is set in the rule. What was ignored before is forgotten.
is_ignored-ignore :
    (r : Request) (p : ℕ) (rule query : IgnoreRule) (h : Heap)
    → r.rule ≡ some p
    → (is_ignored r query (ignore r rule h) ≡ true) ↔ Covers rule query
unfolding is_ignored ignore
is_ignored-ignore r p rule query h e = rw e (ground arith)

-- The same for a query that sets one type.
pub is_ignored-ignore_logs :
    (r : Request) (p : ℕ) (rule : IgnoreRule) (h : Heap)
    → r.rule ≡ some p
    → is_ignored r (record { logs = true; metrics = false }) (ignore r rule h) ≡ rule.logs
unfolding is_ignored ignore
is_ignored-ignore_logs r p rule h e = rw e (ground arith)

pub is_ignored-ignore_metrics :
    (r : Request) (p : ℕ) (rule : IgnoreRule) (h : Heap)
    → r.rule ≡ some p
    → is_ignored r (record { logs = false; metrics = true }) (ignore r rule h) ≡ rule.metrics
unfolding is_ignored ignore
is_ignored-ignore_metrics r p rule h e = rw e (ground arith)

-- A request that did not go through the middleware is never ignored, and Ignore on it changes nothing.
pub ignore_without :
    (r : Request) (rule query : IgnoreRule) (h : Heap)
    → r.rule ≡ none
    → (ignore r rule h ≡ h) × (is_ignored r query h ≡ false)
unfolding is_ignored ignore
ignore_without r rule query h e = rw e (refl, ground arith)

-- Every variable in use stands below the next free address.
abbrev pub IsBelow : Request → Heap → Type 0
IsBelow r h = (p : ℕ) → r.rule ≡ some p → p < h.next

-- The middleware starts a request with nothing ignored, and a rule that is then set for it does not
-- show in any request that was made before it.
pub new_ignore-ignore :
    (old r : Request) (rule query : IgnoreRule) (h : Heap)
    → IsBelow old h
    → (is_ignored (new_ignore r h).0 query (new_ignore r h).1 ≡ false)
      × (is_ignored old query (ignore (new_ignore r h).0 rule (new_ignore r h).1)
          ≡ is_ignored old query h)
      × IsBelow (new_ignore r h).0 (new_ignore r h).1
unfolding is_ignored ignore new_ignore
new_ignore-ignore old r rule query h below = (
  ground arith,
  elim (Option-cases old.rule) [
    | inl e ↦ rw e refl
    | inr (p, e) ↦ let lt = below p e in rw e (ground arith)
  ],
  λ p e. ground arith,
)

-- Nothing is ignored of a request that has just gone through NewIgnoreHandler.
pub new_ignore_fresh :
    (r : Request) (query : IgnoreRule) (h : Heap)
    → is_ignored (new_ignore r h).0 query (new_ignore r h).1 ≡ false
new_ignore_fresh r query h =
    (new_ignore-ignore (record r { rule = none }) r query query h (λ p e. cc)).0
