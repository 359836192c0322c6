-- ===== src/Baseapp/Ignore/Interleaving/Refining.antt =====
-- The rules of requests that are handled at the same time, against one rule for each request.
use go_baseapp.Prelude.{
  ℕ, zero, suc, ◌+◌, ◌≤◌, ◌<◌, ◌≡◌, refl, ap, ◌∙◌, ◌⊎◌, inl, inr, none, some, List, [], ◌∷◌, ◌++◌,
  map, arith, Option-cases, length, get_elem?, length-append,
}
use go_baseapp.Baseapp.Ignore.{
  IgnoreRule, Request, Heap, zero_rule, store, new_ignore, ignore, ignore_all, is_ignored,
}
use go_baseapp.Baseapp.Ignore.Laws.{IsBelow}
use go_baseapp.Baseapp.Ignore.Interleaving.{
  Event, arrive, call_ignore, call_ignore_all, State, for_request, step, run, set_elem,
  abstract_step, rules_of, ignores,
}

-- The requests point to the variables from `p` on, which hold the rules.
Tracks : ℕ → (ℕ → IgnoreRule) → List Request → List IgnoreRule → Type 0
Tracks p f [] [] = Unit
Tracks p f [] (q ∷ qs) = ⊥
Tracks p f (r ∷ rs) [] = ⊥
Tracks p f (r ∷ rs) (q ∷ qs) = (r.rule ≡ some p) × (f p ≡ q) × Tracks (suc p) f rs qs

store-Tracks :
    (a p : ℕ) (rule : IgnoreRule) (h : Heap) (rs : List Request) (qs : List IgnoreRule)
    → (a < p) ⊎ (p + length rs ≤ a)
    → Tracks p h.rule_at rs qs
    → Tracks p (store a rule h).rule_at rs qs
unfolding Tracks
store-Tracks a p rule h [] [] out t = tt
store-Tracks a p rule h [] (q ∷ qs) out t = absurd t
store-Tracks a p rule h (r ∷ rs) [] out t = absurd t
store-Tracks a p rule h (r ∷ rs) (q ∷ qs) out (e, f, t) =
    (e, ground arith, store-Tracks a (suc p) rule h rs qs (ground arith) t)

append-Tracks :
    (p a : ℕ) (h : Heap) (rs : List Request) (qs : List IgnoreRule) (r : Request) (q : IgnoreRule)
    → Tracks p h.rule_at rs qs
    → a ≡ p + length rs
    → r.rule ≡ some a
    → h.rule_at a ≡ q
    → Tracks p h.rule_at (rs ++ r ∷ []) (qs ++ q ∷ [])
unfolding Tracks
append-Tracks p a h [] [] r q t at e v =
    (e ∙ ap some (omega arith), ap h.rule_at (omega arith) ∙ v, tt)
append-Tracks p a h [] (q' ∷ qs) r q t at e v = absurd t
append-Tracks p a h (r' ∷ rs) [] r q t at e v = absurd t
append-Tracks p a h (r' ∷ rs) (q' ∷ qs) r q (b, c, t) at e v =
    (b, c, append-Tracks (suc p) a h rs qs r q t (omega arith) e v)

-- The variable of a request that has come, and no change of the rules otherwise.
Tracks-get_elem? :
    (p a i : ℕ) (h : Heap) (rs : List Request) (qs : List IgnoreRule)
    → Tracks p h.rule_at rs qs
    → a ≡ p + i
    → ((get_elem? rs i ≡ none) × ((rule : IgnoreRule) → set_elem i rule qs ≡ qs))
      ⊎ ((r : Request) × (get_elem? rs i ≡ some r) × (r.rule ≡ some a))
unfolding Tracks set_elem
Tracks-get_elem? p a i h [] [] t at = inl (refl, λ rule. refl)
Tracks-get_elem? p a i h [] (q ∷ qs) t at = absurd t
Tracks-get_elem? p a i h (r ∷ rs) [] t at = absurd t
Tracks-get_elem? p a zero h (r ∷ rs) (q ∷ qs) (b, c, t) at =
    inr (r, refl, b ∙ ap some (omega arith))
Tracks-get_elem? p a (suc i) h (r ∷ rs) (q ∷ qs) (b, c, t) at =
    elim (Tracks-get_elem? (suc p) a i h rs qs t (omega arith)) [
      | inl (e, f) ↦ inl (e, λ rule. ap (λ qs'. q ∷ qs') (f rule))
      | inr found ↦ inr found
    ]

set_elem-Tracks :
    (p a i : ℕ) (rule : IgnoreRule) (h : Heap) (rs : List Request) (qs : List IgnoreRule)
    → Tracks p h.rule_at rs qs
    → a ≡ p + i
    → Tracks p (store a rule h).rule_at rs (set_elem i rule qs)
unfolding Tracks set_elem
set_elem-Tracks p a i rule h [] [] t at = tt
set_elem-Tracks p a i rule h [] (q ∷ qs) t at = absurd t
set_elem-Tracks p a i rule h (r ∷ rs) [] t at = absurd t
set_elem-Tracks p a zero rule h (r ∷ rs) (q ∷ qs) (b, c, t) at =
    (b, ground arith, store-Tracks a (suc p) rule h rs qs (inl (omega arith)) t)
set_elem-Tracks p a (suc i) rule h (r ∷ rs) (q ∷ qs) (b, c, t) at =
    (b, ground arith, set_elem-Tracks (suc p) a i rule h rs qs t (omega arith))

-- What holds after any events: the requests have the variables from `p` on, the next free address is
-- behind them, and what stands below `p` is as in `h0`.
Ready : Heap → State → List IgnoreRule → Type 0
Ready h0 (h, rs) qs =
    Tracks h0.next h.rule_at rs qs
    × (h.next ≡ h0.next + length rs)
    × ((a : ℕ) → a < h0.next → h.rule_at a ≡ h0.rule_at a)

for_request-Ready :
    (h0 h : Heap) (rs : List Request) (qs : List IgnoreRule) (i : ℕ) (rule : IgnoreRule)
    → Ready h0 (h, rs) qs
    → Ready h0 (for_request (get_elem? rs i) (λ r. ignore r rule) h, rs) (set_elem i rule qs)
unfolding Ready for_request ignore
for_request-Ready h0 h rs qs i rule (t, n, f) =
    elim (Tracks-get_elem? h0.next (h0.next + i) i h rs qs t refl) [
      | inl (e, same) ↦ rw (e, same rule) (t, n, f)
      | inr (r, e, at) ↦
          rw (e, at)
            (
              set_elem-Tracks h0.next (h0.next + i) i rule h rs qs t refl,
              n,
              λ a lt. let old = f a lt in ground arith,
            )
    ]

step-Ready :
    (h0 : Heap) (e : Event) (s : State) (qs : List IgnoreRule)
    → Ready h0 s qs
    → Ready h0 (step e s) (abstract_step e qs)
unfolding step abstract_step Ready new_ignore ignore_all
step-Ready h0 (arrive r) (h, rs) qs (t, n, f) = (
  append-Tracks h0.next h.next (store h.next zero_rule h) rs qs (record r { rule = some h.next })
      zero_rule (store-Tracks h.next h0.next zero_rule h rs qs (inr (omega arith)) t) n refl
      (ground arith),
  omega (arith, length-append rs (record r { rule = some h.next } ∷ [])),
  λ a lt. let old = f a lt in ground arith,
)
step-Ready h0 (call_ignore i rule) (h, rs) qs ready = for_request-Ready h0 h rs qs i rule ready
step-Ready h0 (call_ignore_all i) (h, rs) qs ready = for_request-Ready h0 h rs qs i _ ready

run-Ready :
    (h0 : Heap) (events : List Event) (s : State) (qs : List IgnoreRule)
    → Ready h0 s qs
    → Ready h0 (run events s) (rules_of events qs)
unfolding run rules_of
run-Ready h0 [] s qs ready = ready
run-Ready h0 (e ∷ events) s qs ready =
    run-Ready h0 events (step e s) (abstract_step e qs) (step-Ready h0 e s qs ready)

is_ignored-ignores :
    (r : Request) (p : ℕ) (query : IgnoreRule) (h : Heap)
    → r.rule ≡ some p
    → is_ignored r query h ≡ ignores query (h.rule_at p)
unfolding is_ignored
is_ignored-ignores r p query h e = rw e (ground arith)

-- The answers of IsIgnored by the rules.
is_ignored-Tracks :
    (p : ℕ) (query : IgnoreRule) (h : Heap) (rs : List Request) (qs : List IgnoreRule)
    → Tracks p h.rule_at rs qs
    → map (λ r. is_ignored r query h) rs ≡ map (ignores query) qs
unfolding Tracks is_ignored
is_ignored-Tracks p query h [] [] t = refl
is_ignored-Tracks p query h [] (q ∷ qs) t = absurd t
is_ignored-Tracks p query h (r ∷ rs) [] t = absurd t
is_ignored-Tracks p query h (r ∷ rs) (q ∷ qs) (a, b, t) =
    rw (is_ignored-ignores r p query h a, b, is_ignored-Tracks (suc p) query h rs qs t) refl

-- Requests come to the ignore middleware and their handlers call Ignore and IgnoreAll, in any order
-- and from any state: IsIgnored answers each of them by its own rule, nothing at first and then the
-- last one that its own handler has set, whatever the handlers of the others do; and for a request
-- that was there before, it answers as before.
pub is_ignored-run :
    (h0 : Heap) (events : List Event) (query : IgnoreRule) (old : Request)
    → IsBelow old h0
    → let (h, rs) = run events (h0, []) in
      (map (λ r. is_ignored r query h) rs ≡ map (ignores query) (rules_of events []))
      × (is_ignored old query h ≡ is_ignored old query h0)
unfolding Ready is_ignored Tracks
is_ignored-run h0 events query old below =
    let (t, n, f) = run-Ready h0 events (h0, []) [] (tt, omega arith, λ a lt. refl) in
    (
      is_ignored-Tracks h0.next query (run events (h0, [])).0 (run events (h0, [])).1
          (rules_of events []) t,
      elim (Option-cases old.rule) [
        | inl e ↦ rw e refl
        | inr (p, e) ↦ rw (e, f p (below p e)) refl
      ],
    )
