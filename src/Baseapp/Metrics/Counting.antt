-- ===== src/Baseapp/Metrics/Counting.antt =====
-- Once the default metrics are registered, what a request counts.
use go_baseapp.Text.Equality.{text_eq_sound, text_eq_refl}
use go_baseapp.Prelude.{
  ℕ, ◌+◌, ◌/◌, ◌≤◌, ◌<◌, ◌≡◌, refl, sym, ap, ◌∙◌, ◌⊎◌, inl, inr, true, false, ◌&&◌, some, List, [],
  ◌∷◌, ◌++◌, arith, ltb, leb, Bool-cases, All, >>=-eq-some, if_ind, some_inj,
}
use go_baseapp.Text.{Text, codes, text_eq}
use go_baseapp.Appmetrics.Registry.{Registry, Metric, Kind, kind_eq}
use go_baseapp.Baseapp.Ignore.{Request, Heap, is_ignored}
use go_baseapp.Baseapp.Metrics.{
  get_or_register_as, register_keys, register_gauges, register_default_metrics, default_keys,
  Effect, bucket_status, count_request, latency_suffix, record_bucket, record_key, inc, metrics_ctx,
  key_requests, update,
}

module _ (reg : Registry) where
  open reg use {State, get, get_or_register, get_or_register_value, get-get_or_register}

  -- A metric of this kind is registered under the key.
  abbrev pub Registered : Kind → Text → State → Type 0
  Registered kind key s = (m : Metric) × (get key s ≡ some m) × (kind_eq m.kind kind ≡ true)

  get_or_register-Registered :
      (kind : Kind) (key n : Text) (m : Metric) (s : State)
      → Registered kind key s
      → Registered kind key (get_or_register n m s).1
  get_or_register-Registered kind key n m s (old, found, ok) = (
    old,
    get-get_or_register key n m s ∙ elim (Bool-cases (text_eq n key)) [
      | inl e ↦ rw e (rw (text_eq_sound n key e) (rw found refl))
      | inr e ↦ rw e found
    ],
    ok,
  )

  get_or_register_as-some :
      (kind : Kind) (key : Text) (id : ℕ) (s s' : State)
      → get_or_register_as reg kind key id s ≡ some s'
      → (kind_eq (get_or_register key (record { kind = kind; id = id }) s).0.kind kind ≡ true)
        × ((get_or_register key (record { kind = kind; id = id }) s).1 ≡ s')
  unfolding get_or_register_as
  get_or_register_as-some kind key id s s' h = ground arith

  get_or_register_as_new :
      (kind : Kind) (key : Text) (id : ℕ) (s s' : State)
      → get_or_register_as reg kind key id s ≡ some s'
      → Registered kind key s'
  get_or_register_as_new kind key id s s' h =
      let m : Metric = record { kind = kind; id = id } in
      let (ok, e) = get_or_register_as-some kind key id s s' h in
      rw (← e) (
        (get_or_register key m s).0,
        get-get_or_register key key m s
            ∙ rw (text_eq_refl key) (ap (λ x. some x) (sym (get_or_register_value key m s))),
        ok,
      )

  get_or_register_as-Registered :
      (kind kind' : Kind) (key n : Text) (id : ℕ) (s s' : State)
      → get_or_register_as reg kind' n id s ≡ some s'
      → Registered kind key s
      → Registered kind key s'
  get_or_register_as-Registered kind kind' key n id s s' h r =
      let (_, e) = get_or_register_as-some kind' n id s s' h in
      rw (← e) (get_or_register-Registered kind key n (record { kind = kind'; id = id }) s r)

  register_keys-Registered :
      (kind : Kind) (key : Text) (keys : List Text) (next : ℕ) (s s' : State)
      → register_keys reg keys next s ≡ some s'
      → Registered kind key s
      → Registered kind key s'
  unfolding register_keys
  register_keys-Registered kind key [] next s s' h r = rw (← some_inj h) r
  register_keys-Registered kind key (k ∷ keys) next s s' h r =
      let (s₁, e₁, h₁) = >>=-eq-some _ _ h in
      let (s₂, e₂, h₂) = >>=-eq-some _ _ h₁ in
      register_keys-Registered kind key keys (next + 2) s₂ s' h₂ (
        get_or_register_as-Registered kind Kind.timer key _ (next + 1) s₁ s₂ e₂
          (get_or_register_as-Registered kind Kind.counter key k next s s₁ e₁ r))

  -- The counter and the timer of a key are registered.
  abbrev pub KeyRegistered : State → Text → Type 0
  KeyRegistered s key =
      Registered Kind.counter key s × Registered Kind.timer (key ++ latency_suffix) s

  register_keys-All :
      (keys : List Text) (next : ℕ) (s s' : State)
      → register_keys reg keys next s ≡ some s'
      → All (KeyRegistered s') keys
  unfolding register_keys
  register_keys-All [] next s s' h = tt
  register_keys-All (k ∷ keys) next s s' h =
      let (s₁, e₁, h₁) = >>=-eq-some _ _ h in
      let (s₂, e₂, h₂) = >>=-eq-some _ _ h₁ in
      let counter = get_or_register_as_new Kind.counter k next s s₁ e₁ in
      let timer = get_or_register_as_new Kind.timer (k ++ latency_suffix) (next + 1) s₁ s₂ e₂ in
      (
        (
          register_keys-Registered Kind.counter k keys (next + 2) s₂ s' h₂ (
              get_or_register_as-Registered Kind.counter Kind.timer k _ (next + 1) s₁ s₂ e₂
                counter),
          register_keys-Registered Kind.timer (k ++ latency_suffix) keys (next + 2) s₂ s' h₂ timer,
        ),
        register_keys-All keys (next + 2) s₂ s' h₂,
      )

  register_gauges-Registered :
      (kind : Kind) (key : Text) (next : ℕ) (s : State)
      → Registered kind key s
      → Registered kind key (register_gauges reg next s)
  unfolding register_gauges
  register_gauges-Registered kind key next s r =
      get_or_register-Registered kind key _ _ _ (get_or_register-Registered kind key _ _ s r)

  register_gauges-All :
      (keys : List Text) (next : ℕ) (s : State)
      → All (KeyRegistered s) keys
      → All (KeyRegistered (register_gauges reg next s)) keys
  register_gauges-All [] next s h = tt
  register_gauges-All (k ∷ keys) next s ((c, t), h) = (
    (
      register_gauges-Registered Kind.counter k next s c,
      register_gauges-Registered Kind.timer (k ++ latency_suffix) next s t,
    ),
    register_gauges-All keys next s h,
  )

  register_default_metrics-All :
      (next : ℕ) (s s' : State)
      → register_default_metrics reg next s ≡ some s'
      → All (KeyRegistered s') default_keys
  unfolding register_default_metrics
  register_default_metrics-All next s s' h =
      let (s₁, e₁, h₁) = >>=-eq-some _ _ h in
      let e : register_gauges reg (next + 10) s₁ ≡ s' = some_inj h₁ in
      rw (← e) (
        register_gauges-All default_keys (next + 10) s₁
          (register_keys-All default_keys next s s₁ e₁))

  -- One Inc and one Update of the elapsed time, on the metrics registered under the key.
  abbrev pub Counted : Text → ℕ → State → List Effect → Type 0
  Counted key elapsed s effects =
      (c t : Metric) × (get key s ≡ some c)
      × (get (key ++ latency_suffix) s ≡ some t)
      × (effects ≡ inc c.id ∷ update t.id elapsed ∷ [])

  record_key_lem :
      (key : Text) (elapsed : ℕ) (s : State)
      → KeyRegistered s key
      → (effects : List Effect) × (record_key reg key elapsed s ≡ some effects)
        × Counted key elapsed s effects
  unfolding record_key
  record_key_lem key elapsed s ((c, ec, kc), (t, et, kt)) =
      (inc c.id ∷ update t.id elapsed ∷ [], rw (ec, et) (rw (kc, kt) refl), (c, t, ec, et, refl))

  -- What a bucket of statuses counts: nothing without a bucket.
  abbrev pub BucketCounted : Text → ℕ → State → List Effect → Type 0
  BucketCounted [] elapsed s effects = effects ≡ []
  BucketCounted (c ∷ key) elapsed s effects = Counted (c ∷ key) elapsed s effects

  -- What is registered for a key, if it is one.
  abbrev BucketRegistered : State → Text → Type 0
  BucketRegistered s [] = Unit
  BucketRegistered s (c ∷ key) = KeyRegistered s (c ∷ key)

  record_bucket_lem :
      (key : Text) (elapsed : ℕ) (s : State)
      → BucketRegistered s key
      → (effects : List Effect) × (record_bucket reg key elapsed s ≡ some effects)
        × BucketCounted key elapsed s effects
  unfolding record_bucket
  record_bucket_lem [] elapsed s r = ([], refl, refl)
  record_bucket_lem (c ∷ key) elapsed s r = record_key_lem (c ∷ key) elapsed s r

  bucket_status-BucketRegistered :
      (status : ℕ) (s : State)
      → All (KeyRegistered s) default_keys
      → BucketRegistered s (bucket_status status)
  unfolding bucket_status
  bucket_status-BucketRegistered status s (_, (r2, (r3, (r4, (r5, _))))) =
      if_ind (BucketRegistered s) (leb 200 status && ltb status 300) r2 (
        if_ind (BucketRegistered s) (leb 300 status && ltb status 400) r3 (
          if_ind (BucketRegistered s) (leb 400 status && ltb status 500) r4
            (if_ind (BucketRegistered s) (leb 500 status && ltb status 600) r5 tt)))

  -- Once RegisterDefaultMetrics has returned, CountRequest does not panic for a request whose
  -- metrics are not ignored, whatever its status: it increments the counter and updates the timer
  -- registered for all requests, then those registered for the bucket of its status, and nothing
  -- else if the status has no bucket.
  pub count_request-register_default_metrics :
      (next : ℕ) (s : State) (default_registry : ℕ) (states : ℕ → State) (h : Heap) (r : Request)
      (status elapsed : ℕ)
      → register_default_metrics reg next s
        ≡ some (states (metrics_ctx r.registry default_registry))
      → is_ignored r (record { logs = false; metrics = true }) h ≡ false
      → (all bucket : List Effect) × (count_request reg default_registry states h r status elapsed
          ≡ some (all ++ bucket))
        × Counted key_requests elapsed (states (metrics_ctx r.registry default_registry)) all
        × BucketCounted
            (bucket_status status)
            elapsed
            (states (metrics_ctx r.registry default_registry))
            bucket
  unfolding count_request
  count_request-register_default_metrics next s d states h r status elapsed done heeded =
      let s' = states (metrics_ctx r.registry d) in
      let registered = register_default_metrics-All next s s' done in
      let (all, ea, ca) = record_key_lem key_requests elapsed s' registered.0 in
      let (bucket, eb, cb) =
        record_bucket_lem (bucket_status status) elapsed s'
          (bucket_status-BucketRegistered status s' registered) in
      (all, bucket, rw heeded (rw (ea, eb) refl), ca, cb)

-- The bucket of a status is named by its first digit: 2xx to 5xx for the statuses from 200 to 599,
-- and no other status has a bucket.
bucket_status_lem :
    (status : ℕ)
    → ((200 ≤ status)
        × (status < 600)
        × (bucket_status status ≡ codes "server.requests." ++ (48 + status / 100) ∷ codes "xx"))
      ⊎ (((status < 200) ⊎ (600 ≤ status)) × (bucket_status status ≡ []))
unfolding bucket_status
bucket_status_lem status = ground arith
