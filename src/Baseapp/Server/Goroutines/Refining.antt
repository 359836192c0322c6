-- ===== src/Baseapp/Server/Goroutines/Refining.antt =====
-- The runs of the two goroutines against the specification of Start by its events.
use go_baseapp.Prelude.{ℕ, ◌≡◌, refl, ap, ◌≢◌, ◌↔◌, ◌⊎◌, inl, inr, Option, some, List, [], ◌∷◌}
use go_baseapp.Text.Numbers.{ℤ}
use go_baseapp.Baseapp.Server.Events.{
  Event, interrupt, quit, StartResult, ServeErr, server_closed, serve_failed, wrap_shutdown,
  start_result,
}
use go_baseapp.Baseapp.Server.Goroutines.{
  Serving, listening, finished, Caller, selecting, shutting_down, ended, after_start, after_select,
  start_returns, shutdown_returns, receive_signal, receive_quit, Run, stop, silent, receiving,
}

-- The goroutine that serves has not got rid of its error.
abbrev pub IsPending : Serving → Type 0
IsPending s = s ≢ finished

after_start-IsPending : (err : ServeErr) → IsPending (after_start (some err))
unfolding after_start
after_start-IsPending err e = cc

module _ (shutdown : ℤ → Option ℕ) (wait : ℤ) where
  -- Behind the `select` nothing is received, and a goroutine that has not sent its error keeps it.
  ended_run :
      {r : StartResult} {s : Serving} {events : List Event} {c : Caller} {s' : Serving}
      → Run shutdown wait (ended r) s events c s'
      → (events ≡ [])
        × (c ≡ ended r)
        × (IsPending s → IsPending s')
        × (s ≡ finished → s' ≡ finished)
  ended_run stop = (refl, refl, (λ p. p), (λ e. e))
  ended_run (silent (start_returns c err) rest) =
      let (none_left, same, keeps, _) = ended_run rest in
      (none_left, same, (λ p. keeps (after_start-IsPending err)), λ e. cc)
  ended_run (receiving r _) = elim r [ ]

  shutting_run :
      {s : Serving} {events : List Event} {c : Caller} {s' : Serving}
      → Run shutdown wait shutting_down s events c s'
      → (events ≡ [])
        × ((c ≡ shutting_down) ⊎ (c ≡ ended (wrap_shutdown (shutdown wait))))
        × (IsPending s → IsPending s')
        × (s ≡ finished → s' ≡ finished)
  shutting_run stop = (refl, inl refl, (λ p. p), (λ e. e))
  shutting_run (silent (start_returns c err) rest) =
      let (none_left, place, keeps, _) = shutting_run rest in
      (none_left, place, (λ p. keeps (after_start-IsPending err)), λ e. cc)
  shutting_run (silent (shutdown_returns s) rest) =
      let (none_left, same, keeps, stays) = ended_run rest in (none_left, inr same, keeps, stays)
  shutting_run (receiving r _) = elim r [ ]

  -- What a place of the caller means, once it has received an event.
  abbrev Ends : Event → Caller → Type 0
  Ends event c =
      (c ≢ selecting)
      × ((result : StartResult)
          → c ≡ ended result
          → start_result shutdown (some wait) (event ∷ []) ≡ some result)

  -- Where the other goroutine is then: it keeps its error behind a signal, and is at its end once
  -- its error is received.
  abbrev pub Served : Event → Serving → Type 0
  Served interrupt s = IsPending s
  Served (quit err) s = s ≡ finished

  shutting-Ends :
      (event : Event) (c : Caller)
      → start_result shutdown (some wait) (event ∷ []) ≡ some (wrap_shutdown (shutdown wait))
      → (c ≡ shutting_down) ⊎ (c ≡ ended (wrap_shutdown (shutdown wait)))
      → Ends event c
  shutting-Ends event c e (inl at) = (λ h. cc, λ result h. cc)
  shutting-Ends event c e (inr at) = (λ h. cc, λ result h. cc)

  selecting_run :
      {s : Serving} {events : List Event} {c : Caller} {s' : Serving}
      → IsPending s
      → Run shutdown wait selecting s events c s'
      → ((events ≡ []) × (c ≡ selecting))
        ⊎ ((event : Event) × (events ≡ event ∷ []) × Ends event c × Served event s')
  unfolding start_result after_select
  selecting_run p stop = inl (refl, refl)
  selecting_run p (silent (start_returns c err) rest) =
      selecting_run (after_start-IsPending err) rest
  selecting_run p (receiving (receive_signal s) rest) =
      let (none_left, places, keeps, _) = shutting_run rest in
      inr (
        interrupt,
        ap (λ l. interrupt ∷ l) none_left,
        shutting-Ends interrupt _ refl places,
        keeps p,
      )
  selecting_run p (receiving (receive_quit server_closed) rest) =
      let (none_left, places, _, stays) = shutting_run rest in
      inr (
        quit server_closed,
        ap (λ l. quit server_closed ∷ l) none_left,
        shutting-Ends (quit server_closed) _ refl places,
        stays refl,
      )
  selecting_run p (receiving (receive_quit (serve_failed err)) rest) =
      let (none_left, same, _, stays) = ended_run rest in
      inr (
        quit (serve_failed err),
        ap (λ l. quit (serve_failed err) ∷ l) none_left,
        (λ h. cc, λ result h. cc),
        stays refl,
      )

  -- Behind the `select` the caller comes to its end by itself.
  can_end :
      (c : Caller) (s : Serving)
      → c ≢ selecting
      → (result : StartResult) × Run shutdown wait c s [] (ended result) s
  can_end selecting s left = absurd (left refl)
  can_end shutting_down s left = (wrap_shutdown (shutdown wait), silent (shutdown_returns s) stop)
  can_end (ended result) s left = (result, stop)

  -- In every interleaving of the two goroutines, Start with a wait time receives at most one event:
  -- it still waits exactly if it has received none, it can return without another one once it has
  -- received one, and if it has returned, then with the result of that event. Once the event is a
  -- signal, the goroutine that serves never ends: it still serves, or it is blocked on sending its
  -- error, which nobody receives.
  pub run-start_result :
      {events : List Event} {c : Caller} {s : Serving}
      → Run shutdown wait selecting listening events c s
      → ((c ≡ selecting) ↔ (events ≡ []))
        × ((events ≢ []) → (result : StartResult) × Run shutdown wait c s [] (ended result) s)
        × ((result : StartResult)
            → c ≡ ended result
            → start_result shutdown (some wait) events ≡ some result)
        × ((events ≡ []) ⊎ ((event : Event) × (events ≡ event ∷ []) × Served event s))
  run-start_result {c = c} {s = s} run = elim (selecting_run (λ e. cc) run) [
    | inl h ↦ (
      (λ _. h.0, λ _. h.1),
      (λ some_event. absurd (some_event (h.0))),
      (λ result e. let at = h.1 in cc),
      inl h.0,
    )
    | inr h ↦
        let (event, one, (left, ends), served) = h in
        (
          (λ at. absurd (left at), λ e. cc),
          (λ _. can_end c s left),
          (λ result e. rw one (ends result e)),
          inr (event, one, served),
        )
  ]
