-- ===== src/Baseapp/Server/Construction.antt =====
-- What NewServer makes of its parameters.
use go_baseapp.Prelude.{
  if_true, ℕ, zero, suc, ◌≡◌, refl, ap, ◌∙◌, true, Option, none, some, List, [], ◌∷◌, ◌++◌,
}
use go_baseapp.Text.{text_eq}
use go_baseapp.Text.Numbers.{itoa}
use go_baseapp.Baseapp.Config.{HttpConfig}
use go_baseapp.Baseapp.Server.{
  Types, Param, Server, Zerolog, new_server, base_server, apply_params, default_params,
  default_middleware, mux, start, and_then,
}

module _ (t : Types) where
  open t use {Logger, rich_error_marshal, recommended}

  and_then_assoc :
      (r : Server t × Zerolog t × Option ℕ) (f g h : Param t)
      → ((s : Server t) (z : Zerolog t) → f s z ≡ and_then t (g s z) h)
      → and_then t r f ≡ and_then t (and_then t r g) h
  unfolding and_then
  and_then_assoc (s, z, none) f g h e = e s z
  and_then_assoc (s, z, some err) f g h e = refl

  apply_params-append :
      (ps qs : List (Param t)) (s : Server t) (z : Zerolog t)
      → apply_params t (ps ++ qs) s z ≡ and_then t (apply_params t ps s z) (apply_params t qs)
  unfolding apply_params
  apply_params-append [] qs s z = refl
  apply_params-append (p ∷ ps) qs s z =
      and_then_assoc (p s z) (apply_params t (ps ++ qs)) (apply_params t ps) (apply_params t qs)
        (λ s' z'. apply_params-append ps qs s' z')

  -- NewServer stops at the first parameter that fails: it returns that error and the server as this
  -- parameter left it, whatever parameters come behind, and none of the defaults is filled in.
  pub new_server_error :
      (c : HttpConfig) (d : ℕ) (before after : List (Param t)) (p : Param t) (s s' : Server t)
      (z z' z'' : Zerolog t) (e : ℕ)
      → apply_params t before (base_server t c d) z ≡ (s, z', none)
      → p s z' ≡ (s', z'', some e)
      → new_server t c d (before ++ p ∷ after) z ≡ (s', z'', some e)
  unfolding new_server
  new_server_error c d before after p s s' z z' z'' e ok failed =
      rw (apply_params-append before (p ∷ after) (base_server t c d) z, ok, failed) refl

  -- A server that is started this many times.
  unfoldable pub restarts : ℕ → Server t → Server t
  restarts zero s = s
  restarts (suc n) s = restarts n (start t s).0

  start-done : (s : Server t) → s.init_done ≡ true → (start t s).0 ≡ s
  unfolding start
  start-done s done = if_true s.init_done _ done

  restarts-done :
      (n : ℕ) (s : Server t) → s.init_done ≡ true → (restarts n s).registered ≡ s.registered
  unfolding restarts
  restarts-done zero s done = refl
  restarts-done (suc n) s done =
      ap (λ s'. (restarts n s').registered) (start-done s done) ∙ restarts-done n s done

  -- A server made from the default parameters: the middleware that its handler uses and the metrics
  -- that are registered when it is started, any number of times, share the one registry that the
  -- server reports; it listens on the configured address and port.
  pub new_server-default_params :
      (c : HttpConfig) (d : ℕ) (logger : Logger) (registry : ℕ) (z : Zerolog t)
      → let (s, z', err) = new_server t c d (default_params t logger registry) z in
        (err ≡ none)
        × (s.registry ≡ registry)
        × (s.registered ≡ [])
        × (s.server
            ≡ some (record {
              addr = c.address ++ b':' ∷ itoa c.port;
              handler = some (mux (default_middleware t logger registry));
              tls = some recommended;
            }))
        × ((n : ℕ) → (restarts (suc n) s).registered ≡ registry ∷ [])
        × (z' ≡ record { utc_nano_time = true; error_marshal = some rich_error_marshal })
  unfolding new_server default_params restarts start text_eq
  new_server-default_params c d logger registry z = (
    refl,
    refl,
    refl,
    refl,
    (λ n.
        restarts-done n (start t (new_server t c d (default_params t logger registry) z).0).0 refl),
    refl,
  )
