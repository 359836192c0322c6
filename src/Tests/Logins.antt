-- ===== src/Tests/Logins.antt =====
-- The login flow.
use go_baseapp.Auth.Oauth2.{Outcome, insecure_state}
use go_baseapp.Auth.Oauth2.Options.{
  Param, serve, new_handler, with_force_tls, with_store, KeepsStore, serve-new_handler, ErrorView,
  is_other,
}
use go_baseapp.Prelude.{
  ℕ, ◌≡◌, refl, ◌≢◌, ◌↔◌, inl, true, false, none, [], ◌∷◌, if◌then◌else◌, All, List,
}
use go_baseapp.Text.{Text, codes, text_eq}
use go_baseapp.Tests.Providers.{echo_provider}
use go_baseapp.Auth.Oauth2.{
  Provider, Request, Url, logged_in, redirected, serve_http, redirect_url, query_code, query_error,
  query_state, insecure_store, StateStore,
}
use go_baseapp.Auth.Oauth2.Flow.{serve_http-logged_in}
use go_baseapp.Auth.Oauth2.Sessions.{Session, session_store, hex_encode}
use go_baseapp.Auth.Oauth2.Sessions.Protection.{serve_http-session_store}

abbrev home : Url
home = record { scheme = []; host = []; path = codes "/login"; query = [] }

abbrev first : Request
first = record { url = home; host = codes "h"; is_tls = true; form_value = λ k. [] }

second_form : Text → Text
second_form k = if text_eq k query_code then codes "c" else []

abbrev second : Request
second = record { url = home; host = codes "h"; is_tls = true; form_value = second_form }

abbrev new_session : Session
new_session = record {
  value = none;
  get_error = none;
  save_error = none;
  random = inl (1 ∷ 255 ∷ []);
}

serve_http-session_store_example :
    ((serve_http echo_provider session_store true first new_session).0
      ≡ redirected (hex_encode (1 ∷ 255 ∷ [])))
    × (((serve_http echo_provider session_store true second
            (serve_http echo_provider session_store true first new_session).1).0
          ≡ logged_in (codes "c"))
        ↔ ((second_form query_error ≡ [])
            × (second_form query_code ≢ [])
            × (second_form query_state ≡ hex_encode (1 ∷ 255 ∷ []))
            × (Provider.exchange echo_provider (redirect_url second true) (second_form query_code)
                ≡ inl (codes "c"))))
serve_http-session_store_example =
    serve_http-session_store echo_provider true first second new_session (1 ∷ 255 ∷ []) (codes "c")
      refl refl refl refl refl

serve_http-logged_in_example :
    ((serve_http {World = ℕ} echo_provider insecure_store false second 0).0 ≡ logged_in (codes "c"))
    ↔ ((second_form query_error ≡ [])
        × (second_form query_code ≢ [])
        × (StateStore.verify_state {World = ℕ} insecure_store second (second_form query_state) 0
            ≡ inl true)
        × (Provider.exchange echo_provider (redirect_url second false) (second_form query_code)
            ≡ inl (codes "c")))
serve_http-logged_in_example =
    serve_http-logged_in echo_provider insecure_store false second 0 (codes "c")

view : ℕ → ErrorView
view err = is_other (codes "error")

abbrev flow : List (Param echo_provider Session view) → Request → Session → Outcome Text × Session
flow ps r s = serve echo_provider Session view (new_handler echo_provider Session view ps) r s

abbrev forced : List (Param echo_provider Session view)
forced = with_force_tls echo_provider Session view true ∷ []

forced-KeepsStore : All (KeepsStore echo_provider Session view) forced
unfolding with_force_tls
forced-KeepsStore = (λ h. refl, _)

serve-new_handler_example :
    (((flow (with_store echo_provider Session view session_store ∷ forced) second new_session).0
        ≡ logged_in (codes "c"))
      ↔ ((second_form query_error ≡ [])
          × (second_form query_code ≢ [])
          × (session_store.verify_state second (second_form query_state) new_session ≡ inl true)
          × (Provider.exchange echo_provider (redirect_url second true) (second_form query_code)
              ≡ inl (codes "c"))))
    × (((flow forced second new_session).0 ≡ logged_in (codes "c")) ↔ (
        (second_form query_error ≡ [])
        × (second_form query_code ≢ [])
        × (second_form query_state ≡ insecure_state)
        × (Provider.exchange echo_provider (redirect_url second true) (second_form query_code)
            ≡ inl (codes "c"))))
serve-new_handler_example =
    serve-new_handler echo_provider Session view [] forced session_store second new_session
      (codes "c") forced-KeepsStore
