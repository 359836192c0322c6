-- ===== src/Auth/Oauth2/Flow.antt =====
-- When the flow ends in a login.
use go_baseapp.Prelude.{◌⊎◌, ℕ, inl, inr, ℕ, ◌≡◌, ◌≢◌, ◌↔◌, ◌⊎◌, inl, inr, Bool, true, [], arith}
use go_baseapp.Text.{Text}
use go_baseapp.Text.Equality.{text_eq_iff}
use go_baseapp.Auth.Oauth2.{
  Request, Url, Provider, StateStore, logged_in, serve_http, redirect_url, query_code, query_error,
  query_state, verified, generated, exchanged,
}

module _ {World : Type 0} (provider : Provider) (store : StateStore World) where
  open provider use {Token, exchange}

  verified_logged_in :
      (u : Url) (r : Request) (v : Bool ⊎ ℕ) (tok : Token)
      → (verified provider store u r v ≡ logged_in tok)
        ↔ ((v ≡ inl true) × (exchange u (r.form_value query_code) ≡ inl tok))
  unfolding verified exchanged
  verified_logged_in u r v tok = ground arith

  generated-ne :
      (u : Url) (state : Text ⊎ ℕ) (tok : Token) → generated provider store u state ≢ logged_in tok
  unfolding generated
  generated-ne u (inl state) tok h = cc
  generated-ne u (inr err) tok h = cc

  -- The login callback is called with a token exactly if the provider sent no error, a code is
  -- given, the store has verified the state, and the exchange of that code gave the token.
  pub serve_http-logged_in :
      (force_tls : Bool) (r : Request) (w : World) (tok : Token)
      → ((serve_http provider store force_tls r w).0 ≡ logged_in tok) ↔ (
          (r.form_value query_error ≡ [])
          × (r.form_value query_code ≢ [])
          × (store.verify_state r (r.form_value query_state) w ≡ inl true)
          × (exchange (redirect_url r force_tls) (r.form_value query_code) ≡ inl tok))
  unfolding serve_http
  serve_http-logged_in force_tls r w tok = ground (
    arith,
    text_eq_iff (r.form_value query_error) [],
    text_eq_iff (r.form_value query_code) [],
    generated-ne (redirect_url r force_tls) (store.generate_state r w).0 tok,
    verified_logged_in (redirect_url r force_tls) r
        (store.verify_state r (r.form_value query_state) w) tok,
  )
