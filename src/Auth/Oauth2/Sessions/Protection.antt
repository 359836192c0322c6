-- ===== src/Auth/Oauth2/Sessions/Protection.antt =====
-- A login goes through only with the state that was generated for the session.
use go_baseapp.Prelude.{
  ℕ, ◌/◌, ◌%◌, ◌<◌, ◌≡◌, refl, ap, ◌∙◌, ◌≢◌, ◌↔◌, inl, Bool, true, Option, none, some, List, [],
  ◌∷◌, arith, All,
}
use go_baseapp.Text.{Text}
use go_baseapp.Text.Equality.{text_eq_iff}
use go_baseapp.Auth.Oauth2.{
  Request, Provider, logged_in, redirected, serve_http, redirect_url, query_code, query_error,
  query_state, generated,
}
use go_baseapp.Auth.Oauth2.Flow.{serve_http-logged_in}
use go_baseapp.Auth.Oauth2.Sessions.{
  Session, SessionValue, str, session_store, hex_encode, hex_digit, verify_value, other_type,
}

verify_value-true :
    (o : Option SessionValue) (expected : Text)
    → (verify_value o expected ≡ inl true) ↔ (o ≡ some (str expected))
unfolding verify_value
verify_value-true none expected = (λ h. cc, λ h. cc)
verify_value-true (some other_type) expected = (λ h. cc, λ h. cc)
verify_value-true (some (str state)) expected = ground (arith, text_eq_iff expected state)

verify_true :
    (r : Request) (expected : Text) (s : Session)
    → (session_store.verify_state r expected s ≡ inl true)
      ↔ ((s.get_error ≡ none) × (s.value ≡ some (str expected)))
unfolding session_store
verify_true r expected s = ground (arith, verify_value-true s.value expected)

hex_digit_inj : (a b : ℕ) → a < 16 → b < 16 → hex_digit a ≡ hex_digit b → a ≡ b
unfolding hex_digit
hex_digit_inj a b p q e = ground arith

-- Different random bytes make different states.
hex_encode_inj :
    (bs cs : List ℕ)
    → All (λ b. b < 256) bs
    → All (λ b. b < 256) cs
    → hex_encode bs ≡ hex_encode cs
    → bs ≡ cs
unfolding hex_encode
hex_encode_inj [] [] h k e = refl
hex_encode_inj [] (c ∷ cs) h k e = cc
hex_encode_inj (b ∷ bs) [] h k e = cc
hex_encode_inj (b ∷ bs) (c ∷ cs) (p, h) (q, k) e = ground (
  arith,
  hex_digit_inj (b / 16) (c / 16),
  hex_digit_inj (b % 16) (c % 16),
  hex_encode_inj bs cs h k,
)

module _ (provider : Provider) where
  open provider use {Token, auth_code_url, exchange}

  initial_session :
      (force_tls : Bool) (r : Request) (s : Session) (bytes : List ℕ)
      → s.save_error ≡ none
      → s.random ≡ inl bytes
      → r.form_value query_error ≡ []
      → r.form_value query_code ≡ []
      → ((serve_http provider session_store force_tls r s).0
          ≡ redirected (auth_code_url (redirect_url r force_tls) (hex_encode bytes)))
        × ((serve_http provider session_store force_tls r s).1
            ≡ record s { value = some (str (hex_encode bytes)) })
  unfolding serve_http session_store generated
  initial_session force_tls r s bytes saves bytes_read no_error no_code =
      ground
        (arith, text_eq_iff (r.form_value query_error) [], text_eq_iff (r.form_value query_code) [])

  -- With the session store, over a session that can be read and saved: an initial request is
  -- redirected to the provider with a state made of the random bytes, and the next request of the
  -- session logs in with a token exactly if it has a code, no error, a state that was made of the
  -- same bytes, and the exchange of the code gives the token.
  pub serve_http-session_store :
      (force_tls : Bool) (r r' : Request) (s : Session) (bytes : List ℕ) (tok : Token)
      → s.get_error ≡ none
      → s.save_error ≡ none
      → s.random ≡ inl bytes
      → r.form_value query_error ≡ []
      → r.form_value query_code ≡ []
      → ((serve_http provider session_store force_tls r s).0
          ≡ redirected (auth_code_url (redirect_url r force_tls) (hex_encode bytes)))
        × (((serve_http provider session_store force_tls r'
                (serve_http provider session_store force_tls r s).1).0
              ≡ logged_in tok)
            ↔ ((r'.form_value query_error ≡ [])
                × (r'.form_value query_code ≢ [])
                × (r'.form_value query_state ≡ hex_encode bytes)
                × (exchange (redirect_url r' force_tls) (r'.form_value query_code) ≡ inl tok)))
  serve_http-session_store force_tls r r' s bytes tok readable saves bytes_read no_error no_code =
      let (sent, kept) = initial_session force_tls r s bytes saves bytes_read no_error no_code in
      let s' : Session = (serve_http provider session_store force_tls r s).1 in
      let login = serve_http-logged_in provider session_store force_tls r' s' tok in
      let valid = verify_true r' (r'.form_value query_state) s' in
      let readable' : s'.get_error ≡ none = ap (λ (x : Session). x.get_error) kept ∙ readable in
      let stored : s'.value ≡ some (str (hex_encode bytes)) = ap (λ (x : Session). x.value) kept in
      (
        sent,
        (
          λ h.
              let q = login.0 h in
              let held = (valid.0 q.2).1 in
              let same : r'.form_value query_state ≡ hex_encode bytes = cc (held, stored) in
              (q.0, q.1, same, q.3),
          λ q.
              let held : s'.value ≡ some (str (r'.form_value query_state)) = cc (stored, q.2) in
              login.1 (q.0, q.1, valid.1 (readable', held), q.3),
        ),
      )
