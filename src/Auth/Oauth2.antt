-- ===== src/Auth/Oauth2.antt =====
-- baseapp/auth/oauth2: the three-legged flow on one endpoint, and its state stores.
pub mod Sessions
pub mod Flow
pub mod Options
use go_baseapp.Prelude.{
  ℕ, ◌⊎◌, inl, inr, Bool, true, false, not, ◌||◌, List, [], ◌∷◌, if◌then◌else◌,
}
use go_baseapp.Text.{Text, codes, text_eq}

-- A URL: what `redirectURL` reads and writes of it. The query holds its parameters in any order.
pub record Url : Type 0 where
  pub scheme : Text
  pub host : Text
  pub path : Text
  pub query : List (Text × Text)

-- A request; `form_value` is FormValue, empty for a missing value, and `is_tls` is `r.TLS != nil`.
pub record Request : Type 0 where
  pub url : Url
  pub host : Text
  pub is_tls : Bool
  pub form_value : Text → Text

abbrev pub query_code : Text
query_code = codes "code"

abbrev pub query_error : Text
query_error = codes "error"

abbrev pub query_state : Text
query_state = codes "state"

abbrev pub query_session_state : Text
query_session_state = codes "session_state"

-- url.Values.Del
del : Text → List (Text × Text) → List (Text × Text)
del k [] = []
del k ((j, v) ∷ q) = if text_eq j k then del k q else (j, v) ∷ del k q

-- `redirectURL`; its result is the text of this URL.
unfoldable pub redirect_url : Request → Bool → Url
unfolding del
redirect_url r force_tls = record {
  scheme = if force_tls || r.is_tls then codes "https" else codes "http";
  host = r.host;
  path = r.url.path;
  query = del query_session_state (del query_state (del query_code r.url.query));
}

-- The errors that reach the error callback: that of the provider, an invalid state, and those of
-- the store and of the exchange.
pub data LoginFailure : Type 0 where
  login_error : Text → LoginFailure
  invalid_state : LoginFailure
  store_error : ℕ → LoginFailure
  exchange_error : ℕ → LoginFailure

-- What one request leads to: a redirect to the provider, one call of the error callback, or one
-- call of the login callback.
pub data Outcome (Token : Type 0) : Type 0 where
  redirected : Text → Outcome Token
  failed : LoginFailure → Outcome Token
  logged_in : Token → Outcome Token

-- StateStore, over what it keeps; an error is known by its identity.
pub record StateStore (World : Type 0) : Type 0 where
  pub generate_state : Request → World → (Text ⊎ ℕ) × World
  pub verify_state : Request → Text → World → Bool ⊎ ℕ

-- What golang.org/x/oauth2 does with the configuration and the redirect URL.
pub record Provider : Type 1 where
  pub Token : Type 0
  pub auth_code_url : Url → Text → Text
  pub exchange : Url → Text → Token ⊎ ℕ

-- `isInitial`
unfoldable pub is_initial : Request → Bool
is_initial r = text_eq (r.form_value query_code) []

module _ {World : Type 0} (provider : Provider) (store : StateStore World) where
  open provider use {Token, auth_code_url, exchange}

  -- The end of the flow, by the result of the exchange.
  exchanged : Token ⊎ ℕ → Outcome Token
  exchanged (inl tok) = logged_in tok
  exchanged (inr err) = failed (exchange_error err)

  -- The second half of `ServeHTTP`, by the result of VerifyState.
  verified : Url → Request → Bool ⊎ ℕ → Outcome Token
  unfolding exchanged
  verified u r (inr err) = failed (store_error err)
  verified u r (inl false) = failed invalid_state
  verified u r (inl true) = exchanged (exchange u (r.form_value query_code))

  -- An initial request, by the result of GenerateState.
  generated : Url → Text ⊎ ℕ → Outcome Token
  generated u (inl state) = redirected (auth_code_url u state)
  generated u (inr err) = failed (store_error err)

  -- `ServeHTTP`
  unfoldable pub serve_http : Bool → Request → World → Outcome Token × World
  unfolding verified generated is_initial
  serve_http force_tls r w =
      let u = redirect_url r force_tls in
      if not (text_eq (r.form_value query_error) [])
      then (failed (login_error (r.form_value query_error)), w)
      else if is_initial r
      then (let (state, w') = store.generate_state r w in (generated u state, w'))
      else (verified u r (store.verify_state r (r.form_value query_state) w), w)

-- insecureStateStore
abbrev pub insecure_state : Text
insecure_state = codes "insecure-for-testing-only"

unfoldable pub insecure_store : {World : Type 0} → StateStore World
insecure_store = record {
  generate_state = λ r w. (inl insecure_state, w);
  verify_state = λ r state w. inl (text_eq insecure_state state);
}
