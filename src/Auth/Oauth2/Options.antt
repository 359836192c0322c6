-- ===== src/Auth/Oauth2/Options.antt =====
-- baseapp/auth/oauth2/handler.go: NewHandler, its parameters, and the callbacks.
use mathlib.Core.Path.{subst}
use go_baseapp.Prelude.{
  ℕ, ◌≡◌, refl, ◌∙◌, ◌≢◌, ◌↔◌, inl, Bool, true, false, List, [], ◌∷◌, ◌++◌, arith, All,
}
use go_baseapp.Text.{Text, codes}
use go_baseapp.Text.Equality.{text_eq_iff}
use go_baseapp.Auth.{http_error, Reply, redirect, calls}
use go_baseapp.Baseapp.Errors.{WriterCall, write_header}
use go_baseapp.Auth.Oauth2.{
  Request, Provider, StateStore, LoginFailure, login_error, invalid_state, store_error,
  exchange_error, Outcome, redirected, failed, logged_in, serve_http, insecure_store,
  insecure_state, redirect_url, query_code, query_error, query_state,
}
use go_baseapp.Auth.Oauth2.Flow.{serve_http-logged_in}

-- What DefaultErrorCallback sees of an error: it is ErrInvalidState, a LoginError, or any other one,
-- with its text.
pub data ErrorView : Type 0 where
  is_invalid_state : ErrorView
  is_login_error : Text → ErrorView
  is_other : Text → ErrorView

-- An error of a store or of the exchange may be any of them, as `view` tells.
view_of : (ℕ → ErrorView) → LoginFailure → ErrorView
view_of view invalid_state = is_invalid_state
view_of view (login_error s) = is_login_error s
view_of view (store_error err) = view err
view_of view (exchange_error err) = view err

callback_of : ErrorView → List WriterCall
callback_of is_invalid_state = http_error (codes "invalid state parameter") 400
callback_of (is_login_error s) = http_error (codes "oauth2 error: " ++ s) 400
callback_of (is_other s) = http_error s 500

-- `DefaultErrorCallback`
unfoldable pub default_error_callback : (ℕ → ErrorView) → LoginFailure → List WriterCall
unfolding view_of callback_of
default_error_callback view err = callback_of (view_of view err)

-- `DefaultLoginCallback`
unfoldable pub default_login_callback : {Token : Type 0} → Token → List WriterCall
default_login_callback login = write_header 200 ∷ []

module _ (provider : Provider) (World : Type 0) (view : ℕ → ErrorView) where
  open provider use {Token, exchange}

  -- handler, without the configuration, which is the provider. A callback is the calls that it makes
  -- on the response writer.
  pub record Handler : Type 0 where
    pub on_error : LoginFailure → List WriterCall
    pub on_login : Token → List WriterCall
    pub force_tls : Bool
    pub store : StateStore World

  abbrev pub Param : Type 0
  Param = Handler → Handler

  unfoldable pub with_force_tls : Bool → Param
  with_force_tls force h = record h { force_tls = force }

  unfoldable pub with_store : StateStore World → Param
  with_store ss h = record h { store = ss }

  unfoldable pub with_on_error : (LoginFailure → List WriterCall) → Param
  with_on_error c h = record h { on_error = c }

  unfoldable pub with_on_login : (Token → List WriterCall) → Param
  with_on_login c h = record h { on_login = c }

  apply_params : List Param → Handler → Handler
  apply_params [] h = h
  apply_params (p ∷ ps) h = apply_params ps (p h)

  abbrev default_handler : Handler
  default_handler = record {
    on_error = default_error_callback view;
    on_login = default_login_callback;
    force_tls = false;
    store = insecure_store;
  }

  -- `NewHandler`
  unfoldable pub new_handler : List Param → Handler
  unfolding apply_params
  new_handler ps = apply_params ps default_handler

  -- `ServeHTTP` of a handler.
  abbrev pub serve : Handler → Request → World → Outcome Token × World
  serve h r w = serve_http provider h.store h.force_tls r w

  -- What an outcome sends.
  unfoldable pub respond : Handler → Outcome Token → Reply
  respond h (redirected url) = redirect url 302
  respond h (failed err) = calls (h.on_error err)
  respond h (logged_in tok) = calls (h.on_login tok)

  -- A parameter that is no WithStore.
  abbrev pub KeepsStore : Param → Type 0
  KeepsStore p = (h : Handler) → (p h).store ≡ h.store

  apply_params-KeepsStore :
      (ps : List Param) (h : Handler) → All KeepsStore ps → (apply_params ps h).store ≡ h.store
  unfolding apply_params
  apply_params-KeepsStore [] h k = refl
  apply_params-KeepsStore (p ∷ ps) h (q, k) = apply_params-KeepsStore ps (p h) k ∙ q h

  apply_params-append :
      (ps qs : List Param) (h : Handler)
      → apply_params (ps ++ qs) h ≡ apply_params qs (apply_params ps h)
  unfolding apply_params
  apply_params-append [] qs h = refl
  apply_params-append (p ∷ ps) qs h = apply_params-append ps qs (p h)

  new_handler-with_store :
      (before after : List Param) (ss : StateStore World)
      → All KeepsStore after
      → (new_handler (before ++ with_store ss ∷ after)).store ≡ ss
  unfolding new_handler apply_params with_store
  new_handler-with_store before after ss k =
      rw (apply_params-append before (with_store ss ∷ after) default_handler)
        (apply_params-KeepsStore after _ k)

  by_store :
      (h : Handler) (r : Request) (w : World) (tok : Token) (ss : StateStore World)
      → h.store ≡ ss
      → ((serve h r w).0 ≡ logged_in tok) ↔ (
          (r.form_value query_error ≡ [])
          × (r.form_value query_code ≢ [])
          × (ss.verify_state r (r.form_value query_state) w ≡ inl true)
          × (exchange (redirect_url r h.force_tls) (r.form_value query_code) ≡ inl tok))
  by_store h r w tok ss e =
      subst
        (λ (x : StateStore World). ((serve h r w).0 ≡ logged_in tok) ↔ (
          (r.form_value query_error ≡ [])
          × (r.form_value query_code ≢ [])
          × (x.verify_state r (r.form_value query_state) w ≡ inl true)
          × (exchange (redirect_url r h.force_tls) (r.form_value query_code) ≡ inl tok)))
        e (serve_http-logged_in provider h.store h.force_tls r w tok)

  insecure_iff :
      (r : Request) (state : Text) (w : World)
      → (StateStore.verify_state (insecure_store {World = World}) r state w ≡ inl true)
        ↔ (state ≡ insecure_state)
  unfolding insecure_store
  insecure_iff r state w = ground (arith, text_eq_iff insecure_state state)

  -- The flow of a handler ends in a login by the store of the last WithStore among its parameters:
  -- the provider sent no error, a code is given, that store has verified the state, and the exchange
  -- of the code gave the token. Without a WithStore the state needs to be the fixed text that every
  -- such handler uses.
  pub serve-new_handler :
      (before after : List Param) (ss : StateStore World) (r : Request) (w : World) (tok : Token)
      → All KeepsStore after
      → ((serve (new_handler (before ++ with_store ss ∷ after)) r w).0 ≡ logged_in tok ↔ (
          (r.form_value query_error ≡ [])
          × (r.form_value query_code ≢ [])
          × (ss.verify_state r (r.form_value query_state) w ≡ inl true)
          × (exchange
                (redirect_url r (new_handler (before ++ with_store ss ∷ after)).force_tls)
                (r.form_value query_code)
              ≡ inl tok)))
        × ((serve (new_handler after) r w).0 ≡ logged_in tok ↔ (
            (r.form_value query_error ≡ [])
            × (r.form_value query_code ≢ [])
            × (r.form_value query_state ≡ insecure_state)
            × (exchange (redirect_url r (new_handler after).force_tls) (r.form_value query_code)
                ≡ inl tok)))
  unfolding new_handler apply_params
  serve-new_handler before after ss r w tok k =
      let h = new_handler (before ++ with_store ss ∷ after) in
      let h' = new_handler after in
      let kept : h.store ≡ ss = new_handler-with_store before after ss k in
      let insecure : h'.store ≡ insecure_store = apply_params-KeepsStore after default_handler k in
      (
        by_store h r w tok ss kept,
        (
          λ l.
              let (e, c, v, x) = (by_store h' r w tok insecure_store insecure).0 l in
              (e, c, (insecure_iff r (r.form_value query_state) w).0 v, x),
          λ (e, c, v, x).
              (by_store h' r w tok insecure_store insecure).1
                (e, c, (insecure_iff r (r.form_value query_state) w).1 v, x),
        ),
      )
