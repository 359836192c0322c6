-- ===== src/Auth/Saml/Handlers/Login.antt =====
-- When the flow ends in a login.
use mathlib.Core.Path.{subst}
use go_baseapp.Text.Dict.{lookup}
use go_baseapp.Prelude.{
  ℕ, ◌≡◌, refl, sym, ap, ◌↔◌, ◌⊎◌, inl, Option, none, some, [], ◌∷◌, arith, some_inj,
}
use go_baseapp.Text.{Text}
use go_baseapp.Auth.Saml.{Library, Request, IdStore, ParseError}
use go_baseapp.Auth.Saml.Params.{Provider}
use go_baseapp.Auth.Saml.Cookies.{Jar, cookie_id_store, IsCookieText, get_id-store_id}
use go_baseapp.Auth.Saml.Handlers.{
  redirected, logged_in, settings_for_request, do_auth, serve_acs, form_ending, id_ending,
  response_ending, stored_ending, store_request, redirect_ending,
}

module _ (lib : Library) where
  response_logged_in :
      (p : lib.Assertion ⊎ ParseError) (a : lib.Assertion)
      → (response_ending lib Jar p ≡ logged_in a) ↔ (p ≡ inl a)
  unfolding response_ending
  response_logged_in p a = ground arith

  -- With a store, a login needs a form that can be parsed, and a valid assertion for the id.
  form_logged_in :
      (sp : Provider lib Jar) (r : Request) (e : Option ℕ) (jar : Jar) (id : Text)
      (a : lib.Assertion)
      → cookie_id_store.get_id r jar ≡ inl id
      → (form_ending lib Jar sp (some cookie_id_store) r e jar ≡ some (logged_in a)) ↔ (
          (e ≡ none) × (lib.parse_response (settings_for_request lib Jar sp r) r (id ∷ []) ≡ inl a))
  unfolding form_ending id_ending
  form_logged_in sp r (some err) jar id a g = (λ h. cc, λ h. let q = h.0 in cc)
  form_logged_in sp r none jar id a g =
      let p = lib.parse_response (settings_for_request lib Jar sp r) r (id ∷ []) in
      rw g (
        (λ h. (refl, (response_logged_in p a).0 (some_inj h))),
        (λ h. ap some ((response_logged_in p a).1 h.1)),
      )

  -- With the cookie store, a login needs a form that can be parsed, and an assertion that is valid
  -- for the id in the cookie.
  acs_logged_in :
      (sp : Provider lib Jar) (r : Request) (jar : Jar) (id : Text) (a : lib.Assertion)
      → sp.id_store ≡ some cookie_id_store
      → cookie_id_store.get_id r jar ≡ inl id
      → (serve_acs lib Jar sp r jar ≡ some (logged_in a)) ↔ (
          (r.form_error ≡ none)
          × (lib.parse_response (settings_for_request lib Jar sp r) r (id ∷ []) ≡ inl a))
  unfolding serve_acs
  acs_logged_in sp r jar id a s g =
      subst
        (λ (o : Option (IdStore Jar)).
          (form_ending lib Jar sp o r r.form_error jar ≡ some (logged_in a)) ↔ (
            (r.form_error ≡ none)
            × (lib.parse_response (settings_for_request lib Jar sp r) r (id ∷ []) ≡ inl a)))
        (sym s) (form_logged_in sp r r.form_error jar id a g)

  -- With the cookie store, a browser that was redirected to the identity provider, with a request
  -- whose id a cookie can hold, is logged in with an assertion exactly if the form that it posts can
  -- be parsed and the assertion is valid for that id alone; a browser that sends no cookies, exactly
  -- if the assertion is valid for the empty id.
  pub do_auth-serve_acs :
      (sp : Provider lib Jar) (r r' : Request) (jar : Jar) (q : lib.AuthnRequest) (target : Text)
      (a : lib.Assertion)
      → sp.id_store ≡ some cookie_id_store
      → lib.make_authentication_request (settings_for_request lib Jar sp r) ≡ inl q
      → lib.redirect q (settings_for_request lib Jar sp r) ≡ inl target
      → IsCookieText (lib.request_id q)
      → (jar' : Jar) × (do_auth lib Jar sp r jar ≡ some (redirected target, jar'))
        × ((serve_acs lib Jar sp r' jar' ≡ some (logged_in a)) ↔ (
            (r'.form_error ≡ none)
            × (lib.parse_response (settings_for_request lib Jar sp r') r' (lib.request_id q ∷ [])
                ≡ inl a)))
        × ((serve_acs lib Jar sp r' [] ≡ some (logged_in a)) ↔ (
            (r'.form_error ≡ none)
            × (lib.parse_response (settings_for_request lib Jar sp r') r' ([] ∷ []) ≡ inl a)))
  unfolding do_auth store_request stored_ending redirect_ending cookie_id_store
  do_auth-serve_acs sp r r' jar q target a s made to fits = (
    (cookie_id_store.store_id r (lib.request_id q) jar).1,
    simp (s, made, to),
    acs_logged_in sp r' _ (lib.request_id q) a s (get_id-store_id r r' (lib.request_id q) jar fits),
    acs_logged_in sp r' [] [] a s (unfold cookie_id_store in unfold lookup in refl),
  )
