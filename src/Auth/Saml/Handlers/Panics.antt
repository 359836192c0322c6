-- ===== src/Auth/Saml/Handlers/Panics.antt =====
-- Handlers of a provider whose callbacks and store are set do not panic.
use mathlib.Core.Path.{subst}
use go_baseapp.Prelude.{ℕ, ◌≡◌, sym, ◌≢◌, ◌⊎◌, inl, inr, Option, none, some}
use go_baseapp.Auth.Saml.{Library, Request, SamlSettings, IdStore, ErrorCallback, LoginCallback}
use go_baseapp.Auth.Saml.Params.{Provider}
use go_baseapp.Auth.Saml.Handlers.{
  Ending, redirected, failed, logged_in, respond, call_error, call_login, do_auth, serve_acs,
  store_request, form_ending, settings_for_request,
}

module _ (lib : Library) (World : Type 0) where
  abbrev pub NoPanic : Provider lib World → Type 0
  NoPanic sp =
      ((e : Ending lib.Assertion) → respond lib World sp e ≢ none)
      × ((r : Request) (w : World) → do_auth lib World sp r w ≢ none)
      × ((r : Request) (w : World) → serve_acs lib World sp r w ≢ none)

  store_request-ne-none :
      (store : IdStore World) (r : Request) (settings : SamlSettings lib World)
      (q : lib.AuthnRequest ⊎ ℕ) (w : World)
      → store_request lib World (some store) r settings q w ≢ none
  unfolding store_request
  store_request-ne-none store r settings (inr err) w h = cc
  store_request-ne-none store r settings (inl q) w h = cc

  form_ending-ne-none :
      (sp : Provider lib World) (store : IdStore World) (r : Request) (e : Option ℕ) (w : World)
      → form_ending lib World sp (some store) r e w ≢ none
  unfolding form_ending
  form_ending-ne-none sp store r (some err) w h = cc
  form_ending-ne-none sp store r none w h = cc

  respond-ne-none :
      (sp : Provider lib World) (f : ErrorCallback) (g : LoginCallback lib.Assertion)
      (e : Ending lib.Assertion)
      → sp.on_error ≡ some f
      → sp.on_login ≡ some g
      → respond lib World sp e ≢ none
  unfolding respond call_error call_login
  respond-ne-none sp f g (redirected target) p q = λ h. cc
  respond-ne-none sp f g (failed err) p q =
      subst (λ (o : Option ErrorCallback). call_error lib World o err ≢ none) (sym p) (λ h. cc)
  respond-ne-none sp f g (logged_in a) p q =
      subst (λ (o : Option (LoginCallback lib.Assertion)). call_login lib World o a ≢ none) (sym q)
        (λ h. cc)

  pub set_NoPanic :
      (sp : Provider lib World) (f : ErrorCallback) (g : LoginCallback lib.Assertion)
      (store : IdStore World)
      → sp.on_error ≡ some f
      → sp.on_login ≡ some g
      → sp.id_store ≡ some store
      → NoPanic sp
  unfolding do_auth serve_acs
  set_NoPanic sp f g store p q s = (
    λ e. respond-ne-none sp f g e p q,
    λ r w.
        subst
          (λ (o : Option (IdStore World)).
            store_request lib World o r (settings_for_request lib World sp r)
              (lib.make_authentication_request (settings_for_request lib World sp r)) w
            ≢ none)
          (sym s) (store_request-ne-none store r (settings_for_request lib World sp r) _ w),
    λ r w.
        subst (λ (o : Option (IdStore World)). form_ending lib World sp o r r.form_error w ≢ none)
          (sym s) (form_ending-ne-none sp store r r.form_error w),
  )
