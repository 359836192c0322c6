-- ===== src/Auth/Saml/New/Ready.antt =====
-- What NewServiceProvider promises.
use mathlib.Core.Path.{subst}
use go_baseapp.Auth.Saml.Handlers.Panics.{NoPanic, set_NoPanic}
use go_baseapp.Prelude.{
  ◌≡◌, refl, ◌≢◌, ◌↔◌, ◌⊎◌, inl, inr, true, Option, none, some, List, [], arith,
}
use go_baseapp.Text.Equality.{text_eq_iff}
use go_baseapp.Auth.Saml.{Library, IdStore}
use go_baseapp.Auth.Saml.Params.{
  Provider, Param, ParamError, default_error_callback, default_login_callback,
}
use go_baseapp.Auth.Saml.New.{
  blank_provider, apply_params, with_defaults, checked, new_service_provider, is_some, or_default,
}

module _ (lib : Library) (World : Type 0) (cookies : IdStore World) where
  -- What the checks ask for.
  abbrev pub HasRequired : Provider lib World → Type 0
  HasRequired sp =
      (sp.settings.certificate ≢ none)
      × (sp.settings.private_key ≢ none)
      × (sp.settings.idp_metadata ≢ none)
      × (sp.acs_path ≢ [])
      × (sp.metadata_path ≢ [])

  is_some_iff : {A : Type 0} (o : Option A) → (is_some o ≡ true) ↔ (o ≢ none)
  is_some_iff none = (λ h. cc, λ h. absurd (h refl))
  is_some_iff (some a) = ((λ h e. cc), λ h. refl)

  -- NewServiceProvider returns a provider exactly if every parameter succeeds and what is required
  -- is set, and the provider is then the one that the parameters leave, with the defaults.
  checked_iff :
      (raw sp : Provider lib World)
      → (checked lib World cookies (inl raw) ≡ inl sp)
        ↔ (HasRequired raw × (sp ≡ with_defaults lib World cookies raw))
  unfolding checked
  checked_iff raw sp = ground (
    arith,
    is_some_iff raw.settings.certificate,
    is_some_iff raw.settings.private_key,
    is_some_iff raw.settings.idp_metadata,
    text_eq_iff raw.acs_path [],
    text_eq_iff raw.metadata_path [],
  )

  or_default-some : {A : Type 0} (o : Option A) (a : A) → (b : A) × (or_default o a ≡ some b)
  or_default-some none a = (a, refl)
  or_default-some (some b) a = (b, refl)

  with_defaults-NoPanic :
      (raw : Provider lib World) → NoPanic lib World (with_defaults lib World cookies raw)
  unfolding with_defaults
  with_defaults-NoPanic raw =
      let (f, p) = or_default-some raw.on_error (default_error_callback lib.status_text) in
      let (g, q) =
        or_default-some raw.on_login (default_login_callback {Assertion = lib.Assertion}) in
      let (store, s) = or_default-some raw.id_store cookies in
      set_NoPanic lib World (with_defaults lib World cookies raw) f g store p q s

  checked_loop_iff :
      (applied : Provider lib World ⊎ ParamError) (sp : Provider lib World)
      → (checked lib World cookies applied ≡ inl sp) ↔ (
          (raw : Provider lib World) × (applied ≡ inl raw)
          × HasRequired raw
          × (sp ≡ with_defaults lib World cookies raw))
  checked_loop_iff (inl raw) sp = (
    λ h. (raw, refl, ((checked_iff raw sp).0 h).0, ((checked_iff raw sp).0 h).1),
    λ (raw', e, h, d).
        let same : raw' ≡ raw = cc in
        (checked_iff raw sp).1 (
          subst
            (λ (x : Provider lib World). HasRequired x × (sp ≡ with_defaults lib World cookies x))
            same (h, d)),
  )
  checked_loop_iff (inr err) sp = (λ h. unfold checked in cc, λ h. let e = h.1 in cc)

  -- NewServiceProvider returns a provider exactly if every parameter succeeds and leaves a
  -- certificate, a key, the metadata of the identity provider and both paths; what it returns is
  -- what the parameters leave, with the defaults, and neither its login handlers nor its responses
  -- panic on a callback or a store that is nil.
  pub new_service_provider_iff :
      (ps : List (Param lib World)) (sp : Provider lib World)
      → ((new_service_provider lib World cookies ps ≡ inl sp) ↔ (
          (raw : Provider lib World) × (apply_params lib World cookies ps
              (blank_provider lib World cookies)
            ≡ inl raw)
          × HasRequired raw
          × (sp ≡ with_defaults lib World cookies raw)))
        × ((raw : Provider lib World) → NoPanic lib World (with_defaults lib World cookies raw))
  unfolding new_service_provider
  new_service_provider_iff ps sp = (checked_loop_iff _ sp, with_defaults-NoPanic)
