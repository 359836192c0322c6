-- ===== src/Auth/Saml/New.antt =====
-- baseapp/auth/saml/serviceprovider.go: NewServiceProvider.
pub mod Ready
use go_baseapp.Prelude.{
  ◌⊎◌, inl, inr, Bool, true, false, not, ◌||◌, Option, none, some, List, [], ◌∷◌, if◌then◌else◌,
}
use go_baseapp.Text.{text_eq}
use go_baseapp.Auth.Saml.{Library, IdStore}
use go_baseapp.Auth.Saml.Params.{
  Param, Provider, ParamError, missing_certificate_or_key, missing_metadata, missing_path,
  default_error_callback, default_login_callback,
}

abbrev is_some {ℓ} : {A : Type ℓ} → Option A → Bool
is_some none = false
is_some (some _) = true

abbrev or_default {ℓ} : {A : Type ℓ} → Option A → A → Option A
or_default none a = some a
or_default (some b) a = some b

-- `cookies` is the cookie store over what the stores of this model keep.
module _ (lib : Library) (World : Type 0) (cookies : IdStore World) where
  -- `&ServiceProvider{sp: &saml.ServiceProvider{}}`
  abbrev pub blank_provider : Provider lib World
  blank_provider = record {
    settings = lib.blank;
    acs_path = [];
    metadata_path = [];
    logout_path = [];
    force_tls = false;
    disable_encryption = false;
    on_error = none;
    on_login = none;
    id_store = none;
  }

  and_then :
      Provider lib World × Option ParamError
      → (Provider lib World → Provider lib World ⊎ ParamError)
      → Provider lib World ⊎ ParamError
  and_then (sp, none) next = next sp
  and_then (sp, some err) next = inr err

  -- The loop over the parameters.
  unfoldable pub apply_params :
      List (Param lib World) → Provider lib World → Provider lib World ⊎ ParamError
  unfolding and_then
  apply_params [] sp = inl sp
  apply_params (p ∷ ps) sp = and_then (p sp) (apply_params ps)

  -- The defaults of the callbacks and of the store.
  unfoldable pub with_defaults : Provider lib World → Provider lib World
  unfolding default_error_callback default_login_callback
  with_defaults sp = record sp {
    on_error = or_default sp.on_error (default_error_callback lib.status_text);
    on_login = or_default sp.on_login default_login_callback;
    id_store = or_default sp.id_store cookies;
  }

  -- The checks behind the loop.
  checked : Provider lib World ⊎ ParamError → Provider lib World ⊎ ParamError
  unfolding with_defaults
  checked (inr err) = inr err
  checked (inl sp) =
      if not (is_some sp.settings.certificate) || not (is_some sp.settings.private_key)
      then inr missing_certificate_or_key
      else if not (is_some sp.settings.idp_metadata)
      then inr missing_metadata
      else if text_eq sp.acs_path [] || text_eq sp.metadata_path []
      then inr missing_path
      else inl (with_defaults sp)

  -- `NewServiceProvider`
  unfoldable pub new_service_provider : List (Param lib World) → Provider lib World ⊎ ParamError
  unfolding checked
  new_service_provider ps = checked (apply_params ps blank_provider)
