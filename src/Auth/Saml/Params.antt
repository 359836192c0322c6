-- ===== src/Auth/Saml/Params.antt =====
-- baseapp/auth/saml/params.go and NewServiceProvider of serviceprovider.go: how a provider is put
-- together from its parameters.
use go_baseapp.Prelude.{ℕ, ◌⊎◌, inl, inr, Bool, not, Option, none, some, List, [], ◌∷◌}
use go_baseapp.Text.{Text}
use go_baseapp.Auth.{http_error}
use go_baseapp.Baseapp.Errors.{write_header}
use go_baseapp.Auth.Saml.{
  Library, ServiceProvider, SamlSettings, PrivateKey, rsa_key, other_key, IdStore, ErrorCallback,
  LoginCallback,
}

-- The errors of the parameters and of NewServiceProvider, with the errors that they wrap.
-- `param_error` is that of a parameter which a caller has written.
pub data ParamError : Type 0 where
  read_certificate parse_certificate_failed read_key parse_key : ℕ → ParamError
  certificate_not_pem key_not_pem not_rsa no_entity : ParamError
  download_metadata parse_metadata param_error : ℕ → ParamError
  missing_certificate_or_key missing_metadata missing_path : ParamError

-- `DefaultErrorCallback`: http.Error with the status text.
unfoldable pub default_error_callback : (ℕ → Text) → ErrorCallback
default_error_callback status_text err =
    http_error (status_text err.response_code) err.response_code

-- `DefaultLoginCallback`
unfoldable pub default_login_callback : {Assertion : Type 0} → LoginCallback Assertion
default_login_callback a = write_header 200 ∷ []

module _ (lib : Library) (World : Type 0) where
  abbrev pub Provider : Type 0
  Provider = ServiceProvider lib World

  -- Param: the provider afterwards and the error, if any.
  abbrev pub Param : Type 0
  Param = Provider → Provider × Option ParamError

  abbrev set_settings : (SamlSettings lib World → SamlSettings lib World) → Provider → Provider
  set_settings f sp = record sp { settings = f sp.settings }

  -- `x509.ParseCertificate` and what follows it.
  with_parsed_certificate : lib.Certificate ⊎ ℕ → Param
  with_parsed_certificate (inl cert) sp =
      (set_settings (λ s. record s { certificate = some cert }) sp, none)
  with_parsed_certificate (inr err) sp =
      (set_settings (λ s. record s { certificate = none }) sp, some (parse_certificate_failed err))

  with_certificate_pem : Option Text → Param
  unfolding with_parsed_certificate
  with_certificate_pem none sp = (sp, some certificate_not_pem)
  with_certificate_pem (some der) sp = with_parsed_certificate (lib.parse_certificate der) sp

  unfoldable pub with_certificate_from_bytes : Text → Param
  unfolding with_certificate_pem
  with_certificate_from_bytes bytes sp = with_certificate_pem (lib.pem_decode bytes) sp

  with_certificate_read : Text ⊎ ℕ → Param
  unfolding with_certificate_from_bytes
  with_certificate_read (inl bytes) sp = with_certificate_from_bytes bytes sp
  with_certificate_read (inr err) sp = (sp, some (read_certificate err))

  unfoldable pub with_certificate_from_file : Text → Param
  unfolding with_certificate_read
  with_certificate_from_file path sp = with_certificate_read (lib.read_file path) sp

  with_parsed_key : PrivateKey lib.Key ⊎ ℕ → Param
  with_parsed_key (inr err) sp = (sp, some (parse_key err))
  with_parsed_key (inl other_key) sp =
      (set_settings (λ s. record s { private_key = none }) sp, some not_rsa)
  with_parsed_key (inl (rsa_key k)) sp =
      (set_settings (λ s. record s { private_key = some k }) sp, none)

  with_key_pem : Option Text → Param
  unfolding with_parsed_key
  with_key_pem none sp = (sp, some key_not_pem)
  with_key_pem (some der) sp = with_parsed_key (lib.parse_pkcs8_private_key der) sp

  unfoldable pub with_key_from_bytes : Text → Param
  unfolding with_key_pem
  with_key_from_bytes bytes sp = with_key_pem (lib.pem_decode bytes) sp

  with_key_read : Text ⊎ ℕ → Param
  unfolding with_key_from_bytes
  with_key_read (inl bytes) sp = with_key_from_bytes bytes sp
  with_key_read (inr err) sp = (sp, some (read_key err))

  unfoldable pub with_key_from_file : Text → Param
  unfolding with_key_read
  with_key_from_file path sp = with_key_read (lib.read_file path) sp

  abbrev set_entity : lib.Entity → Param
  set_entity e sp = (set_settings (λ s. record s { idp_metadata = some e }) sp, none)

  -- The second attempt of `WithEntityFromBytes`, with a list of entities.
  with_entities : List lib.Entity ⊎ ℕ → Param
  with_entities (inr err) sp = (sp, some (parse_metadata err))
  with_entities (inl []) sp = (sp, some no_entity)
  with_entities (inl (e ∷ _)) sp = set_entity e sp

  with_entity : lib.Entity ⊎ ℕ → Text → Param
  unfolding with_entities
  with_entity (inl e) bytes sp = set_entity e sp
  with_entity (inr _) bytes sp = with_entities (lib.unmarshal_entities bytes) sp

  unfoldable pub with_entity_from_bytes : Text → Param
  unfolding with_entity
  with_entity_from_bytes bytes sp = with_entity (lib.unmarshal_entity bytes) bytes sp

  -- The response of `http.Get`, and the result of reading its body.
  with_entity_read : (Text ⊎ ℕ) ⊎ ℕ → Param
  unfolding with_entity_from_bytes
  with_entity_read (inr err) sp = (sp, some (download_metadata err))
  with_entity_read (inl (inr err)) sp = (sp, some (download_metadata err))
  with_entity_read (inl (inl bytes)) sp = with_entity_from_bytes bytes sp

  unfoldable pub with_entity_from_url : Text → Param
  unfolding with_entity_read
  with_entity_from_url url sp = with_entity_read (lib.http_get url) sp

  unfoldable pub with_acs_path : Text → Param
  with_acs_path path sp = (record sp { acs_path = path }, none)

  unfoldable pub with_metadata_path : Text → Param
  with_metadata_path path sp = (record sp { metadata_path = path }, none)

  unfoldable pub with_logout_path : Text → Param
  with_logout_path path sp = (record sp { logout_path = path }, none)

  unfoldable pub with_force_tls : Bool → Param
  with_force_tls force sp = (record sp { force_tls = force }, none)

  unfoldable pub with_login_callback : Option (LoginCallback lib.Assertion) → Param
  with_login_callback lcb sp = (record sp { on_login = lcb }, none)

  unfoldable pub with_error_callback : Option ErrorCallback → Param
  with_error_callback ecb sp = (record sp { on_error = ecb }, none)

  unfoldable pub with_id_store : Option (IdStore World) → Param
  with_id_store store sp = (record sp { id_store = store }, none)

  -- The given settings are a value here: the provider does not share them with the caller, and they
  -- are no nil pointer, which NewServiceProvider would dereference.
  unfoldable pub with_service_provider : SamlSettings lib World → Param
  with_service_provider s sp = (record sp { settings = s }, none)

  unfoldable pub with_name_id_format : lib.Format → Param
  with_name_id_format n sp = (set_settings (λ s. record s { name_id_format = n }) sp, none)

  unfoldable pub with_encrypted_assertions : Bool → Param
  with_encrypted_assertions encrypt sp = (record sp { disable_encryption = not encrypt }, none)

  unfoldable pub with_force_authn : Bool → Param
  with_force_authn force sp = (set_settings (λ s. record s { force_authn = some force }) sp, none)

  unfoldable pub with_entity_id : Text → Param
  with_entity_id value sp = (set_settings (λ s. record s { entity_id = value }) sp, none)
