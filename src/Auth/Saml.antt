-- ===== src/Auth/Saml.antt =====
-- baseapp/auth/saml: the login through a SAML identity provider. This file holds the types of the
-- package and of the library github.com/crewjam/saml that it drives.
pub mod Params
pub mod Cookies
pub mod New
pub mod Handlers
pub mod Metadata
use go_baseapp.Prelude.{ℕ, ◌⊎◌, Bool, Option, List}
use go_baseapp.Text.{Text}
use go_baseapp.Auth.Oauth2.{Url}
use go_baseapp.Baseapp.Errors.{WriterCall}

-- A request, as far as the package reads it: the host, `r.TLS != nil`, the error of ParseForm, if
-- any, and the text of the posted form.
pub record Request : Type 0 where
  pub host : Text
  pub is_tls : Bool
  pub form_error : Option ℕ
  pub form : Text

-- A key descriptor of the metadata: its use, and the rest of it by its identity.
pub record KeyDescriptor : Type 0 where
  pub key_use : Text
  pub key : ℕ

-- What the handlers edit of the generated metadata: the logout services and the key descriptors of
-- the descriptor at index 0; the rest of it is known by its identity.
pub record Descriptor : Type 0 where
  pub single_logout_services : List Url
  pub key_descriptors : List KeyDescriptor
  pub descriptor_rest : ℕ

-- A private key that PKCS #8 can hold: an RSA key, or one of another kind.
pub data PrivateKey (Key : Type 0) : Type 0 where
  rsa_key : Key → PrivateKey Key
  other_key : PrivateKey Key

-- Where ParseResponse fails: with an InvalidResponseError, which holds a private error, or another.
pub data ParseError : Type 0 where
  invalid_response : ℕ → ParseError
  other_parse_error : ℕ → ParseError

-- The part of saml.ServiceProvider that the package reads and writes; `rest` is all else.
pub record Settings (Certificate Key Entity Format Rest : Type 0) : Type 0 where
  pub certificate : Option Certificate
  pub private_key : Option Key
  pub idp_metadata : Option Entity
  pub name_id_format : Format
  pub force_authn : Option Bool
  pub entity_id : Text
  pub metadata_url : Url
  pub acs_url : Url
  pub slo_url : Url
  pub rest : Rest

-- What the package calls of other code: files and the network; encoding/pem, crypto/x509 and
-- encoding/xml; and the operations of saml.ServiceProvider. An error is known by its identity.
pub record Library : Type 1 where
  pub Certificate : Type 0
  pub Key : Type 0
  pub Entity : Type 0
  pub Format : Type 0
  pub Rest : Type 0
  pub Assertion : Type 0
  pub AuthnRequest : Type 0
  pub read_file : Text → Text ⊎ ℕ
  pub http_get : Text → (Text ⊎ ℕ) ⊎ ℕ
  pub pem_decode : Text → Option Text
  pub parse_certificate : Text → Certificate ⊎ ℕ
  pub parse_pkcs8_private_key : Text → PrivateKey Key ⊎ ℕ
  pub unmarshal_entity : Text → Entity ⊎ ℕ
  pub unmarshal_entities : Text → List Entity ⊎ ℕ
  pub blank : Settings Certificate Key Entity Format Rest
  pub make_authentication_request : Settings Certificate Key Entity Format Rest → AuthnRequest ⊎ ℕ
  pub request_id : AuthnRequest → Text
  pub redirect : AuthnRequest → Settings Certificate Key Entity Format Rest → Text ⊎ ℕ
  pub parse_response :
      Settings Certificate Key Entity Format Rest → Request → List Text → Assertion ⊎ ParseError
  pub metadata : Settings Certificate Key Entity Format Rest → List Descriptor
  pub marshal : List Descriptor → Text ⊎ ℕ
  pub status_text : ℕ → Text

-- What failed, as the wrapped error says.
pub data Message : Type 0 where
  create_request store_request_id generate_redirect parse_form : Message
  retrieve_id validate_assertion generate_metadata : Message

-- Error: the message, the error that it wraps, and the suggested status.
pub record Failure : Type 0 where
  pub message : Message
  pub cause : ℕ
  pub response_code : ℕ

-- IDStore, over what it keeps.
pub record IdStore (World : Type 0) : Type 0 where
  pub store_id : Request → Text → World → Option ℕ × World
  pub get_id : Request → World → Text ⊎ ℕ

-- The callbacks, as the calls that they make on the response writer.
abbrev pub ErrorCallback : Type 0
ErrorCallback = Failure → List WriterCall

abbrev pub LoginCallback : Type 0 → Type 0
LoginCallback Assertion = Assertion → List WriterCall

module _ (lib : Library) (World : Type 0) where
  -- `sp.sp` of the provider.
  abbrev pub SamlSettings : Type 0
  SamlSettings = Settings lib.Certificate lib.Key lib.Entity lib.Format lib.Rest

  -- ServiceProvider. A callback or store that is `none` is nil.
  pub record ServiceProvider : Type 0 where
    pub settings : SamlSettings
    pub acs_path : Text
    pub metadata_path : Text
    pub logout_path : Text
    pub force_tls : Bool
    pub disable_encryption : Bool
    pub on_error : Option ErrorCallback
    pub on_login : Option (LoginCallback lib.Assertion)
    pub id_store : Option (IdStore World)
