-- ===== src/Tests/Saml.antt =====
-- The SAML login and the metadata.
use go_baseapp.Prelude.{
  ℕ, ◌≤◌, ◌≡◌, refl, ◌↔◌, ◌⊎◌, inl, inr, true, false, none, some, List, [], ◌∷◌, arith,
  if◌then◌else◌,
}
use go_baseapp.Text.{Text, codes, text_eq}
use go_baseapp.Auth.Oauth2.{Url}
use go_baseapp.Auth.Saml.{
  Library, Request, KeyDescriptor, Descriptor, rsa_key, ParseError, other_parse_error,
}
use go_baseapp.Auth.Saml.Params.{
  Provider, Param, with_certificate_from_bytes, with_key_from_file, with_entity_from_url,
  with_acs_path, with_metadata_path, with_encrypted_assertions, with_key_from_bytes,
  with_entity_from_bytes,
}
use go_baseapp.Auth.Saml.Cookies.{Jar, cookie_id_store, IsCookieText, is_cookie_byte}
use go_baseapp.Auth.Saml.New.{new_service_provider, apply_params, blank_provider, with_defaults}
use go_baseapp.Auth.Saml.New.Ready.{new_service_provider_iff, HasRequired}
use go_baseapp.Auth.Saml.Handlers.{do_auth, serve_acs, redirected, logged_in}
use go_baseapp.Auth.Saml.Handlers.Login.{do_auth-serve_acs}
use go_baseapp.Auth.Saml.Handlers.Panics.{NoPanic}
use go_baseapp.Auth.Saml.Metadata.{edit_metadata, is_encryption, remove_encryption}
use go_baseapp.Auth.Saml.Metadata.Editing.{edit_metadata-plain_keys, plain_keys, encryption_count}

abbrev no_url : Url
no_url = record { scheme = []; host = []; path = []; query = [] }

abbrev signing : KeyDescriptor
signing = record { key_use = codes "signing"; key = 1 }

abbrev encrypting : ℕ → KeyDescriptor
encrypting n = record { key_use = codes "encryption"; key = n }

abbrev two_keys : Descriptor
two_keys = record {
  single_logout_services = no_url ∷ [];
  key_descriptors = signing ∷ encrypting 1 ∷ encrypting 2 ∷ [];
  descriptor_rest = 0;
}

abbrev one_key : Descriptor
one_key = record two_keys { key_descriptors = encrypting 1 ∷ signing ∷ [] }

-- A response is valid for the ids that its text is equal to.
valid_for : Text → List Text → Text ⊎ ParseError
valid_for form [] = inr (other_parse_error 4)
valid_for form (id ∷ ids) = if text_eq form id then inl form else inr (other_parse_error 4)

abbrev toy : Library
toy = record {
  Certificate = Text;
  Key = Text;
  Entity = Text;
  Format = ℕ;
  Rest = ℕ;
  Assertion = Text;
  AuthnRequest = Text;
  read_file = λ path. inl path;
  http_get = λ url. inl (inl url);
  pem_decode = λ bytes. some bytes;
  parse_certificate = λ der. inl der;
  parse_pkcs8_private_key = λ der. inl (rsa_key der);
  unmarshal_entity = λ bytes. inl bytes;
  unmarshal_entities = λ bytes. inr 3;
  blank = record {
    certificate = none;
    private_key = none;
    idp_metadata = none;
    name_id_format = 0;
    force_authn = none;
    entity_id = [];
    metadata_url = no_url;
    acs_url = no_url;
    slo_url = no_url;
    rest = 0;
  };
  make_authentication_request = λ s. inl (codes "id-7f");
  request_id = λ q. q;
  redirect = λ q s. inl (codes "https://idp");
  parse_response = λ s r ids. valid_for r.form ids;
  metadata = λ s. two_keys ∷ [];
  marshal = λ ds. inl (codes "<xml/>");
  status_text = λ code. codes "text";
}

abbrev params : List (Param toy Jar)
params =
    with_certificate_from_bytes toy Jar (codes "cert")
    ∷ with_key_from_file toy Jar (codes "key.pem")
    ∷ with_entity_from_url toy Jar (codes "https://idp/metadata")
    ∷ with_acs_path toy Jar (codes "/acs")
    ∷ with_metadata_path toy Jar (codes "/metadata")
    ∷ with_encrypted_assertions toy Jar false
    ∷ []

abbrev configured : Provider toy Jar
configured =
    record (with_defaults toy Jar cookie_id_store (blank_provider toy Jar cookie_id_store)) {
      settings = record toy.blank {
        certificate = some (codes "cert");
        private_key = some (codes "key.pem");
        idp_metadata = some (codes "https://idp/metadata");
      };
      acs_path = codes "/acs";
      metadata_path = codes "/metadata";
      disable_encryption = true;
    }

new_service_provider_test : new_service_provider toy Jar cookie_id_store params ≡ inl configured
unfolding new_service_provider apply_params with_certificate_from_bytes with_key_from_file
    with_entity_from_url with_acs_path with_metadata_path with_encrypted_assertions
    with_key_from_bytes with_entity_from_bytes text_eq
new_service_provider_test = refl

new_service_provider_iff_example :
    ((new_service_provider toy Jar cookie_id_store params ≡ inl configured) ↔ (
      (raw : Provider toy Jar) × (apply_params toy Jar cookie_id_store params
          (blank_provider toy Jar cookie_id_store)
        ≡ inl raw)
      × HasRequired toy Jar cookie_id_store raw
      × (configured ≡ with_defaults toy Jar cookie_id_store raw)))
    × ((raw : Provider toy Jar) → NoPanic toy Jar (with_defaults toy Jar cookie_id_store raw))
new_service_provider_iff_example =
    new_service_provider_iff toy Jar cookie_id_store params configured

abbrev ask : Request
ask = record { host = codes "h"; is_tls = false; form_error = none; form = [] }

abbrev answer : Request
answer = record ask { form = codes "id-7f" }

cookie_text : IsCookieText (codes "id-7f")
unfolding is_cookie_byte
cookie_text = (refl, (refl, (refl, (refl, (refl, _)))))

do_auth-serve_acs_example :
    (jar' : Jar) × (do_auth toy Jar configured ask []
      ≡ some (redirected (codes "https://idp"), jar'))
    × ((serve_acs toy Jar configured answer jar' ≡ some (logged_in (codes "id-7f"))) ↔ (
        (answer.form_error ≡ none)
        × (valid_for (codes "id-7f") (codes "id-7f" ∷ []) ≡ inl (codes "id-7f"))))
    × ((serve_acs toy Jar configured answer [] ≡ some (logged_in (codes "id-7f"))) ↔ (
        (answer.form_error ≡ none) × (valid_for (codes "id-7f") ([] ∷ []) ≡ inl (codes "id-7f"))))
unfolding with_defaults
do_auth-serve_acs_example =
    do_auth-serve_acs toy configured ask answer [] (codes "id-7f") (codes "https://idp")
      (codes "id-7f") refl refl refl cookie_text

one_counted : encryption_count one_key.key_descriptors ≤ 1
unfolding encryption_count is_encryption text_eq
one_counted = omega arith

edit_metadata-plain_keys_example :
    edit_metadata (codes "") true (one_key ∷ [])
    ≡ some (
        (record {
          single_logout_services =
              if text_eq (codes "") [] then [] else one_key.single_logout_services;
          key_descriptors = if true then plain_keys one_key.key_descriptors else [];
          descriptor_rest = 0;
        })
        ∷ [])
edit_metadata-plain_keys_example = edit_metadata-plain_keys (codes "") true one_key [] one_counted

-- Of two neighbouring keys for encryption the second one stays, where another key stands behind.
neighbours_test :
    remove_encryption (encrypting 1 ∷ encrypting 2 ∷ signing ∷ [])
    ≡ some (encrypting 2 ∷ signing ∷ [])
unfolding remove_encryption text_eq
neighbours_test = refl

-- With two keys for encryption at the end, the loop cuts the second one out of a slice that has become
-- shorter.
last_keys_test : remove_encryption (signing ∷ encrypting 1 ∷ encrypting 2 ∷ []) ≡ none
unfolding remove_encryption text_eq
last_keys_test = refl
