-- ===== src/Auth/Saml/Handlers.antt =====
-- baseapp/auth/saml/serviceprovider.go: DoAuth and the handler of ACSHandler.
pub mod Login
pub mod Panics
use go_baseapp.Prelude.{ℕ, ◌⊎◌, inl, inr, ◌||◌, Option, none, some, [], ◌∷◌, if◌then◌else◌}
use go_baseapp.Text.{Text, codes}
use go_baseapp.Auth.Oauth2.{Url}
use go_baseapp.Auth.{Reply, calls}
use go_baseapp.Auth.Saml.{
  Library, Request, SamlSettings, IdStore, ErrorCallback, LoginCallback, Failure, Message,
  create_request, store_request_id, generate_redirect, parse_form, retrieve_id, validate_assertion,
  ParseError, invalid_response, other_parse_error,
}
use go_baseapp.Auth.Saml.Params.{Provider}

-- How a handler ends: a redirect, one call of the error callback, or one of the login callback.
pub data Ending (Assertion : Type 0) : Type 0 where
  redirected : Text → Ending Assertion
  failed : Failure → Ending Assertion
  logged_in : Assertion → Ending Assertion

-- `newError(errors.Wrap(err, …), status)`
abbrev pub wrap : {Assertion : Type 0} → Message → ℕ → ℕ → Ending Assertion
wrap message status err = failed (record { message = message; cause = err; response_code = status })

-- The error of ParseResponse that is reported.
unfoldable pub private_error : ParseError → ℕ
private_error (invalid_response err) = err
private_error (other_parse_error err) = err

module _ (lib : Library) (World : Type 0) where
  -- `getSAMLSettingsForRequest`
  unfoldable pub settings_for_request : Provider lib World → Request → SamlSettings lib World
  settings_for_request sp r =
      let at = λ (path : Text).
        let u : Url = record {
          scheme = if sp.force_tls || r.is_tls then codes "https" else codes "http";
          host = r.host;
          path = path;
          query = [];
        } in
        u in
      record sp.settings {
        metadata_url = at sp.metadata_path;
        acs_url = at sp.acs_path;
        slo_url = at sp.logout_path;
      }

  redirect_ending : Text ⊎ ℕ → Ending lib.Assertion
  redirect_ending (inl target) = redirected target
  redirect_ending (inr err) = wrap generate_redirect 500 err

  -- `DoAuth` behind StoreID, whose error is given.
  stored_ending : SamlSettings lib World → lib.AuthnRequest → Option ℕ → Ending lib.Assertion
  unfolding redirect_ending
  stored_ending settings request (some err) = wrap store_request_id 500 err
  stored_ending settings request none = redirect_ending (lib.redirect request settings)

  -- `DoAuth` behind MakeAuthenticationRequest; without a store the call panics.
  store_request :
      Option (IdStore World)
      → Request
      → SamlSettings lib World
      → lib.AuthnRequest ⊎ ℕ
      → World
      → Option (Ending lib.Assertion × World)
  unfolding stored_ending
  store_request store r settings (inr err) w = some (wrap create_request 500 err, w)
  store_request none r settings (inl request) w = none
  store_request (some store) r settings (inl request) w =
      let (err, w') = store.store_id r (lib.request_id request) w in
      some (stored_ending settings request err, w')

  -- `DoAuth`
  unfoldable pub do_auth :
      Provider lib World → Request → World → Option (Ending lib.Assertion × World)
  unfolding store_request
  do_auth sp r w =
      let settings = settings_for_request sp r in
      store_request sp.id_store r settings (lib.make_authentication_request settings) w

  response_ending : lib.Assertion ⊎ ParseError → Ending lib.Assertion
  unfolding private_error
  response_ending (inl assertion) = logged_in assertion
  response_ending (inr err) = wrap validate_assertion 403 (private_error err)

  -- The handler behind GetID.
  id_ending : Provider lib World → Request → Text ⊎ ℕ → Ending lib.Assertion
  unfolding response_ending
  id_ending sp r (inr err) = wrap retrieve_id 403 err
  id_ending sp r (inl id) =
      response_ending (lib.parse_response (settings_for_request sp r) r (id ∷ []))

  -- The handler behind ParseForm; without a store the call panics.
  form_ending :
      Provider lib World
      → Option (IdStore World)
      → Request
      → Option ℕ
      → World
      → Option (Ending lib.Assertion)
  unfolding id_ending
  form_ending sp store r (some err) w = some (wrap parse_form 403 err)
  form_ending sp none r none w = none
  form_ending sp (some store) r none w = some (id_ending sp r (store.get_id r w))

  -- The handler of `ACSHandler`.
  unfoldable pub serve_acs : Provider lib World → Request → World → Option (Ending lib.Assertion)
  unfolding form_ending
  serve_acs sp r w = form_ending sp sp.id_store r r.form_error w

  call_error : Option ErrorCallback → Failure → Option Reply
  call_error none err = none
  call_error (some f) err = some (calls (f err))

  call_login : Option (LoginCallback lib.Assertion) → lib.Assertion → Option Reply
  call_login none a = none
  call_login (some f) a = some (calls (f a))

  -- What an ending sends; `none` is the panic of calling a nil callback.
  unfoldable pub respond : Provider lib World → Ending lib.Assertion → Option Reply
  unfolding call_error call_login
  respond sp (redirected target) = some (Reply.redirect target 302)
  respond sp (failed err) = call_error sp.on_error err
  respond sp (logged_in a) = call_login sp.on_login a
