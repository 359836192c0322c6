-- ===== src/Baseapp/Config.antt =====
-- baseapp/config.go: configuration from environment variables.
pub mod Environment
use go_baseapp.Prelude.{
  Bool, true, false, not, ◌||◌, Option, none, some, [], ◌++◌, if◌then◌else◌, ◌>>=◌,
}
use go_baseapp.Text.{Text, codes, text_eq}
use go_baseapp.Text.Numbers.{ℤ, pos, atoi, parse_bool}

pub record TlsConfig : Type 0 where
  pub cert_file : Text
  pub key_file : Text

-- A duration is its number of nanoseconds.
pub record HttpConfig : Type 0 where
  pub address : Text
  pub port : ℤ
  pub public_url : Text
  pub tls_config : Option TlsConfig
  pub shutdown_wait_time : Option ℤ

pub record LoggingConfig : Type 0 where
  pub level : Text
  pub pretty : Bool

-- os.LookupEnv
abbrev pub Env : Type 0
Env = Text → Option Text

-- `*value = v` on success: the new value, and whether it was set.
unfoldable set_to : {A : Type 0} → Option A → A → A × Bool
set_to none value = (value, false)
set_to (some v) value = (v, true)

-- The four helpers: the variable's value is parsed, and `value` is kept on a missing variable or a
-- parse error.
set_string_from_env : Env → Text → Text → Text → Text × Bool
unfolding set_to
set_string_from_env env key prefix value = set_to (env (prefix ++ key)) value

unfoldable set_int_from_env : Env → Text → Text → ℤ → ℤ × Bool
unfolding set_to
set_int_from_env env key prefix value = set_to (env (prefix ++ key) >>= atoi) value

set_bool_from_env : Env → Text → Text → Bool → Bool × Bool
unfolding set_to
set_bool_from_env env key prefix value = set_to (env (prefix ++ key) >>= parse_bool) value

set_duration_from_env : (Text → Option ℤ) → Env → Text → Text → ℤ → ℤ × Bool
unfolding set_to
set_duration_from_env parse_duration env key prefix value =
    set_to (env (prefix ++ key) >>= parse_duration) value

-- `var tls TLSConfig; if c.TLSConfig != nil { tls = *c.TLSConfig }`
tls_of : Option TlsConfig → TlsConfig
tls_of none = record { cert_file = []; key_file = [] }
tls_of (some tls) = tls

-- `HTTPConfig.SetValuesFromEnv`; `parse_duration` is time.ParseDuration, which reads fractions by
-- floating point arithmetic and is a parameter.
unfoldable pub set_values_from_env : (Text → Option ℤ) → Env → Text → HttpConfig → HttpConfig
unfolding set_string_from_env set_int_from_env set_duration_from_env tls_of
set_values_from_env parse_duration env prefix c =
    let (address, _) = set_string_from_env env (codes "ADDRESS") prefix c.address in
    let (port, _) = set_int_from_env env (codes "PORT") prefix c.port in
    let (public_url, _) = set_string_from_env env (codes "PUBLIC_URL") prefix c.public_url in
    let (d, is_set) =
      set_duration_from_env parse_duration env (codes "SHUTDOWN_WAIT_TIME") prefix (pos 0) in
    let wait = if is_set then some d else c.shutdown_wait_time in
    let tls = tls_of c.tls_config in
    let (cert_file, _) = set_string_from_env env (codes "TLS_CERT_FILE") prefix tls.cert_file in
    let (key_file, _) = set_string_from_env env (codes "TLS_KEY_FILE") prefix tls.key_file in
    let is_given = not (text_eq cert_file []) || not (text_eq key_file []) in
    record {
      address = address;
      port = port;
      public_url = public_url;
      tls_config =
          if is_given
          then some (record { cert_file = cert_file; key_file = key_file })
          else c.tls_config;
      shutdown_wait_time = wait;
    }

-- `LoggingConfig.SetValuesFromEnv`
unfoldable pub set_logging_from_env : Env → Text → LoggingConfig → LoggingConfig
unfolding set_string_from_env set_bool_from_env
set_logging_from_env env prefix c = record {
  level = (set_string_from_env env (codes "LOG_LEVEL") prefix c.level).0;
  pretty = (set_bool_from_env env (codes "LOG_PRETTY") prefix c.pretty).0;
}
