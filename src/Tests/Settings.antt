-- ===== src/Tests/Settings.antt =====
-- Configuration and error formatting.
use go_baseapp.Prelude.{
  ℕ, ◌≡◌, refl, ◌⊎◌, inl, inr, true, false, Option, none, some, [], ◌∷◌, ◌++◌, reverse, arith,
  if◌then◌else◌, ◌≢◌,
}
use go_baseapp.Text.{Text, codes, text_eq}
use go_baseapp.Text.Numbers.{ℤ, pos, itoa, IsInt64, atoi}
use go_baseapp.Baseapp.Config.{Env, HttpConfig, TlsConfig, set_values_from_env}
use go_baseapp.Baseapp.Config.Environment.{set_values_from_env-IsInt64, set_values_from_env_written}
use go_baseapp.Baseapp.Logging.{new_logger, console, standard_out}
use go_baseapp.Errfmt.{Err, plain, caused_by, no_trace, pkg_errors, print, message, fmt_stack}
use go_baseapp.Errfmt.Chain.{traces, first_trace, print-traces}

abbrev no_duration : Text → Option ℤ
no_duration s = none

abbrev old : HttpConfig
old = record {
  address = codes "127.0.0.1";
  port = pos 8080;
  public_url = codes "http://old";
  tls_config = none;
  shutdown_wait_time = some (pos 5);
}

abbrev tls : TlsConfig
tls = record { cert_file = codes "c"; key_file = codes "k" }

abbrev new : HttpConfig
new = record {
  address = codes "0.0.0.0";
  port = pos 443;
  public_url = codes "https://new";
  tls_config = some tls;
  shutdown_wait_time = none;
}

written : Env
written k =
    if text_eq k (codes "T_ADDRESS")
    then some new.address
    else if text_eq k (codes "T_PORT")
    then some (itoa new.port)
    else if text_eq k (codes "T_PUBLIC_URL")
    then some new.public_url
    else if text_eq k (codes "T_TLS_CERT_FILE")
    then some tls.cert_file
    else if text_eq k (codes "T_TLS_KEY_FILE")
    then some tls.key_file
    else none

written_values :
    (written (codes "T_ADDRESS") ≡ some new.address)
    × (written (codes "T_PORT") ≡ some (itoa new.port))
    × (written (codes "T_PUBLIC_URL") ≡ some new.public_url)
    × (written (codes "T_SHUTDOWN_WAIT_TIME") ≡ none)
    × (written (codes "T_TLS_CERT_FILE") ≡ some tls.cert_file)
    × (written (codes "T_TLS_KEY_FILE") ≡ some tls.key_file)
unfolding written text_eq
written_values = (refl, refl, refl, refl, refl, refl)

set_values_from_env_written_example :
    (tls_config : Option TlsConfig) × (set_values_from_env no_duration written (codes "T_") old
      ≡ record {
        address = new.address;
        port = new.port;
        public_url = new.public_url;
        tls_config = tls_config;
        shutdown_wait_time = some (pos 5);
      })
    × ((((tls.cert_file ≢ []) ⊎ (tls.key_file ≢ [])) × (tls_config ≡ some tls))
        ⊎ ((tls.cert_file ≡ []) × (tls.key_file ≡ []) × (tls_config ≡ old.tls_config)))
set_values_from_env_written_example =
    set_values_from_env_written no_duration written (codes "T_") old new.address new.public_url
      new.port tls written_values.0 written_values.1 (omega arith) written_values.2 written_values.3
      written_values.4 written_values.5

set_values_from_env-IsInt64_example :
    IsInt64 (set_values_from_env no_duration written (codes "T_") old).port
    × ((z : ℤ)
        → written (codes "T_PORT") ≡ some (itoa z)
        → (IsInt64 z × ((set_values_from_env no_duration written (codes "T_") old).port ≡ z))
          ⊎ ((¬ IsInt64 z)
              × ((set_values_from_env no_duration written (codes "T_") old).port ≡ old.port)))
set_values_from_env-IsInt64_example =
    set_values_from_env-IsInt64 no_duration written (codes "T_") old (omega arith)

-- A port that int64 cannot hold is not taken.
too_large : Env
too_large k = if text_eq k (codes "T_PORT") then some (codes "9223372036854775808") else none

too_large_test : (set_values_from_env no_duration too_large (codes "T_") old).port ≡ pos 8080
unfolding set_values_from_env too_large text_eq atoi
too_large_test = refl

abbrev deep : Err
deep =
    caused_by (codes "outer: inner") (pkg_errors (codes "\nouter"))
      (caused_by (codes "inner") (pkg_errors (codes "\ninner")) (plain (codes "root") no_trace))

print_test : print (some deep) ≡ codes "outer: inner\ninner"
unfolding print fmt_stack
print_test = refl

print-traces_example :
    print (some deep) ≡ message deep ++ fmt_stack (first_trace (reverse (traces deep)))
print-traces_example = print-traces deep

abbrev parse_debug : Text → ℕ ⊎ ℕ
parse_debug s = if text_eq s (codes "debug") then inl 0 else inr 1

logger_test :
    new_logger ℕ parse_debug (λ s. s) (record { level = codes "debug"; pretty = true })
    ≡ (record { output = console; timestamp = true; level = some 0 }, [])
unfolding new_logger text_eq
logger_test = refl

bad_level_test :
    new_logger ℕ parse_debug (λ s. s) (record { level = codes "loud"; pretty = false }) ≡ (
      record { output = standard_out; timestamp = true; level = none },
      codes "Invalid log level loud, using the default level instead" ∷ [],
    )
unfolding new_logger text_eq
bad_level_test = refl
