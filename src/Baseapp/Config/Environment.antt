-- ===== src/Baseapp/Config/Environment.antt =====
-- What environment variables do to a configuration.
use go_baseapp.Text.Equality.{text_eq_iff}
use go_baseapp.Text.Numbers.RoundTrip.{atoi-itoa}
use go_baseapp.Text.Numbers.Range.{atoi-IsInt64, atoi-itoa_overflow, IsInt64-Dec}
use go_baseapp.Prelude.{
  not, ◌||◌, if◌then◌else◌, ◌≡◌, refl, ◌≢◌, ◌⊎◌, inl, inr, Option, none, some, [], ◌++◌, arith,
  Option-cases,
}
use go_baseapp.Text.{Text, text_eq, codes}
use go_baseapp.Text.Numbers.{ℤ, itoa, IsInt64, atoi}
use go_baseapp.Baseapp.Config.{
  Env, HttpConfig, set_values_from_env, TlsConfig, set_int_from_env, set_to,
}

-- Applying the same environment a second time changes nothing.
set_values_from_env_idem :
    (parse_duration : Text → Option ℤ) (env : Env) (prefix : Text) (c : HttpConfig)
    → set_values_from_env parse_duration env prefix
        (set_values_from_env parse_duration env prefix c)
      ≡ set_values_from_env parse_duration env prefix c
unfolding set_values_from_env
set_values_from_env_idem parse_duration env prefix c = ground arith

-- The environment gives nothing to the configuration but the values of the six variables with the
-- prefix: two environments that agree on these make the same configuration.
pub set_values_from_env_frame :
    (parse_duration : Text → Option ℤ) (env env' : Env) (prefix : Text) (c : HttpConfig)
    → env (prefix ++ codes "ADDRESS") ≡ env' (prefix ++ codes "ADDRESS")
    → env (prefix ++ codes "PORT") ≡ env' (prefix ++ codes "PORT")
    → env (prefix ++ codes "PUBLIC_URL") ≡ env' (prefix ++ codes "PUBLIC_URL")
    → env (prefix ++ codes "SHUTDOWN_WAIT_TIME") ≡ env' (prefix ++ codes "SHUTDOWN_WAIT_TIME")
    → env (prefix ++ codes "TLS_CERT_FILE") ≡ env' (prefix ++ codes "TLS_CERT_FILE")
    → env (prefix ++ codes "TLS_KEY_FILE") ≡ env' (prefix ++ codes "TLS_KEY_FILE")
    → set_values_from_env parse_duration env prefix c
      ≡ set_values_from_env parse_duration env' prefix c
unfolding set_values_from_env
set_values_from_env_frame parse_duration env env' prefix c a b d e f g = rw (a, b, d, e, f, g) refl

-- Empty names of the TLS files give no TLS configuration.
given_or_kept :
    (tls : TlsConfig) (old : Option TlsConfig)
    → let new =
        if not (text_eq tls.cert_file []) || not (text_eq tls.key_file []) then some tls else old in
      (((tls.cert_file ≢ []) ⊎ (tls.key_file ≢ [])) × (new ≡ some tls))
      ⊎ ((tls.cert_file ≡ []) × (tls.key_file ≡ []) × (new ≡ old))
given_or_kept tls old = ground (arith, text_eq_iff tls.cert_file [], text_eq_iff tls.key_file [])

-- The five variables for the address, the port, the public URL and the TLS files are set, the port to
-- a number of int64 in decimal, and the wait time is not: the address, the port and the public URL are
-- replaced and the wait time is kept, whatever they were. The TLS configuration is replaced by the
-- two names if one of them is not empty, and kept, also if there is none, if both are empty.
pub set_values_from_env_written :
    (parse_duration : Text → Option ℤ) (env : Env) (prefix : Text) (old : HttpConfig)
    (address public_url : Text) (port : ℤ) (tls : TlsConfig)
    → env (prefix ++ codes "ADDRESS") ≡ some address
    → env (prefix ++ codes "PORT") ≡ some (itoa port)
    → IsInt64 port
    → env (prefix ++ codes "PUBLIC_URL") ≡ some public_url
    → env (prefix ++ codes "SHUTDOWN_WAIT_TIME") ≡ none
    → env (prefix ++ codes "TLS_CERT_FILE") ≡ some tls.cert_file
    → env (prefix ++ codes "TLS_KEY_FILE") ≡ some tls.key_file
    → (tls_config : Option TlsConfig) × (set_values_from_env parse_duration env prefix old
        ≡ record {
          address = address;
          port = port;
          public_url = public_url;
          tls_config = tls_config;
          shutdown_wait_time = old.shutdown_wait_time;
        })
      × ((((tls.cert_file ≢ []) ⊎ (tls.key_file ≢ [])) × (tls_config ≡ some tls))
          ⊎ ((tls.cert_file ≡ []) × (tls.key_file ≡ []) × (tls_config ≡ old.tls_config)))
unfolding set_values_from_env text_eq
set_values_from_env_written parse_duration env prefix old address public_url port tls a b fits d e f
      g =
    (_, rw (a, b, d, e, f, g, atoi-itoa port fits) refl, given_or_kept tls old.tls_config)

-- Variables that are set to the empty text replace the address and the public URL, but not the names
-- of the TLS files: with both names set to the empty text the TLS configuration is kept.
set_values_from_env_empty :
    (parse_duration : Text → Option ℤ) (env : Env) (prefix : Text) (c : HttpConfig)
    → env (prefix ++ codes "ADDRESS") ≡ some []
    → env (prefix ++ codes "PUBLIC_URL") ≡ some []
    → env (prefix ++ codes "TLS_CERT_FILE") ≡ some []
    → env (prefix ++ codes "TLS_KEY_FILE") ≡ some []
    → ((set_values_from_env parse_duration env prefix c).address ≡ [])
      × ((set_values_from_env parse_duration env prefix c).public_url ≡ [])
      × ((set_values_from_env parse_duration env prefix c).tls_config ≡ c.tls_config)
unfolding set_values_from_env text_eq
set_values_from_env_empty parse_duration env prefix c a b f g =
    (rw a refl, rw b refl, rw (f, g) refl)

-- A number of int64, replaced by what the variable holds if that can be read.
set_int_from_env-IsInt64 :
    (env : Env) (key prefix : Text) (value : ℤ)
    → IsInt64 value
    → IsInt64 (set_int_from_env env key prefix value).0
unfolding set_int_from_env set_to
set_int_from_env-IsInt64 env key prefix value fits = elim (Option-cases (env (prefix ++ key))) [
  | inl e ↦ rw e fits
  | inr h ↦
      let (s, e) = h in
      elim (Option-cases (atoi s)) [
        | inl f ↦ rw (e, f) fits
        | inr k ↦ let (z, f) = k in rw (e, f) (atoi-IsInt64 s z f)
      ]
]

-- The port stays a number of int64, whatever text the environment holds; and if the variable holds a
-- number in decimal, then the port is this number if int64 can hold it, and the old port otherwise.
pub set_values_from_env-IsInt64 :
    (parse_duration : Text → Option ℤ) (env : Env) (prefix : Text) (c : HttpConfig)
    → IsInt64 c.port
    → IsInt64 (set_values_from_env parse_duration env prefix c).port
      × ((z : ℤ)
          → env (prefix ++ codes "PORT") ≡ some (itoa z)
          → (IsInt64 z × ((set_values_from_env parse_duration env prefix c).port ≡ z))
            ⊎ ((¬ IsInt64 z) × ((set_values_from_env parse_duration env prefix c).port ≡ c.port)))
unfolding set_values_from_env set_int_from_env set_to
set_values_from_env-IsInt64 parse_duration env prefix c fits = (
  set_int_from_env-IsInt64 env (codes "PORT") prefix c.port fits,
  λ z e. elim (IsInt64-Dec z) [
    | yes h ↦ inl (h, rw (e, atoi-itoa z h) refl)
    | no h ↦ inr (h, rw (e, atoi-itoa_overflow z h) refl)
  ],
)
