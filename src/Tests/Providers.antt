-- ===== src/Tests/Providers.antt =====
-- Concrete functions for the parameters of the models: a registry, a response writer, a provider.
use go_baseapp.Prelude.{
  ℕ, ◌/◌, ◌≡◌, refl, inl, none, List, [], ◌∷◌, ◌++◌, arith, ◌==◌, if◌then◌else◌, length,
}
use go_baseapp.Text.{Text, codes, text_eq}
use go_baseapp.Text.Equality.{text_eq_iff}
use go_baseapp.Text.Dict.{lookup, insert, lookup-insert}
use go_baseapp.Appmetrics.Registry.{Registry, Metric, found_or}
use go_baseapp.Appmetrics.Values.{Floats}
use go_baseapp.Baseapp.Writer.{ResponseWriter}
use go_baseapp.Baseapp.Errors.{Encoding}
use go_baseapp.Baseapp.Server.{Types}
use go_baseapp.Auth.Oauth2.{Provider}

unfoldable pub remove : Text → List (Text × Metric) → List (Text × Metric)
remove n [] = []
remove n ((k, m) ∷ s) = if text_eq k n then remove n s else (k, m) ∷ remove n s

pub lookup-remove :
    (k n : Text) (s : List (Text × Metric))
    → lookup k (remove n s) ≡ (if text_eq n k then none else lookup k s)
unfolding lookup remove
lookup-remove k n [] = ground arith
lookup-remove k n ((j, m) ∷ s) =
    ground (arith, text_eq_iff j n, text_eq_iff n k, text_eq_iff j k, lookup-remove k n s)

-- A registry as an association list.
abbrev pub list_registry : Registry
list_registry = record {
  State = List (Text × Metric);
  get = lookup;
  get_or_register = λ n m s. (found_or (lookup n s) m, insert n (found_or (lookup n s) m) s);
  register = λ n m s. insert n (found_or (lookup n s) m) s;
  unregister = remove;
  get_or_register_value = λ n m s. refl;
  get-get_or_register = λ k n m s. lookup-insert n k (found_or (lookup n s) m) s;
  get-register = λ k n m s. lookup-insert n k (found_or (lookup n s) m) s;
  get-unregister = lookup-remove;
}

-- Numbers in place of floating point numbers.
abbrev pub counting_floats : Floats
counting_floats = record {
  Float = ℕ;
  of_int64 = λ n. n;
  eq = λ a b. a == b;
  div = λ a b. a / b;
  half = 50;
  p95 = 95;
}

-- A writer that keeps what it is given.
abbrev pub buffer_writer : ResponseWriter
buffer_writer = record {
  State = Text;
  Error = Unit {0};
  set_header = λ key value s. s ++ key ++ value;
  write_header = λ code s. s ++ code ∷ [];
  write = λ buf s. (length buf, none, s ++ buf);
  read_from = λ source s. (length source, none, s ++ source);
}

abbrev pub plain_encoding : Encoding
plain_encoding = record {
  marshal = λ obj. inl (codes "{}");
  quote = λ s. s;
  status_text = λ code. codes "text";
}

abbrev pub numbered_types : Types
numbered_types = record {
  Logger = ℕ;
  OtherMiddleware = ℕ;
  Handler = ℕ;
  Tls = ℕ;
  Marshal = ℕ;
  nop = 0;
  recommended = 12;
  rich_error_marshal = 1;
}

-- A provider whose token is the code.
abbrev pub echo_provider : Provider
echo_provider = record {
  Token = Text;
  auth_code_url = λ u state. state;
  exchange = λ u code. inl code;
}
