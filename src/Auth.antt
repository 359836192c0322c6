-- ===== src/Auth.antt =====
-- The packages below baseapp/auth, and how their handlers reply.
pub mod Oauth2
pub mod Saml
use go_baseapp.Prelude.{ℕ, ◌++◌, List, [], ◌∷◌}
use go_baseapp.Text.{Text, codes}
use go_baseapp.Baseapp.Errors.{WriterCall, set_header, write_header, write}

-- http.Error
abbrev pub http_error : Text → ℕ → List WriterCall
http_error text code =
    set_header (codes "Content-Type") (codes "text/plain; charset=utf-8")
    ∷ set_header (codes "X-Content-Type-Options") (codes "nosniff")
    ∷ write_header code
    ∷ write (text ++ b'\n' ∷ [])
    ∷ []

-- What a handler sends: a call of http.Redirect, with the URL and the status, or calls on the
-- response writer.
pub data Reply : Type 0 where
  redirect : Text → ℕ → Reply
  calls : List WriterCall → Reply
