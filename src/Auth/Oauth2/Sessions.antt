-- ===== src/Auth/Oauth2/Sessions.antt =====
-- baseapp/auth/oauth2/sessions.go: states kept in the client's session.
pub mod Protection
use go_baseapp.Prelude.{
  ℕ, ◌+◌, ◌-◌, ◌/◌, ◌%◌, ◌⊎◌, inl, inr, Bool, Option, none, some, List, [], ◌∷◌, ltb, if◌then◌else◌,
}
use go_baseapp.Text.{Text, text_eq}
use go_baseapp.Auth.Oauth2.{StateStore}

-- A value of a session, under the state's key.
pub data SessionValue : Type 0 where
  str : Text → SessionValue
  other_type : SessionValue

-- The client's session, and what gorilla/sessions and crypto/rand do: the error of Get, if any (a
-- session is returned nevertheless), that of Save, and the random bytes or the error of reading them.
pub record Session : Type 0 where
  pub value : Option SessionValue
  pub get_error : Option ℕ
  pub save_error : Option ℕ
  pub random : List ℕ ⊎ ℕ

hex_digit : ℕ → ℕ
hex_digit d = if ltb d 10 then b'0' + d else b'a' + (d - 10)

-- hex.EncodeToString
unfoldable pub hex_encode : List ℕ → Text
unfolding hex_digit
hex_encode [] = []
hex_encode (b ∷ bs) = hex_digit (b / 16) ∷ hex_digit (b % 16) ∷ hex_encode bs

-- `return state, sess.Save(r, w)`: the state stays in the client's session if it can be saved.
saved : Session → Text → Option ℕ → (Text ⊎ ℕ) × Session
saved s state none = (inl state, record s { value = some (str state) })
saved s state (some err) = (inr err, s)

-- `GenerateState`, by the random bytes.
generate : Session → List ℕ ⊎ ℕ → (Text ⊎ ℕ) × Session
unfolding saved
generate s (inr err) = (inr err, s)
generate s (inl b) = saved s (hex_encode b) s.save_error

-- `VerifyState`, by the value in the session. The two errors that it makes are known as 0, no state
-- value, and 1, a value of another type.
verify_value : Option SessionValue → Text → Bool ⊎ ℕ
verify_value none expected = inr 0
verify_value (some other_type) expected = inr 1
verify_value (some (str state)) expected = inl (text_eq expected state)

verify : Session → Option ℕ → Text → Bool ⊎ ℕ
unfolding verify_value
verify s (some err) expected = inr err
verify s none expected = verify_value s.value expected

-- SessionStateStore
unfoldable pub session_store : StateStore Session
unfolding generate verify
session_store = record {
  generate_state = λ r s. generate s s.random;
  verify_state = λ r expected s. verify s s.get_error expected;
}
