-- ===== src/Baseapp/Errors.antt =====
-- baseapp/error.go and the WriteJSON of baseapp/server.go: the responses to failed requests.
pub mod Responses
use go_baseapp.Prelude.{
  ℕ, ◌⊎◌, inl, inr, Bool, true, false, Option, none, some, List, [], ◌∷◌, ◌++◌, if◌then◌else◌,
}
use go_baseapp.Errfmt.{Err, print}
use go_baseapp.Text.{Text, codes}

-- `RichErrorMarshalFunc`, which zerolog calls on an error; the text is its result.
abbrev pub rich_error_marshal_func : Option Err → Text
rich_error_marshal_func = print

-- The calls that these functions make on a response writer.
pub data WriterCall : Type 0 where
  set_header : Text → Text → WriterCall
  write_header : ℕ → WriterCall
  write : Text → WriterCall

-- The objects that are written: string maps, with their entries in the order of their keys.
abbrev pub Object : Type 0
Object = List (Text × Text)

-- What encoding/json, net/http and strconv do here: `marshal` returns the JSON text or the text of
-- an error, `quote` is strconv.Quote, and `status_text` is http.StatusText.
pub record Encoding : Type 0 where
  pub marshal : Object → Text ⊎ Text
  pub quote : Text → Text
  pub status_text : ℕ → Text

abbrev pub status_internal_server_error : ℕ
status_internal_server_error = 500

-- http.Request.Context().Err(), whose two errors are Canceled and DeadlineExceeded.
pub data ContextErr : Type 0 where
  no_error canceled deadline_exceeded : ContextErr

is_canceled : ContextErr → Bool
is_canceled canceled = true
is_canceled _ = false

-- The level of the line that is logged.
pub data Level : Type 0 where
  debug error : Level

module _ (enc : Encoding) where
  -- `WriteJSON` once the object is marshalled.
  write_marshalled : ℕ → Text ⊎ Text → List WriterCall
  write_marshalled status (inl b) = write_header status ∷ write b ∷ []
  write_marshalled status (inr err) =
      write_header status_internal_server_error
      ∷ write (codes "{\"error\": " ++ enc.quote err ++ codes "}")
      ∷ []

  unfoldable pub write_json : ℕ → Object → List WriterCall
  unfolding write_marshalled
  write_json status obj =
      set_header (codes "Content-Type") (codes "application/json")
      ∷ write_marshalled status (enc.marshal obj)

  -- `aerr.StatusCode()`, where the cause has it.
  status_code : Option ℕ → ℕ
  status_code none = status_internal_server_error
  status_code (some code) = code

  -- `HandleRouteError`: the calls on the writer and the level of the line logged. The arguments are
  -- the error of the request's context, the status code of `errors.Cause(err)` if it has one, and
  -- the request id's text.
  unfoldable pub handle_route_error : ContextErr → Option ℕ → Text → List WriterCall × Level
  unfolding is_canceled status_code
  handle_route_error cerr cause_status rid =
      if is_canceled cerr
      then (write_json 499 ((codes "error", codes "Client Closed Connection") ∷ []), debug)
      else (
        write_json (status_code cause_status) (
            (codes "error", enc.status_text (status_code cause_status))
            ∷ (codes "request_id", rid)
            ∷ []),
        error,
      )
