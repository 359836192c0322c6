-- ===== src/Errfmt.antt =====
-- pkg/errfmt/errfmt.go: an error with the deepest stack trace of its chain of causes.
pub mod Chain
use go_baseapp.Prelude.{ℕ, Option, none, some, List, [], ◌∷◌, ◌++◌}
use go_baseapp.Text.{Text, codes}
use go_baseapp.Text.Numbers.{format}

pub record Frame : Type 0 where
  pub function : Text
  pub file : Text
  pub line : ℕ

-- The StackTrace method of an error, if it has one: that of pkg/errors, whose `%+v` format is given
-- as text, or one that returns runtime frames.
pub data StackTrace : Type 0 where
  no_trace : StackTrace
  pkg_errors : Text → StackTrace
  runtime_frames : List Frame → StackTrace

-- An error: its message and its stack trace, without a Cause method, with one that returns nil, or
-- with one that returns an error. A chain of causes that leads back to itself is outside the model.
pub data Err : Type 0 where
  plain : Text → StackTrace → Err
  caused_by_nil : Text → StackTrace → Err
  caused_by : Text → StackTrace → Err → Err

abbrev pub message : Err → Text
message (plain m _) = m
message (caused_by_nil m _) = m
message (caused_by m _ _) = m

-- `deepestStack = currErr`, if the error has a stack trace.
deeper : StackTrace → StackTrace → StackTrace
deeper no_trace deepest = deepest
deeper (pkg_errors t) _ = pkg_errors t
deeper (runtime_frames fs) _ = runtime_frames fs

-- The loop of `Print`.
deepest_from : Err → StackTrace → StackTrace
unfolding deeper
deepest_from (plain _ s) deepest = deeper s deepest
deepest_from (caused_by_nil _ s) deepest = deeper s deepest
deepest_from (caused_by _ s cause) deepest = deepest_from cause (deeper s deepest)

-- The loop of `fmtStack` over runtime frames.
write_frames : List Frame → Text → Text
write_frames [] s = s
write_frames (f ∷ fs) s =
    write_frames fs
      (s ++ codes "\n" ++ f.function ++ codes "\n\t" ++ f.file ++ codes ":" ++ format f.line)

unfoldable pub fmt_stack : StackTrace → Text
unfolding write_frames
fmt_stack no_trace = []
fmt_stack (pkg_errors t) = t
fmt_stack (runtime_frames fs) = write_frames fs []

-- `Print`; `none` is a nil error.
unfoldable pub print : Option Err → Text
unfolding deepest_from
print none = []
print (some err) = message err ++ fmt_stack (deepest_from err no_trace)
