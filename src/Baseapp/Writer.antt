-- ===== src/Baseapp/Writer.antt =====
-- baseapp/recording_writer.go: the response writer that records the status and the bytes written.
pub mod Recording
pub mod Wrapping
pub mod Optional
use go_baseapp.Prelude.{ℕ, Bool, Option, false, if◌then◌else◌, true, ◌&&◌, ◌+◌, ◌==◌, ◌%◌, ◌^◌}
use go_baseapp.Text.{Text}

-- The optional interfaces that a response writer may have.
pub record Interfaces : Type 0 where
  pub close_notifier : Bool
  pub flusher : Bool
  pub hijacker : Bool
  pub reader_from : Bool

-- An http.ResponseWriter, which net/http or a caller provides: `set_header` is `Header().Set`, and a
-- write returns the number of bytes written and its error.
pub record ResponseWriter : Type 1 where
  pub State : Type 0
  pub Error : Type 0
  pub set_header : Text → Text → State → State
  pub write_header : ℕ → State → State
  pub write : Text → State → ℕ × Option Error × State
  pub read_from : Text → State → ℕ × Option Error × State

pub data RecorderKind : Type 0 where
  basic flush fancy : RecorderKind

-- `WrapWriter`: which of the three recorders wraps the writer.
unfoldable pub wrap_writer : Interfaces → RecorderKind
wrap_writer w =
    if w.close_notifier && w.flusher && w.hijacker && w.reader_from
    then fancy
    else if w.flusher
    then flush
    else basic

-- The optional interfaces that the methods of each recorder give it.
unfoldable pub interfaces_of : RecorderKind → Interfaces
interfaces_of basic = record {
  close_notifier = false;
  flusher = false;
  hijacker = false;
  reader_from = false;
}
interfaces_of flush = record {
  close_notifier = false;
  flusher = true;
  hijacker = false;
  reader_from = false;
}
interfaces_of fancy = record {
  close_notifier = true;
  flusher = true;
  hijacker = true;
  reader_from = true;
}

abbrev pub status_ok : ℕ
status_ok = 200

module _ (w : ResponseWriter) where
  open w use {State, Error, set_header, write_header, write, read_from}

  -- basicRecorder; `bytes_written` is an int64 by its bit pattern.
  pub record Recorder : Type 0 where
    pub inner : State
    pub code : ℕ
    pub bytes_written : ℕ

  -- `basicRecorder{ResponseWriter: w}`
  abbrev pub new_recorder : State → Recorder
  new_recorder s = record { inner = s; code = 0; bytes_written = 0 }

  -- `if b.code == 0 { b.code = code }`
  set_code : ℕ → ℕ → ℕ
  set_code code old = if old == 0 then code else old

  -- `Header().Set` through the recorder, which embeds the writer.
  pub recorder_set_header : Text → Text → Recorder → Recorder
  recorder_set_header key value b = record b { inner = set_header key value b.inner }

  pub recorder_write_header : ℕ → Recorder → Recorder
  unfolding set_code
  recorder_write_header code b = record b {
    code = set_code code b.code;
    inner = write_header code b.inner;
  }

  pub recorder_write : Text → Recorder → ℕ × Option Error × Recorder
  unfolding set_code
  recorder_write buf b =
      let (n, err, inner') = write buf b.inner in
      (
        n,
        err,
        record {
          inner = inner';
          code = set_code status_ok b.code;
          bytes_written = (b.bytes_written + n) % 2 ^ 64;
        },
      )

  -- The `ReadFrom` of fancyRecorder.
  pub recorder_read_from : Text → Recorder → ℕ × Option Error × Recorder
  unfolding set_code
  recorder_read_from source b =
      let (n, err, inner') = read_from source b.inner in
      (
        n,
        err,
        record {
          inner = inner';
          code = set_code status_ok b.code;
          bytes_written = (b.bytes_written + n) % 2 ^ 64;
        },
      )

  -- A recorder as the response writer that the next handler gets.
  abbrev pub recording : ResponseWriter
  recording = record {
    State = Recorder;
    Error = Error;
    set_header = recorder_set_header;
    write_header = recorder_write_header;
    write = recorder_write;
    read_from = recorder_read_from;
  }

  abbrev pub status : Recorder → ℕ
  status b = b.code

  abbrev pub bytes_written_of : Recorder → ℕ
  bytes_written_of b = b.bytes_written

-- The calls that a handler makes on its response writer.
pub data Call : Type 0 where
  set_field : Text → Text → Call
  header : ℕ → Call
  body : Text → Call
  copy : Text → Call
