-- ===== src/Baseapp/Writer/Optional.antt =====
-- baseapp/recording_writer.go: the methods CloseNotify, Flush, Hijack and ReadFrom of the recorders,
-- which assert the interface of the writer that they wrap.
use go_baseapp.Prelude.{◌≡◌, ◌≢◌, ◌↔◌, Bool, true, false, arith}
use go_baseapp.Baseapp.Writer.{
  Interfaces, RecorderKind, basic, flush, fancy, wrap_writer, interfaces_of,
}

-- The methods of the optional interfaces.
pub data Method : Type 0 where
  close_notify flush_response hijack_connection read_from_reader : Method

-- Whether a writer has a method.
unfoldable pub has_method : Interfaces → Method → Bool
has_method w close_notify = w.close_notifier
has_method w flush_response = w.flusher
has_method w hijack_connection = w.hijacker
has_method w read_from_reader = w.reader_from

-- A method of a recorder: the recorder does not have it, its type assertion panics, or it is called
-- on the wrapped writer.
pub data Called : Type 0 where
  absent assertion_panic forwarded : Called

-- `x := f.basicRecorder.ResponseWriter.(T)`, and the call of the method on `x`.
assert_and_call : Bool → Called
assert_and_call true = forwarded
assert_and_call false = assertion_panic

-- The methods of the three recorders, by the interfaces of the wrapped writer.
unfoldable pub recorder_method : RecorderKind → Interfaces → Method → Called
unfolding assert_and_call has_method
recorder_method fancy w m = assert_and_call (has_method w m)
recorder_method flush w flush_response = assert_and_call w.flusher
recorder_method flush w close_notify = absent
recorder_method flush w hijack_connection = absent
recorder_method flush w read_from_reader = absent
recorder_method basic w m = absent

-- No method of the recorder that WrapWriter chooses panics: each one either is missing or calls the
-- method of the wrapped writer, and the latter exactly if the recorder counts as having it. Wrapping
-- the recorder once more chooses the same kind of recorder.
pub recorder_method-wrap_writer :
    (w : Interfaces) (m : Method)
    → (recorder_method (wrap_writer w) w m ≢ assertion_panic)
      × ((recorder_method (wrap_writer w) w m ≡ forwarded)
          ↔ (has_method (interfaces_of (wrap_writer w)) m ≡ true))
      × (wrap_writer (interfaces_of (wrap_writer w)) ≡ wrap_writer w)
unfolding recorder_method wrap_writer interfaces_of has_method
recorder_method-wrap_writer w close_notify = ground arith
recorder_method-wrap_writer w flush_response = ground arith
recorder_method-wrap_writer w hijack_connection = ground arith
recorder_method-wrap_writer w read_from_reader = ground arith
