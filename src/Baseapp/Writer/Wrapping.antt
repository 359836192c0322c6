-- ===== src/Baseapp/Writer/Wrapping.antt =====
-- Which optional interfaces survive the wrapping.
use go_baseapp.Prelude.{◌≡◌, arith, ◌&&◌, ◌↔◌}
use go_baseapp.Baseapp.Writer.{Interfaces, wrap_writer, interfaces_of}

-- Every optional interface of the wrapped writer is one of the writer itself, so that the type
-- assertions in the recorders' methods do not panic; a Flusher stays one; and nothing is lost
-- exactly if the writer has all four interfaces, or none besides Flusher.
wrap_writer_lem :
    (w : Interfaces)
    → (((interfaces_of (wrap_writer w)).close_notifier && w.close_notifier)
        ≡ (interfaces_of (wrap_writer w)).close_notifier)
      × (((interfaces_of (wrap_writer w)).hijacker && w.hijacker)
          ≡ (interfaces_of (wrap_writer w)).hijacker)
      × (((interfaces_of (wrap_writer w)).reader_from && w.reader_from)
          ≡ (interfaces_of (wrap_writer w)).reader_from)
      × ((interfaces_of (wrap_writer w)).flusher ≡ w.flusher)
      × ((interfaces_of (wrap_writer w) ≡ w) ↔ (
          (w.close_notifier ≡ w.hijacker)
          × (w.hijacker ≡ w.reader_from)
          × ((w.reader_from && w.flusher) ≡ w.reader_from)))
unfolding wrap_writer interfaces_of
wrap_writer_lem w = ground arith
