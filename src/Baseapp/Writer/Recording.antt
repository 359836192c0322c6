-- ===== src/Baseapp/Writer/Recording.antt =====
-- What a recorder has recorded after any calls of a handler.
use go_baseapp.Prelude.{
  ℕ, zero, suc, ◌+◌, ◌%◌, ◌^◌, ◌<◌, ◌≡◌, refl, ap, Option, ◌++◌, List, [], ◌∷◌, arith, ◌==◌,
  if◌then◌else◌,
}
use go_baseapp.Baseapp.Writer.{
  ResponseWriter, Recorder, recorder_write, recorder_write_header, recorder_set_header,
  recorder_read_from, recording, Call, set_field, header, body, copy, status_ok, new_recorder,
  status, bytes_written_of,
}

module _ (w : ResponseWriter) where
  open w use {State, Error, set_header, write_header, write, read_from}

  -- The calls made through a recorder, with the results of the writes.
  pub through : List Call → Recorder w → List (ℕ × Option Error) × Recorder w
  through [] b = ([], b)
  through (set_field k v ∷ calls) b = through calls (recorder_set_header w k v b)
  through (header code ∷ calls) b = through calls (recorder_write_header w code b)
  through (body buf ∷ calls) b =
      let (n, err, b') = recorder_write w buf b in
      let (rest, b'') = through calls b' in ((n, err) ∷ rest, b'')
  through (copy source ∷ calls) b =
      let (n, err, b') = recorder_read_from w source b in
      let (rest, b'') = through calls b' in ((n, err) ∷ rest, b'')

  -- The same calls made on the writer itself.
  pub direct : List Call → State → List (ℕ × Option Error) × State
  direct [] s = ([], s)
  direct (set_field k v ∷ calls) s = direct calls (set_header k v s)
  direct (header code ∷ calls) s = direct calls (write_header code s)
  direct (body buf ∷ calls) s =
      let (n, err, s') = write buf s in let (rest, s'') = direct calls s' in ((n, err) ∷ rest, s'')
  direct (copy source ∷ calls) s =
      let (n, err, s') = read_from source s in
      let (rest, s'') = direct calls s' in ((n, err) ∷ rest, s'')

  -- The bytes that writes report.
  pub total : List (ℕ × Option Error) → ℕ
  total [] = 0
  total ((n, _) ∷ rest) = n + total rest

  -- The status that the first call with one decides: that of WriteHeader unless it is 0, and 200 of
  -- a write.
  unfoldable pub first_status : List Call → ℕ
  first_status [] = 0
  first_status (set_field _ _ ∷ calls) = first_status calls
  first_status (header zero ∷ calls) = first_status calls
  first_status (header (suc code) ∷ calls) = suc code
  first_status (body _ ∷ calls) = status_ok
  first_status (copy _ ∷ calls) = status_ok

  -- The recorder's state against the writer's own.
  through-direct :
      (calls : List Call) (b : Recorder w)
      → ((through calls b).0 ≡ (direct calls b.inner).0)
        × ((through calls b).1.inner ≡ (direct calls b.inner).1)
  unfolding through direct recorder_set_header recorder_write_header recorder_write
      recorder_read_from
  through-direct [] b = (refl, refl)
  through-direct (set_field k v ∷ calls) b = through-direct calls (recorder_set_header w k v b)
  through-direct (header code ∷ calls) b = through-direct calls (recorder_write_header w code b)
  through-direct (body buf ∷ calls) b =
      let ih = through-direct calls (recorder_write w buf b).2 in (cc (ih.0), ih.1)
  through-direct (copy source ∷ calls) b =
      let ih = through-direct calls (recorder_read_from w source b).2 in (cc (ih.0), ih.1)

  through-total :
      (calls : List Call) (b : Recorder w)
      → (through calls b).1.bytes_written % 2 ^ 64
        ≡ (b.bytes_written + total (through calls b).0) % 2 ^ 64
  unfolding through total recorder_set_header recorder_write_header recorder_write
      recorder_read_from
  through-total [] b = omega arith
  through-total (set_field k v ∷ calls) b = through-total calls (recorder_set_header w k v b)
  through-total (header code ∷ calls) b = through-total calls (recorder_write_header w code b)
  through-total (body buf ∷ calls) b = omega (arith, through-total calls (recorder_write w buf b).2)
  through-total (copy source ∷ calls) b =
      omega (arith, through-total calls (recorder_read_from w source b).2)

  through-lt :
      (calls : List Call) (b : Recorder w)
      → b.bytes_written < 2 ^ 64
      → (through calls b).1.bytes_written < 2 ^ 64
  unfolding through recorder_set_header recorder_write_header recorder_write recorder_read_from
  through-lt [] b h = h
  through-lt (set_field k v ∷ calls) b h = through-lt calls (recorder_set_header w k v b) h
  through-lt (header code ∷ calls) b h = through-lt calls (recorder_write_header w code b) h
  through-lt (body buf ∷ calls) b h = through-lt calls (recorder_write w buf b).2 (omega arith)
  through-lt (copy source ∷ calls) b h =
      through-lt calls (recorder_read_from w source b).2 (omega arith)

  through-code :
      (calls : List Call) (b : Recorder w)
      → (through calls b).1.code ≡ (if b.code == 0 then first_status calls else b.code)
  unfolding through first_status recorder_set_header recorder_write_header recorder_write
      recorder_read_from
  through-code [] b = ground arith
  through-code (set_field k v ∷ calls) b = through-code calls (recorder_set_header w k v b)
  through-code (header zero ∷ calls) b =
      ground (arith, through-code calls (recorder_write_header w 0 b))
  through-code (header (suc code) ∷ calls) b =
      ground (arith, through-code calls (recorder_write_header w (suc code) b))
  through-code (body buf ∷ calls) b = ground (arith, through-code calls (recorder_write w buf b).2)
  through-code (copy source ∷ calls) b =
      ground (arith, through-code calls (recorder_read_from w source b).2)

  pub through-append :
      (calls more : List Call) (b : Recorder w)
      → (through (calls ++ more) b).1 ≡ (through more (through calls b).1).1
  unfolding through
  through-append [] more b = refl
  through-append (set_field k v ∷ calls) more b =
      through-append calls more (recorder_set_header w k v b)
  through-append (header code ∷ calls) more b =
      through-append calls more (recorder_write_header w code b)
  through-append (body buf ∷ calls) more b = through-append calls more (recorder_write w buf b).2
  through-append (copy source ∷ calls) more b =
      through-append calls more (recorder_read_from w source b).2

  pub first_status-append :
      (calls more : List Call)
      → first_status calls ≡ 0
      → first_status (calls ++ more) ≡ first_status more
  unfolding first_status
  first_status-append [] more h = refl
  first_status-append (set_field k v ∷ calls) more h = first_status-append calls more h
  first_status-append (header zero ∷ calls) more h = first_status-append calls more h
  first_status-append (header (suc code) ∷ calls) more h = omega (arith, h)
  first_status-append (body buf ∷ calls) more h = omega (arith, h)
  first_status-append (copy source ∷ calls) more h = omega (arith, h)

  -- Whatever a handler calls on a new recorder: the writer behind it and the results of the calls are
  -- as if the handler had called the writer itself; the status is that of the first call that has
  -- one, a WriteHeader with a code other than 0 or a write, and 0 without such a call; and the bytes
  -- written are the sum of what the writes reported, modulo 2 ^ 64.
  pub through_lem :
      (calls : List Call) (s : State)
      → ((through calls (new_recorder w s)).0 ≡ (direct calls s).0)
        × ((through calls (new_recorder w s)).1.inner ≡ (direct calls s).1)
        × (status w (through calls (new_recorder w s)).1 ≡ first_status calls)
        × (bytes_written_of w (through calls (new_recorder w s)).1
            ≡ total (direct calls s).0 % 2 ^ 64)
  through_lem calls s =
      let b = new_recorder w s in
      let (results, inner) = through-direct calls b in
      (
        results,
        inner,
        through-code calls b,
        omega (arith, through-total calls b, through-lt calls b (omega arith), ap total results),
      )

-- A handler that gets the recorder as its response writer acts through it.
pub direct-recording :
    (w : ResponseWriter) (calls : List Call) (b : Recorder w)
    → direct (recording w) calls b ≡ through w calls b
unfolding direct through
direct-recording w [] b = refl
direct-recording w (set_field k v ∷ calls) b =
    direct-recording w calls (recorder_set_header w k v b)
direct-recording w (header code ∷ calls) b =
    direct-recording w calls (recorder_write_header w code b)
direct-recording w (body buf ∷ calls) b =
    let (n, err, b') = recorder_write w buf b in
    ap (λ x. ((n, err) ∷ x.0, x.1)) (direct-recording w calls b')
direct-recording w (copy source ∷ calls) b =
    let (n, err, b') = recorder_read_from w source b in
    ap (λ x. ((n, err) ∷ x.0, x.1)) (direct-recording w calls b')
