-- ===== src/Bindings/Streams/Reading.antt =====
-- What `_read_stream`, `_write_stream` and the conversions of stream ids do.
use quinn_ffi.Prelude.{
  ℕ, ◌≤◌, ◌≡◌, ◌^◌, refl, Bool, true, false, none, some, inl, inr, List, ◌++◌, lookup, insert,
  length, take, drop, min, arith, if◌then◌else◌,
}
use quinn_ffi.ErrorKind.{io_error, ffi_result_kind, FfiResultKind}
use quinn_ffi.Effect.{ok, err}
use quinn_ffi.Proto.{Proto, IsVarInt}
use quinn_ffi.World.{World, ConnectionImpl}
use quinn_ffi.World.Memory.{init, write_bytes}
use quinn_ffi.Bindings.Streams.{
  stream_id, stream_of, read_chunks, read_next, read_stream_inner, write_stream_inner, finish_read,
}

module _ {P : Proto} where
  -- A number from 2^62 on, which the library takes for no `VarInt`, is refused by reading and by writing:
  -- the error is the library's, and nothing changes.
  pub stream_id-refuses :
      IsVarInt P
      → (auto_poll : Bool) (n buf len actual : ℕ) (s : ConnectionImpl P × World P) → 2 ^ 62 ≤ n
      → (read_stream_inner auto_poll n buf len actual s ≡ (err (io_error P.varint_error_text), s))
        × (write_stream_inner auto_poll n buf len actual s
            ≡ (err (io_error P.varint_error_text), s))
  unfolding read_stream_inner write_stream_inner stream_id stream_of
  stream_id-refuses v auto_poll n buf len actual s l =
      let none_there = v.from_above n (omega arith) in (rw none_there refl, rw none_there refl)

  pub stream_id-ok :
      (n : ℕ) (x : P.VarInt) (s : ConnectionImpl P × World P)
      → P.varint_from_u64 n ≡ some x
      → stream_id n s ≡ (ok (P.stream_of_varint x), s)
  unfolding stream_id stream_of
  stream_id-ok n x s h = rw h refl

  -- Reading a chunk copies it to the front of the application's buffer, as far as it fits the length that
  -- was given, and reports how much was copied. So it is with valid pointers, and while the library asks
  -- for no packet to be sent.
  pub read_stream_inner-copies :
      (auto_poll : Bool) (n buf len actual old : ℕ) (x : P.VarInt) (chunks chunks' : P.Chunks)
      (chunk mem : List ℕ) (i : P.Connection) (c : ConnectionImpl P) (w : World P)
      → P.varint_from_u64 n ≡ some x
      → P.read c.inner (P.stream_of_varint x) true ≡ inr chunks
      → P.next chunks len ≡ (inr (some chunk), chunks')
      → P.finalize chunks' ≡ (false, i)
      → lookup buf w.buffers ≡ some mem
      → len ≤ length mem
      → lookup actual w.words ≡ some old
      → read_stream_inner auto_poll n buf len actual (c, w) ≡ (
        ok tt,
        (
          record c { inner = i },
          record w {
            buffers = insert buf (take len chunk ++ drop (min len (length chunk)) mem) w.buffers;
            words = insert actual (min len (length chunk)) w.words;
          },
        ),
      )
  unfolding read_stream_inner read_chunks read_next finish_read write_bytes init
  read_stream_inner-copies auto_poll n buf len actual old x chunks chunks' chunk mem i c w v r nx f
        b l a =
      ground (arith, stream_id-ok n x (c, w) v)

  -- When the library cannot give a chunk, reading fails: with `BufferBlocked` if the stream is blocked, and
  -- else with the library's error. The application's memory stays as it was. So it is while the library
  -- asks for no packet to be sent.
  pub read_stream_inner-fails :
      (auto_poll : Bool) (n buf len actual : ℕ) (x : P.VarInt) (chunks chunks' : P.Chunks)
      (e : P.ReadError) (i : P.Connection) (c : ConnectionImpl P) (w : World P)
      → P.varint_from_u64 n ≡ some x
      → P.read c.inner (P.stream_of_varint x) true ≡ inr chunks
      → P.next chunks len ≡ (inl e, chunks')
      → P.finalize chunks' ≡ (false, i)
      → read_stream_inner auto_poll n buf len actual (c, w) ≡ (
        err (
            if P.is_blocked e
            then ffi_result_kind FfiResultKind.buffer_blocked
            else io_error (P.read_error_text e)),
        (record c { inner = i }, w),
      )
  unfolding read_stream_inner read_chunks read_next finish_read
  read_stream_inner-fails auto_poll n buf len actual x chunks chunks' e i c w v r nx f =
      ground (arith, stream_id-ok n x (c, w) v)

  -- At the end of a stream reading succeeds, and reports nothing: the number of bytes that the application
  -- would look at keeps its old value. So it is while the library asks for no packet to be sent.
  pub read_stream_inner-end :
      (auto_poll : Bool) (n buf len actual : ℕ) (x : P.VarInt) (chunks chunks' : P.Chunks)
      (i : P.Connection) (c : ConnectionImpl P) (w : World P)
      → P.varint_from_u64 n ≡ some x
      → P.read c.inner (P.stream_of_varint x) true ≡ inr chunks
      → P.next chunks len ≡ (inr none, chunks')
      → P.finalize chunks' ≡ (false, i)
      → read_stream_inner auto_poll n buf len actual (c, w) ≡ (ok tt, (record c { inner = i }, w))
  unfolding read_stream_inner read_chunks read_next finish_read
  read_stream_inner-end auto_poll n buf len actual x chunks chunks' i c w v r nx f =
      ground (arith, stream_id-ok n x (c, w) v)
