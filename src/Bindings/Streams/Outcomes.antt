-- ===== src/Bindings/Streams/Outcomes.antt =====
-- `_read_stream` for every answer of the library, without `auto-poll`.
use quinn_ffi.Prelude.{
  ℕ, ◌≤◌, ◌≡◌, ◌^◌, refl, Bool, true, false, Option, none, some, ◌⊎◌, inl, inr, List, ◌++◌, lookup,
  insert, length, take, drop, min, if◌then◌else◌, [], ◌∷◌, ◌%◌,
}
use quinn_ffi.ErrorKind.{io_error, ffi_result_kind, FfiResultKind}
use quinn_ffi.Effect.{Exit, ok, err}
use quinn_ffi.Proto.{Proto}
use quinn_ffi.World.{World, ConnectionImpl, Call, Slot}
use quinn_ffi.Connection.Pollable.{mark_pollable-calls}
use quinn_ffi.World.Memory.Slices.{write_bytes-fits, init-writes}
use quinn_ffi.Bindings.Streams.{read_chunks, read_next, read_stream_inner, finish_read}
use quinn_ffi.Bindings.Streams.Reading.{stream_id-ok}

-- How the call ends, by what `Chunks::next` gave: an error, the end of the stream, or a chunk.
abbrev pub read_exit : (P : Proto) → P.ReadError ⊎ Option (List ℕ) → Exit (Unit {0})
read_exit P (inl e) = err (
    if P.is_blocked e
    then ffi_result_kind FfiResultKind.buffer_blocked
    else io_error (P.read_error_text e))
read_exit P (inr none) = ok tt
read_exit P (inr (some chunk)) = ok tt

module _ {P : Proto} where
  -- The application's memory: only a chunk is copied and measured, as far as it fits `len` bytes.
  abbrev pub read_into : P.ReadError ⊎ Option (List ℕ) → ℕ → ℕ → ℕ → List ℕ → World P → World P
  read_into (inl e) buf len actual mem w = w
  read_into (inr none) buf len actual mem w = w
  read_into (inr (some chunk)) buf len actual mem w = record w {
    buffers = insert buf (take len chunk ++ drop (min len (length chunk)) mem) w.buffers;
    words = insert actual (min len (length chunk)) w.words;
  }

  -- `f` is told that the connection is to be polled, if a packet is to be sent.
  abbrev pub told : Bool → ℕ → ConnectionImpl P → World P → World P
  told again f c w = record w {
    calls =
        if again
        then w.calls ++ (f, Call.on_connection_pollable (c.connection_handle % 2 ^ 32)) ∷ []
        else w.calls;
  }

  finish_read-told :
      (f : ℕ) (again : Bool) (chunks : P.Chunks) (i : P.Connection) (c : ConnectionImpl P)
      (w : World P)
      → P.finalize chunks ≡ (again, i)
      → w.callbacks Slot.connection_pollable ≡ some f
      → finish_read false chunks (c, w) ≡ (ok tt, (record c { inner = i }, told again f c w))
  unfolding finish_read
  finish_read-told f true chunks i c w x h =
      rw (x, mark_pollable-calls f (record c { inner = i }) w h) refl
  finish_read-told f false chunks i c w x h = rw x refl

  read_next-ends :
      (buf len actual old f : ℕ) (mem : List ℕ) (o : P.ReadError ⊎ Option (List ℕ)) (again : Bool)
      (chunks : P.Chunks) (i : P.Connection) (c : ConnectionImpl P) (w : World P)
      → P.finalize chunks ≡ (again, i)
      → lookup buf w.buffers ≡ some mem
      → len ≤ length mem
      → lookup actual w.words ≡ some old
      → w.callbacks Slot.connection_pollable ≡ some f
      → read_next false buf len actual o chunks (c, w) ≡ (
        read_exit P o,
        (record c { inner = i }, told again f c (read_into o buf len actual mem w)),
      )
  unfolding read_next
  read_next-ends buf len actual old f mem (inl e) again chunks i c w x b l a h =
      rw (finish_read-told f again chunks i c w x h) refl
  read_next-ends buf len actual old f mem (inr none) again chunks i c w x b l a h =
      finish_read-told f again chunks i c w x h
  read_next-ends buf len actual old f mem (inr (some k)) again chunks i c w x b l a h =
      let w₁ : World P = record w {
        buffers = insert buf (take len k ++ drop (min len (length k)) mem) w.buffers;
      } in
      rw
        (
          write_bytes-fits buf len k mem w b l,
          init-writes actual (min len (length k)) old w₁ a,
          finish_read-told f again chunks i c (read_into (inr (some k)) buf len actual mem w) x h,
        )
        refl

  -- What reading a stream does for every answer of the library. A chunk is copied to the front of the
  -- application's buffer, as far as it fits the length that was given, and its copied length is reported. At
  -- the end of the stream the call succeeds and writes nothing, not even a length. Where the library gives
  -- no chunk, the call fails, with `BufferBlocked` if the stream is blocked and else with the library's
  -- error, and writes nothing. In each case the application is told that the connection is to be polled if
  -- and only if the library has a packet to send. So it is without `auto-poll`, with valid pointers, the
  -- callback set, and a stream that can be read.
  pub read_stream_inner-ends :
      (n buf len actual old f : ℕ) (x : P.VarInt) (mem : List ℕ) (o : P.ReadError ⊎ Option (List ℕ))
      (again : Bool) (chunks chunks' : P.Chunks) (i : P.Connection) (c : ConnectionImpl P)
      (w : World P)
      → P.varint_from_u64 n ≡ some x
      → P.read c.inner (P.stream_of_varint x) true ≡ inr chunks
      → P.next chunks len ≡ (o, chunks')
      → P.finalize chunks' ≡ (again, i)
      → lookup buf w.buffers ≡ some mem
      → len ≤ length mem
      → lookup actual w.words ≡ some old
      → w.callbacks Slot.connection_pollable ≡ some f
      → read_stream_inner false n buf len actual (c, w) ≡ (
        read_exit P o,
        (record c { inner = i }, told again f c (read_into o buf len actual mem w)),
      )
  unfolding read_stream_inner read_chunks
  read_stream_inner-ends n buf len actual old f x mem o again chunks chunks' i c w v r nx fi b l a
        h =
      rw (stream_id-ok n x (c, w) v, r, nx)
        (read_next-ends buf len actual old f mem o again chunks' i c w fi b l a h)
