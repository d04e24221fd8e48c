-- ===== src/Bindings/Streams.antt =====
-- The functions on streams, and their helpers `_read_stream`, `_write_stream`, `_stream_id` and
-- `dir_from_u8`.
pub mod Reading
pub mod Outcomes
use quinn_ffi.Prelude.{
  ℕ, ◌==◌, ◌⊎◌, inl, inr, Option, none, some, Bool, true, false, List, [], ◌∷◌, bytes,
  if◌then◌else◌,
}
use quinn_ffi.ErrorKind.{FfiResultKind, io_error, ffi_result_kind}
use quinn_ffi.Effect.{M, ◌>>=◌, ◌>>◌, pure, raise, lift, when}
use quinn_ffi.Proto.{Proto, Dir}
use quinn_ffi.World.{World}
use quinn_ffi.World.Memory.{is_null, init, as_bytes, write_bytes}
use quinn_ffi.Connection.{Conn, self, inner, inner_, mark_pollable}
use quinn_ffi.FfiResult.{FfiResult, into_result}
use quinn_ffi.Api.{safe_ffi}
use quinn_ffi.Handle.{connection_access}

unfoldable pub dir_from_u8 : ℕ → Dir
dir_from_u8 dir = if dir == 0 then Dir.bi else Dir.uni

-- `_stream_id_to_u64`.
unfoldable pub stream_id_to_u64 : Proto → ℕ → ℕ
stream_id_to_u64 P id = P.into_inner (P.varint_of_stream id)

module _ {P : Proto} where
  stream_of : Option P.VarInt → Conn P ℕ
  stream_of none = raise (io_error P.varint_error_text)
  stream_of (some v) = pure (P.stream_of_varint v)

  -- `_stream_id`, with the conversion that `?` makes of its error.
  unfoldable pub stream_id : ℕ → Conn P ℕ
  unfolding stream_of
  stream_id n = stream_of (P.varint_from_u64 n)

module _ {P : Proto} (auto_poll : Bool) where
  -- `if result.finalize().should_transmit() { handle.mark_pollable()?; }`: the chunks give the
  -- connection back.
  unfoldable pub finish_read : P.Chunks → Conn P (Unit {0})
  finish_read chunks = do
    inner_ λ _. (P.finalize chunks).1
    when (P.finalize chunks).0 (mark_pollable auto_poll)

  -- The arms of `match result.next(message_buf_len)`.
  read_next : ℕ → ℕ → ℕ → P.ReadError ⊎ Option (List ℕ) → P.Chunks → Conn P (Unit {0})
  unfolding finish_read
  read_next buf len actual (inr (some chunk)) chunks = do
    written ← lift (write_bytes buf len chunk)
    lift (init actual written)
    finish_read chunks
  read_next buf len actual (inl e) chunks = do
    finish_read chunks
    raise (
        if P.is_blocked e
        then ffi_result_kind FfiResultKind.buffer_blocked
        else io_error (P.read_error_text e))
  read_next buf len actual (inr none) chunks = finish_read chunks

  -- `stream.read(true)?`.
  read_chunks : ℕ → ℕ → ℕ → (P.ReadableError × P.Connection) ⊎ P.Chunks → Conn P (Unit {0})
  unfolding read_next
  read_chunks buf len actual (inl (e, i)) = do
    inner_ λ _. i
    raise (io_error (P.readable_error_text e))
  read_chunks buf len actual (inr chunks) =
      let (r, chunks') = P.next chunks len in read_next buf len actual r chunks'

  -- `_read_stream`.
  unfoldable pub read_stream_inner : ℕ → ℕ → ℕ → ℕ → Conn P (Unit {0})
  unfolding read_chunks stream_id
  read_stream_inner id buf len actual = do
    sid ← stream_id id
    c ← self
    read_chunks buf len actual (P.read c.inner sid true)

  written : ℕ → P.WriteError ⊎ ℕ → Conn P (Unit {0})
  written out (inl e) = raise (io_error (P.write_error_text e))
  written out (inr n) = do lift (init out n); mark_pollable auto_poll

  -- `_write_stream`.
  unfoldable pub write_stream_inner : ℕ → ℕ → ℕ → ℕ → Conn P (Unit {0})
  unfolding written stream_id
  write_stream_inner id buffer len out = do
    sid ← stream_id id
    bs ← lift (as_bytes buffer len)
    r ← inner λ i. P.write i sid bs
    written out r

  accept_result : ℕ → Option ℕ → Conn P (Unit {0})
  accept_result out none = raise (io_error (bytes "No stream to accept!"))
  accept_result out (some id) = do mark_pollable auto_poll; lift (init out (stream_id_to_u64 P id))

  unfoldable pub accept_stream : ℕ → ℕ → ℕ → M (World P) FfiResult
  unfolding accept_result
  accept_stream handle direction out =
      safe_ffi
        ((bytes "handle", is_null handle)
          ∷ (bytes "stream_direction", false)
          ∷ (bytes "stream_id_out", is_null out)
          ∷ [])
        (into_result (
          connection_access handle
            do id ← inner λ i. P.accept i (dir_from_u8 direction); accept_result out id))

  unfoldable pub read_stream : ℕ → ℕ → ℕ → ℕ → ℕ → M (World P) FfiResult
  read_stream handle id buf len actual =
      safe_ffi
        ((bytes "handle", is_null handle)
          ∷ (bytes "stream_id", false)
          ∷ (bytes "message_buf", is_null buf)
          ∷ (bytes "message_buf_len", false)
          ∷ (bytes "actual_message_len", is_null actual)
          ∷ [])
        (into_result (connection_access handle (read_stream_inner id buf len actual)))

  unfoldable pub write_stream : ℕ → ℕ → ℕ → ℕ → ℕ → M (World P) FfiResult
  write_stream handle id buffer len out =
      safe_ffi
        ((bytes "handle", is_null handle)
          ∷ (bytes "stream_id", false)
          ∷ (bytes "buffer", is_null buffer)
          ∷ (bytes "buf_len", false)
          ∷ (bytes "written_bytes", is_null out)
          ∷ [])
        (into_result (connection_access handle (write_stream_inner id buffer len out)))

module _ {P : Proto} where
  open_result : ℕ → Option ℕ → Conn P (Unit {0})
  open_result out (some id) = lift (init out (stream_id_to_u64 P id))
  open_result out none =
      raise (io_error (bytes "Streams in the given direction are currently exhausted"))

  unfoldable pub open_stream : ℕ → ℕ → ℕ → M (World P) FfiResult
  unfolding open_result
  open_stream handle direction out =
      safe_ffi
        ((bytes "handle", is_null handle)
          ∷ (bytes "stream_direction", false)
          ∷ (bytes "opened_stream_id", is_null out)
          ∷ [])
        (into_result (
          connection_access handle
            do id ← inner λ i. P.open_stream i (dir_from_u8 direction); open_result out id))

  unfoldable pub finish_stream : ℕ → ℕ → M (World P) FfiResult
  finish_stream handle id =
      safe_ffi ((bytes "handle", is_null handle) ∷ (bytes "stream_id", false) ∷ [])
        (into_result (connection_access handle (inner_ λ i. P.finish i id)))
