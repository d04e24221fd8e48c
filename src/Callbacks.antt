-- ===== src/Callbacks.antt =====
-- `mod callbacks` of src/ffi/bindings.rs: the statics with the application's functions, the setters
-- and the invokers. A call of the application is recorded, with the function that it reaches.
pub mod Laws
pub mod Latest
use quinn_ffi.Prelude.{ℕ, ◌==◌, none, some, [], ◌∷◌, ◌++◌, length, if◌then◌else◌}
use quinn_ffi.Effect.{M, ok, undefined, ◌>>=◌}
use quinn_ffi.Proto.{Proto, dir_as_u8}
use quinn_ffi.Addr.{from_socket_addr}
use quinn_ffi.World.{World, Slot, Call}

abbrev pub slot_index : Slot → ℕ
slot_index Slot.new_connection = 0
slot_index Slot.connected = 1
slot_index Slot.connection_lost = 2
slot_index Slot.stream_writable = 3
slot_index Slot.stream_readable = 4
slot_index Slot.stream_finished = 5
slot_index Slot.stream_stopped = 6
slot_index Slot.stream_available = 7
slot_index Slot.datagram_received = 8
slot_index Slot.stream_opened = 9
slot_index Slot.transmit = 10
slot_index Slot.connection_pollable = 11

-- The static that an invoker reads.
abbrev pub slot_of : Call → Slot
slot_of (Call.on_new_connection h con e) = Slot.new_connection
slot_of (Call.on_connected con) = Slot.connected
slot_of (Call.on_connection_lost con reason len) = Slot.connection_lost
slot_of (Call.on_stream_writable con id dir) = Slot.stream_writable
slot_of (Call.on_stream_readable con id dir) = Slot.stream_readable
slot_of (Call.on_stream_finished con id dir) = Slot.stream_finished
slot_of (Call.on_stream_stopped con id dir) = Slot.stream_stopped
slot_of (Call.on_stream_available con dir) = Slot.stream_available
slot_of (Call.on_datagram_received con) = Slot.datagram_received
slot_of (Call.on_stream_opened con id dir) = Slot.stream_opened
slot_of (Call.on_transmit e contents len address) = Slot.transmit
slot_of (Call.on_connection_pollable con) = Slot.connection_pollable

module _ {P : Proto} where
  -- `set_callbacks!`: `$body = Some(callback)`.
  unfoldable pub set_callback : Slot → ℕ → World P → World P
  set_callback slot f w = record w {
    callbacks = λ s. if slot_index slot == slot_index s then some f else w.callbacks s;
  }

  -- `set_invokers!`: `$name.unwrap_unchecked()(...)`, undefined while the static is `None`.
  unfoldable pub invoke : Call → M (World P) (Unit {0})
  invoke call w = elim (w.callbacks (slot_of call)) [
    | none ↦ (undefined, w)
    | some f ↦ (ok tt, record w { calls = w.calls ++ (f, call) ∷ [] })
  ]

-- The invokers that convert their arguments: `call (con, VarInt::from(stream_id).into(), dir)`.
module _ (P : Proto) where
  abbrev pub stream_u64 : ℕ → ℕ
  stream_u64 id = P.into_inner (P.varint_of_stream id)

  abbrev pub stream_dir_u8 : ℕ → ℕ
  stream_dir_u8 id = dir_as_u8 (P.stream_dir id)

  abbrev pub on_stream_readable : ℕ → ℕ → M (World P) (Unit {0})
  on_stream_readable con id =
      invoke (Call.on_stream_readable con (stream_u64 id) (stream_dir_u8 id))

  abbrev pub on_stream_writable : ℕ → ℕ → M (World P) (Unit {0})
  on_stream_writable con id =
      invoke (Call.on_stream_writable con (stream_u64 id) (stream_dir_u8 id))

  abbrev pub on_stream_finished : ℕ → ℕ → M (World P) (Unit {0})
  on_stream_finished con id =
      invoke (Call.on_stream_finished con (stream_u64 id) (stream_dir_u8 id))

  abbrev pub on_stream_stopped : ℕ → ℕ → M (World P) (Unit {0})
  on_stream_stopped con id = invoke (Call.on_stream_stopped con (stream_u64 id) (stream_dir_u8 id))

  abbrev send_transmit : ℕ → P.Transmit → M (World P) (Unit {0})
  send_transmit endpoint_id t = do
    address ← from_socket_addr (P.destination t)
    invoke (Call.on_transmit endpoint_id (P.contents t) (length (P.contents t)) address)

  -- The static is read before the arguments: an address that does not fit panics only if it is set.
  unfoldable pub on_transmit : ℕ → P.Transmit → M (World P) (Unit {0})
  on_transmit endpoint_id t w = elim (w.callbacks Slot.transmit) [
    | none ↦ (undefined, w)
    | some f ↦ send_transmit endpoint_id t w
  ]
