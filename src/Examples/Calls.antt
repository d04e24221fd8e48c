-- ===== src/Examples/Calls.antt =====
-- The theorems on whole calls, at concrete inputs.
use quinn_ffi.Prelude.{
  ℕ, ◌≡◌, ◌^◌, refl, inl, inr, none, some, true, false, [], ◌∷◌, bytes, arith, lookup, insert,
}
use quinn_ffi.ErrorKind.{io_error}
use quinn_ffi.Effect.{ok, err, gets}
use quinn_ffi.World.{World, Shared, ConnectionImpl}
use quinn_ffi.FfiResult.{ok_result, err_result, set_last}
use quinn_ffi.FfiResult.Laws.{clear_last}
use quinn_ffi.Handle.{server_config_access}
use quinn_ffi.Bindings.Streams.{read_stream, read_stream_inner}
use quinn_ffi.Bindings.Streams.Reading.{stream_id-refuses}
use quinn_ffi.Bindings.Connections.Calls.{connection_call-reported}
use quinn_ffi.Bindings.Configs.{Rustls, create_server_config}
use quinn_ffi.Bindings.Configs.Created.{create_server_config-access, create_server_config-rejects}
use quinn_ffi.Examples.Toy.{toy, toy-IsVarInt}
use quinn_ffi.Examples.Worlds.{world, connection, shared}

abbrev held_cell : Shared (ConnectionImpl toy)
held_cell = record (shared connection) { locked = true }

-- During the call.
abbrev held : World toy
held = record (clear_last world) { connections = insert 20 held_cell world.connections }

held_lem :
    (lookup 40 world.connection_boxes ≡ some 20)
    × (lookup 20 world.connections ≡ some (shared connection))
    × (lookup 20 held.connections ≡ some held_cell)
unfolding lookup insert
held_lem = (refl, refl, refl)

connection_call-reported_example : read_stream true 40 (2 ^ 62) 61 4 50 world ≡ (
  ok err_result,
  set_last
      (io_error (bytes "value too large for varint encoding"))
      (record held { connections = insert 20 (shared connection) held.connections }),
)
unfolding read_stream
connection_call-reported_example =
    connection_call-reported
      ((bytes "handle", false)
        ∷ (bytes "stream_id", false)
        ∷ (bytes "message_buf", false)
        ∷ (bytes "message_buf_len", false)
        ∷ (bytes "actual_message_len", false)
        ∷ [])
      40 20 (read_stream_inner true (2 ^ 62) 61 4 50) (shared connection) held_cell
      (err (io_error (bytes "value too large for varint encoding"))) connection world held refl
      held_lem.0 held_lem.1 refl refl
      (stream_id-refuses toy-IsVarInt true (2 ^ 62) 61 4 50 (connection, held) (omega arith)).0
      held_lem.2 refl

-- One that takes any certificate, and one that takes none.
abbrev toy_rustls : Rustls toy
toy_rustls = record {
  add_root = λ c. none;
  server_crypto = λ c k. inr 5;
  client_crypto = λ root c k. inr 6;
}

abbrev strict_rustls : Rustls toy
strict_rustls = record toy_rustls { server_crypto = λ c k. inl (bytes "InvalidCertificate") }

memory_lem : (lookup 60 world.buffers ≡ some (b'h' ∷ b'i' ∷ [])) × (lookup 50 world.words ≡ some 0)
unfolding lookup
memory_lem = (refl, refl)

create_server_config-access_example :
    let (r, w') = create_server_config toy_rustls 50 60 2 60 1 world in
    (handle : ℕ) × (r ≡ ok ok_result)
    × (lookup 50 w'.words ≡ some handle)
    × ((server_config_access handle (gets λ s. s.0) w').0 ≡ ok 5)
create_server_config-access_example =
    create_server_config-access toy_rustls 50 60 2 60 1 0 (b'h' ∷ b'i' ∷ []) (b'h' ∷ b'i' ∷ []) 5
      world refl memory_lem.0 (omega arith) memory_lem.0 (omega arith) refl refl memory_lem.1

create_server_config-rejects_example :
    create_server_config strict_rustls 50 60 2 60 1 world ≡ (ok err_result, clear_last world)
create_server_config-rejects_example =
    create_server_config-rejects strict_rustls 50 60 2 60 1 (b'h' ∷ b'i' ∷ []) (b'h' ∷ b'i' ∷ [])
      (bytes "InvalidCertificate") world refl memory_lem.0 (omega arith) memory_lem.0 (omega arith)
      refl refl
