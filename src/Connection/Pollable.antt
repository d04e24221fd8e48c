-- ===== src/Connection/Pollable.antt =====
-- `ConnectionImpl::mark_pollable` of src/proto_impl/connection.rs without `auto-poll`.
use quinn_ffi.Prelude.{ℕ, ◌≡◌, ◌%◌, ◌^◌, refl, some, false, [], ◌∷◌, ◌++◌}
use quinn_ffi.Effect.{ok}
use quinn_ffi.Proto.{Proto}
use quinn_ffi.World.{World, ConnectionImpl, Call, Slot}
use quinn_ffi.Callbacks.{invoke}
use quinn_ffi.Connection.{mark_pollable, connection_id}

module _ {P : Proto} where
  -- The application is told that the connection is to be polled.
  pub mark_pollable-calls :
      (f : ℕ) (c : ConnectionImpl P) (v : World P)
      → v.callbacks Slot.connection_pollable ≡ some f
      → mark_pollable false (c, v) ≡ (
        ok tt,
        (
          c,
          record v {
            calls = v.calls ++ (f, Call.on_connection_pollable (c.connection_handle % 2 ^ 32)) ∷ [];
          },
        ),
      )
  unfolding mark_pollable connection_id invoke
  mark_pollable-calls f c v h = rw (h, invoke) refl
