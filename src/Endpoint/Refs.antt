-- ===== src/Endpoint/Refs.antt =====
-- The methods of `EndpointImpl` that reach or drop its connections.
pub mod Closed
pub mod Counted
pub mod Removed
pub mod Parts
use quinn_ffi.Prelude.{ℕ, Option, none, some, Bool, [], ◌∷◌, Dict, lookup, insert, erase, bytes}
use quinn_ffi.ErrorKind.{io_error}
use quinn_ffi.Effect.{M, ◌>>=◌, ◌>>◌, pure, raise, modify, lift, ignore}
use quinn_ffi.Proto.{Proto}
use quinn_ffi.World.{World}
use quinn_ffi.World.Mutex.{with_try_lock}
use quinn_ffi.World.Arcs.{drop_connection_arc, drop_connection_arcs}
use quinn_ffi.Sending.{send_notice}
use quinn_ffi.Connection
use quinn_ffi.Endpoint.{
  Endp, self, connection_cells, put_connection_cells, drop_connection_sender, remove_sender,
  exit_notice,
}

module _ {P : Proto} where
  -- An `Arc` that leaves the map is dropped.
  unfoldable pub drop_ref : Option ℕ → World P → World P
  drop_ref none w = w
  drop_ref (some k) w = drop_connection_arc k w

  unfoldable pub drop_senders : Dict ℕ → World P → World P
  drop_senders [] w = w
  drop_senders ((handle, k) ∷ d) w = drop_senders d (drop_connection_sender (some k) w)

  unfoldable pub register_pollable_connection : ℕ → ℕ → Endp P (Unit {0})
  unfolding drop_ref
  register_pollable_connection handle connection = modify λ s. (
    record s.0 { connection_refs = insert handle connection s.0.connection_refs },
    drop_ref (lookup handle s.0.connection_refs) s.1,
  )

  unfoldable pub remove_ref : ℕ → Endp P (Unit {0})
  unfolding drop_ref
  remove_ref handle = modify λ s. (
    record s.0 { connection_refs = erase handle s.0.connection_refs },
    drop_ref (lookup handle s.0.connection_refs) s.1,
  )

  unfoldable pub remove_connection : ℕ → Endp P (Unit {0})
  remove_connection handle = remove_ref handle >> remove_sender handle

  unfoldable pub send_exit : Option ℕ → M (World P) (Unit {0})
  send_exit none = pure tt
  send_exit (some k) = ignore (send_notice k exit_notice)

  unfoldable pub close : Endp P (Unit {0})
  unfolding send_exit drop_senders
  close = do
    e ← self
    lift (send_exit e.endpoint_poll_notifier)
    modify λ s. (record s.0 { connections = [] }, drop_senders s.0.connections s.1)
    modify λ s. (record s.0 { connection_refs = [] }, drop_connection_arcs s.0.connection_refs s.1)

module _ {P : Proto} (auto_poll : Bool) where
  unfoldable pub poll_connection : ℕ → Endp P (Unit {0})
  poll_connection handle = do
    e ← self
    elim (lookup handle e.connection_refs) [
      | none ↦ pure tt
      | some k ↦
          let skipped = raise (io_error (bytes "Locked endpoint connection lock")) in
          lift (
            with_try_lock connection_cells put_connection_cells k
              (Connection.mark_pollable auto_poll) skipped skipped)
    ]
