-- ===== src/Sending.antt =====
-- `Sender::send` and `Receiver::try_recv` for each kind of channel, with the errors that `?` makes
-- of them (the `From` implementations of src/proto_impl/result.rs).
pub mod Laws
use quinn_ffi.Prelude.{ℕ, Option, none, some, bytes}
use quinn_ffi.ErrorKind.{send_error, recv_empty, recv_disconnected}
use quinn_ffi.Effect.{M, ok, err, Payload, pure, raise}
use quinn_ffi.Proto.{Proto}
use quinn_ffi.World.{World, ConnectionEvent, EndpointEvent}
use quinn_ffi.World.Mpsc.{send_on, try_recv_on, Received, empty, disconnected, message}

-- `Option::unwrap` met a `None`.
abbrev pub none_panic : Payload
none_panic = Payload.str (bytes "called `Option::unwrap()` on a `None` value")

abbrev pub received : {S A : Type 0} → Received A → M S A
received empty = raise recv_empty
received disconnected = raise recv_disconnected
received (message m) = pure m

module _ {P : Proto} where
  -- `Sender::send` for each kind of channel; a closed one is an `IoError`.
  unfoldable pub send_endpoint_event : ℕ → ℕ × EndpointEvent P → M (World P) (Unit {0})
  send_endpoint_event k m w = elim (send_on k m w.endpoint_events) [
    | none ↦ (err send_error, w)
    | some d ↦ (ok tt, record w { endpoint_events = d })
  ]

  unfoldable pub send_connection_event : ℕ → ConnectionEvent P → M (World P) (Unit {0})
  send_connection_event k m w = elim (send_on k m w.connection_events) [
    | none ↦ (err send_error, w)
    | some d ↦ (ok tt, record w { connection_events = d })
  ]

  unfoldable pub send_notice : ℕ → ℕ → M (World P) (Unit {0})
  send_notice k m w = elim (send_on k m w.notices) [
    | none ↦ (err send_error, w)
    | some d ↦ (ok tt, record w { notices = d })
  ]

  -- `self.connection_events.try_recv()?`.
  unfoldable pub recv_connection_event : ℕ → M (World P) (ConnectionEvent P)
  recv_connection_event k w =
      let (r, d) = try_recv_on k w.connection_events in
      received r (record w { connection_events = d })
