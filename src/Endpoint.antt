-- ===== src/Endpoint.antt =====
-- `EndpointImpl` of src/proto_impl/endpoint.rs. The methods run on the endpoint beside the shared
-- state; connections are reached through their `Arc`s.
pub mod Refs
pub mod Loop
pub mod Routing
pub mod Ids
pub mod Senders
pub mod Preserved
pub mod Reach
pub mod Delivery
pub mod Poll
use quinn_ffi.Prelude.{
  ℕ, zero, suc, ◌+◌, ◌%◌, ◌⊎◌, inl, inr, Option, none, some, Bool, true, false, List, [], ◌∷◌, Dict,
  lookup, insert, erase, bytes, if◌then◌else◌,
}
use quinn_ffi.ErrorKind.{Text, io_error}
use quinn_ffi.Effect.{
  M, Exit, ok, err, panic, hang, undefined, ◌>>=◌, ◌>>◌, pure, raise, never, gets, modify, lift,
  unwrap, ignore, when,
}
use quinn_ffi.Proto.{Proto, SocketAddr}
use quinn_ffi.World.{World, ConnectionImpl, EndpointImpl, ConnectionEvent, EndpointEvent, Shared}
use quinn_ffi.World.Mpsc.{
  new_channel, drop_sender, try_recv_on, Received, empty, disconnected, message,
}
use quinn_ffi.World.Mutex.{with_try_lock}
use quinn_ffi.Callbacks.{on_transmit}
use quinn_ffi.Sending.{none_panic, send_connection_event, send_notice}
use quinn_ffi.Connection.{new_connection}
use quinn_ffi.Connection

abbrev pub io_loop_bound : ℕ
io_loop_bound = 160

-- -1 as an `i8`.
abbrev pub exit_notice : ℕ
exit_notice = 255

module _ (P : Proto) where
  -- Code on `&mut EndpointImpl`.
  abbrev pub Endp : Type 0 → Type 0
  Endp A = M (EndpointImpl P × World P) A

module _ {P : Proto} where
  abbrev pub connection_cells : World P → Dict (Shared (ConnectionImpl P))
  connection_cells w = w.connections

  abbrev pub put_connection_cells : World P → Dict (Shared (ConnectionImpl P)) → World P
  put_connection_cells w d = record w { connections = d }

  abbrev pub self : Endp P (EndpointImpl P)
  self = gets λ s. s.0

  abbrev pub inner : {A : Type 0} → (P.Endpoint → A × P.Endpoint) → Endp P A
  inner f (e, w) = let (a, i) = f e.inner in (ok a, (record e { inner = i }, w))

  -- `EndpointImpl::new`. The static is loaded, and 1 is added to what was loaded.
  unfoldable pub new_endpoint : P.Endpoint → M (World P) (EndpointImpl P)
  new_endpoint endpoint w = (
    ok (record {
      id = (w.endpoint_id + 1) % 256;
      inner = endpoint;
      endpoint_events_rx = w.next_id;
      endpoint_events_tx = w.next_id;
      endpoint_poll_notifier = none;
      default_client_config = none;
      connections = [];
      connection_refs = [];
    }),
    record w { endpoint_events = new_channel w.next_id w.endpoint_events; next_id = w.next_id + 1 },
  )

  unfoldable pub set_poll_notifier : ℕ → Endp P (Unit {0})
  set_poll_notifier notifier =
      modify λ s. (record s.0 { endpoint_poll_notifier = some notifier }, s.1)

  unfoldable pub set_default_client_config : P.ClientConfig → Endp P (Unit {0})
  set_default_client_config config =
      modify λ s. (record s.0 { default_client_config = some config }, s.1)

  -- A sender that leaves the map is dropped, and it is the only one of its channel.
  unfoldable pub drop_connection_sender : Option ℕ → World P → World P
  drop_connection_sender none w = w
  drop_connection_sender (some k) w = record w {
    connection_events = drop_sender k w.connection_events;
  }

  -- `self.connections.insert(handle, send)` and `self.connections.remove(&handle)`.
  unfoldable pub insert_sender : ℕ → ℕ → Endp P (Unit {0})
  unfolding drop_connection_sender
  insert_sender handle k = modify λ s. (
    record s.0 { connections = insert handle k s.0.connections },
    drop_connection_sender (lookup handle s.0.connections) s.1,
  )

  unfoldable pub remove_sender : ℕ → Endp P (Unit {0})
  unfolding drop_connection_sender
  remove_sender handle = modify λ s. (
    record s.0 { connections = erase handle s.0.connections },
    drop_connection_sender (lookup handle s.0.connections) s.1,
  )

  -- `mpsc::channel()` for the events of a connection: the channel's number.
  unfoldable pub connection_channel : M (World P) ℕ
  connection_channel w = (
    ok w.next_id,
    record w {
      connection_events = new_channel w.next_id w.connection_events;
      next_id = w.next_id + 1;
    },
  )

  unfoldable pub add_connection : ℕ → P.Connection → Endp P (ConnectionImpl P)
  unfolding connection_channel insert_sender
  add_connection handle connection = do
    k ← lift connection_channel
    insert_sender handle k
    e ← self
    lift (new_connection connection handle k e.endpoint_events_tx e.endpoint_poll_notifier)

  -- `self.connections.get_mut(&handle).unwrap().send(ConnectionEvent::Proto(event))?`.
  unfoldable pub forward_event_to_connection : ℕ → P.ConnectionEvent → Endp P (Unit {0})
  forward_event_to_connection handle event = do
    e ← self
    sender ← unwrap none_panic (lookup handle e.connections)
    lift (send_connection_event sender (ConnectionEvent.proto event))

  connect_result : P.ConnectError ⊎ (ℕ × P.Connection) → Endp P (P.ConnectError ⊎ ConnectionImpl P)
  connect_result (inl e) = pure (inl e)
  connect_result (inr (ch, conn)) = do c ← add_connection ch conn; pure (inr c)

  unfoldable pub connect_with :
      P.ClientConfig → SocketAddr → Text → Endp P (P.ConnectError ⊎ ConnectionImpl P)
  unfolding connect_result
  connect_with config addr server_name = do
    r ← inner λ i. P.connect i config addr server_name
    connect_result r

  unfoldable pub connect : SocketAddr → Text → Endp P (P.ConnectError ⊎ ConnectionImpl P)
  connect addr server_name = do
    e ← self
    elim e.default_client_config [
      | some config ↦ connect_with config addr server_name
      | none ↦ pure (inl P.no_default_client_config)
    ]

  -- The callback with a datagram to send.
  unfoldable pub notify_transmit : P.Transmit → Endp P (Unit {0})
  notify_transmit t = do e ← self; lift (on_transmit P e.id t)

  -- `while let Some(transmit) = self.inner.poll_transmit()`.
  unfoldable pub transmit_loop : ℕ → Endp P (Unit {0})
  transmit_loop zero = never
  transmit_loop (suc fuel) =
      let again = transmit_loop fuel in
      do
        transmit ← inner P.endpoint_poll_transmit
        elim transmit [ none ↦ pure tt | some t ↦ notify_transmit t >> again ]

  answer : ℕ → Option P.ConnectionEvent → Endp P (Unit {0})
  answer handle none = pure tt
  answer handle (some event) = forward_event_to_connection handle event

  -- One message of a connection.
  unfoldable pub endpoint_event : ℕ → EndpointEvent P → Endp P (Unit {0})
  unfolding answer
  endpoint_event handle (EndpointEvent.proto proto) = do
    when (P.is_drained proto) (remove_sender handle)
    event ← inner λ i. P.endpoint_handle_event i handle proto
    answer handle event
  endpoint_event handle (EndpointEvent.transmit t) = notify_transmit t

  -- `self.endpoint_events_rx.try_recv()`.
  unfoldable pub recv_endpoint_event : Endp P (Received (ℕ × EndpointEvent P))
  recv_endpoint_event (e, w) =
      let (r, d) = try_recv_on e.endpoint_events_rx w.endpoint_events in
      (ok r, (e, record w { endpoint_events = d }))

  -- `for _ in 0..IO_LOOP_BOUND`, with the rounds left. True if the bound was met.
  unfoldable pub event_loop : ℕ → Endp P Bool
  event_loop zero = pure true
  event_loop (suc rounds) =
      let again = event_loop rounds in
      do
        r ← recv_endpoint_event
        elim r [
          | empty ↦ pure false
          | disconnected ↦ pure false
          | message (handle, event) ↦ endpoint_event handle event >> again
        ]

  unfoldable pub handle_connection_events : Endp P Bool
  handle_connection_events = event_loop io_loop_bound

  unfoldable pub poll : Endp P Bool
  poll = do
    e ← self
    transmit_loop (suc (P.endpoint_transmits_left e.inner))
    handle_connection_events
