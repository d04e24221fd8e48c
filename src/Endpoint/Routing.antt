-- ===== src/Endpoint/Routing.antt =====
-- How an endpoint finds the connection that an event is for.
use quinn_ffi.Prelude.{
  ℕ, ◌+◌, ◌≡◌, ◌≢◌, ◌⊎◌, lookup-erase, refl, ap, Option, none, some, true, lookup, insert, arith,
  lookup-insert_self, lookup-erase_self,
}
use quinn_ffi.Effect.{ok, panic}
use quinn_ffi.Proto.{Proto}
use quinn_ffi.World.{World, EndpointImpl, ConnectionImpl, ConnectionEvent, EndpointEvent}
use quinn_ffi.World.Mpsc.{new_channel}
use quinn_ffi.World.Mpsc.Fifo.{push, fresh, recv-push-fresh, new_channel-fresh, drop_sender-fresh}
use quinn_ffi.World.Clock.{now}
use quinn_ffi.Sending.{none_panic, recv_connection_event}
use quinn_ffi.Sending.Laws.{send_connection_event-push}
use quinn_ffi.Connection.{new_connection}
use quinn_ffi.Endpoint.{
  add_connection, remove_sender, forward_event_to_connection, endpoint_event,
  drop_connection_sender,
}

module _ {P : Proto} where
  -- An event for a connection that the endpoint does not know is not ignored: it panics.
  pub forward-unknown :
      (handle : ℕ) (event : P.ConnectionEvent) (e : EndpointImpl P) (w : World P)
      → lookup handle e.connections ≡ none
      → forward_event_to_connection handle event (e, w) ≡ (panic none_panic, (e, w))
  unfolding forward_event_to_connection
  forward-unknown handle event e w h = ground arith

  -- If the library answers an event of a connection that the endpoint does not know, or of one that this
  -- event drains, `endpoint_event` panics.
  pub endpoint_event-forgotten :
      (handle : ℕ) (event : P.EndpointEvent) (answered : P.ConnectionEvent) (e : EndpointImpl P)
      (w : World P)
      → (lookup handle e.connections ≡ none) ⊎ (P.is_drained event ≡ true)
      → (P.endpoint_handle_event e.inner handle event).0 ≡ some answered
      → (endpoint_event handle (EndpointEvent.proto event) (e, w)).0 ≡ panic none_panic
  unfolding endpoint_event remove_sender forward_event_to_connection
  endpoint_event-forgotten handle event answered e w h a =
      ground
        (arith, lookup-erase_self handle e.connections, lookup-erase handle handle e.connections)

  -- Dropping the sender of another channel leaves a new channel as it is.
  dropped-fresh :
      (k : ℕ) (before : Option ℕ) (w : World P)
      → before ≢ some k
      → lookup k w.connection_events ≡ some fresh
      → lookup k (drop_connection_sender before w).connection_events ≡ some fresh
  unfolding drop_connection_sender
  dropped-fresh k none w n h = h
  dropped-fresh k (some j) w n h =
      drop_sender-fresh k j w.connection_events (λ e. n (ap {B = Option ℕ} some e)) h

  forward-push :
      (handle k : ℕ) (event : P.ConnectionEvent) (e : EndpointImpl P) (w : World P)
      → lookup handle e.connections ≡ some k
      → lookup k w.connection_events ≡ some fresh
      → forward_event_to_connection handle event (e, w) ≡ (
        ok tt,
        (
          e,
          record w { connection_events = push k (ConnectionEvent.proto event) w.connection_events },
        ),
      )
  unfolding forward_event_to_connection
  forward-push handle k event e w h f =
      ground (arith, send_connection_event-push k (ConnectionEvent.proto event) w (fresh, f, refl))

  recv-fresh :
      (k : ℕ) (event : P.ConnectionEvent) (w : World P)
      → lookup k w.connection_events ≡ some fresh
      → (recv_connection_event k (record w {
        connection_events = push k (ConnectionEvent.proto event) w.connection_events;
      })).0
        ≡ ok (ConnectionEvent.proto event)
  unfolding recv_connection_event
  recv-fresh k event w h =
      ground (arith, recv-push-fresh k (ConnectionEvent.proto event) w.connection_events h)

  -- The state after a connection is added.
  abbrev added : ℕ → EndpointImpl P → World P → EndpointImpl P × World P
  added handle e w = (
    record e { connections = insert handle w.next_id e.connections },
    drop_connection_sender (lookup handle e.connections) (record w {
      connection_events = new_channel w.next_id w.connection_events;
      next_id = w.next_id + 1;
    }),
  )

  -- The connection that `add_connection` returns is the one that the endpoint's events reach: the first
  -- event forwarded under its handle is what its next `try_recv` gives. So it is where the fresh number is
  -- that of no sender, also if the handle was known before.
  pub add-forward-recv :
      (handle : ℕ) (conn : P.Connection) (event : P.ConnectionEvent) (e : EndpointImpl P)
      (w : World P)
      → lookup handle e.connections ≢ some w.next_id
      → let (r, (e₁, w₁)) = add_connection handle conn (e, w) in
        (c : ConnectionImpl P) × (w₂ : World P) × (r ≡ ok c)
        × (c.connection_handle ≡ handle)
        × (forward_event_to_connection handle event (e₁, w₁) ≡ (ok tt, (e₁, w₂)))
        × ((recv_connection_event c.connection_events w₂).0 ≡ ok (ConnectionEvent.proto event))
  unfolding add_connection new_connection now
  add-forward-recv handle conn event e w h =
      let k = w.next_id in
      let (e₁, w₁) = added handle e w in
      let f : lookup k w₁.connection_events ≡ some fresh =
        dropped-fresh k (lookup handle e.connections) _ h
          (new_channel-fresh k w.connection_events) in
      let w' : World P = record w₁ { reads = w₁.reads + 1 } in
      (
        record {
          inner = conn;
          connection_handle = handle;
          connection_events = k;
          endpoint_events = e.endpoint_events_tx;
          timer_deadline = none;
          last_poll = w₁.clock w₁.reads;
          endpoint_poll_notifier = e.endpoint_poll_notifier;
        },
        record w' { connection_events = push k (ConnectionEvent.proto event) w₁.connection_events },
        refl,
        refl,
        forward-push handle k event e₁ w' (lookup-insert_self handle k e.connections) f,
        recv-fresh k event w' f,
      )
