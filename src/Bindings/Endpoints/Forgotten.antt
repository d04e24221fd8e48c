-- ===== src/Bindings/Endpoints/Forgotten.antt =====
-- An event of a connection that the endpoint has forgotten.
use quinn_ffi.Prelude.{
  ℕ, ◌≡◌, refl, ◌∙◌, ap, ◌⊎◌, none, some, false, true, [], ◌∷◌, Dict, lookup, insert,
  lookup-insert_self, lookup-erase, lookup-erase_self, bytes, arith,
}
use quinn_ffi.Effect.{ok, panic, ignore}
use quinn_ffi.Proto.{Proto}
use quinn_ffi.World.{World, Shared, EndpointImpl, EndpointEvent, Channel}
use quinn_ffi.World.Memory.{is_null}
use quinn_ffi.World.Mpsc.{try_recv_on, message}
use quinn_ffi.Sending.{none_panic}
use quinn_ffi.Endpoint
use quinn_ffi.Endpoint.{
  endpoint_event, remove_sender, drop_connection_sender, forward_event_to_connection,
}
use quinn_ffi.Endpoint.Loop.{loop-oldest}
use quinn_ffi.Endpoint.Routing.{endpoint_event-forgotten}
use quinn_ffi.FfiResult.{err_result, into_result}
use quinn_ffi.FfiResult.Laws.{clear_last, catch-panic_unset, into_result-panic}
use quinn_ffi.Api.Laws.{safe_ffi-catch}
use quinn_ffi.Handle.Poison.{IsPoisoned, endpoint_access-runs}
use quinn_ffi.World.Mutex.{release}
use quinn_ffi.Handle.{endpoint_access}
use quinn_ffi.Bindings.Endpoints.{poll_endpoint}
use quinn_ffi.Bindings.Endpoints.Disposed.{first_null-none}

module _ {P : Proto} where
  -- What the panic leaves: the endpoint does not know the connection, and the cells, the boxes and the
  -- stored error are what they were.
  forgotten-left :
      (handle : ℕ) (event : P.EndpointEvent) (answered : P.ConnectionEvent) (j : P.Endpoint)
      (e : EndpointImpl P) (w : World P)
      → (lookup handle e.connections ≡ none) ⊎ (P.is_drained event ≡ true)
      → P.endpoint_handle_event e.inner handle event ≡ (some answered, j)
      → let (x, (e', w')) = endpoint_event handle (EndpointEvent.proto event) (e, w) in
        (lookup handle e'.connections ≡ none)
        × (e'.inner ≡ j)
        × (w'.endpoints ≡ w.endpoints)
        × (w'.endpoint_boxes ≡ w.endpoint_boxes)
        × (w'.last_result ≡ w.last_result)
  unfolding endpoint_event remove_sender forward_event_to_connection drop_connection_sender
  forgotten-left handle event answered j e w h a =
      ground
        (arith, lookup-erase_self handle e.connections, lookup-erase handle handle e.connections)

  poll-forgotten :
      (handle : ℕ) (event : P.EndpointEvent) (answered : P.ConnectionEvent) (i j : P.Endpoint)
      (d : Dict (Channel (ℕ × EndpointEvent P))) (e : EndpointImpl P) (w : World P)
      → P.endpoint_poll_transmit e.inner ≡ (none, i)
      → try_recv_on e.endpoint_events_rx w.endpoint_events
        ≡ (message (handle, EndpointEvent.proto event), d)
      → (lookup handle e.connections ≡ none) ⊎ (P.is_drained event ≡ true)
      → P.endpoint_handle_event i handle event ≡ (some answered, j)
      → ignore Endpoint.poll (e, w) ≡ (
        panic none_panic,
        (endpoint_event handle
            (EndpointEvent.proto event)
            (record e { inner = i }, record w { endpoint_events = d })).1,
      )
  unfolding Endpoint.poll Endpoint.transmit_loop Endpoint.handle_connection_events
  poll-forgotten handle event answered i j d e w t r h a = ground (
    arith,
    loop-oldest 159 (handle, EndpointEvent.proto event) (record e { inner = i }) w d r,
    endpoint_event-forgotten handle event answered (record e { inner = i })
        (record w { endpoint_events = d }) h (ap (λ q. q.0) a),
  )

  -- An endpoint is lost when the library answers an event of a connection that the endpoint does not know,
  -- or of one that this event drains. Where no datagram is to be sent and that event is the first message
  -- that waits, `poll_endpoint` returns `Error` and stores no error; the endpoint is poisoned, does
  -- not know the connection, and the library's endpoint has handled the event. So it is for a valid
  -- handle whose lock is free and not poisoned.
  pub poll_endpoint-forgotten :
      (p k handle : ℕ) (event : P.EndpointEvent) (answered : P.ConnectionEvent) (i j : P.Endpoint)
      (d : Dict (Channel (ℕ × EndpointEvent P))) (cell : Shared (EndpointImpl P)) (w : World P)
      → is_null p ≡ false
      → lookup p w.endpoint_boxes ≡ some k
      → lookup k w.endpoints ≡ some cell
      → cell.locked ≡ false
      → cell.poisoned ≡ false
      → P.endpoint_poll_transmit cell.value.inner ≡ (none, i)
      → (lookup handle cell.value.connections ≡ none) ⊎ (P.is_drained event ≡ true)
      → P.endpoint_handle_event i handle event ≡ (some answered, j)
      → try_recv_on cell.value.endpoint_events_rx w.endpoint_events
        ≡ (message (handle, EndpointEvent.proto event), d)
      → let (r, w') = poll_endpoint p w in
        (r ≡ ok err_result)
        × (w'.last_result ≡ none)
        × IsPoisoned p w'
        × (left : Shared (EndpointImpl P)) × (lookup k w'.endpoints ≡ some left)
        × (lookup handle left.value.connections ≡ none)
        × (left.value.inner ≡ j)
  unfolding poll_endpoint
  poll_endpoint-forgotten p k handle event answered i j d cell w z b h l po t f a r =
      let cell' = record cell { locked = true } in
      let held : World P = record (clear_last w) { endpoints = insert k cell' w.endpoints } in
      let e₁ = record cell.value { inner = i } in
      let w₁ : World P = record held { endpoint_events = d } in
      let (x, (e₂, w₂)) = endpoint_event handle (EndpointEvent.proto event) (e₁, w₁) in
      let (unknown, handled, cells, boxes, stored) =
        forgotten-left handle event answered j e₁ w₁ f a in
      let left = release {B = Unit {0}} (panic none_panic) e₂ cell' in
      let w' : World P = record w₂ { endpoints = insert k left w₂.endpoints } in
      let access =
        endpoint_access-runs p k (ignore Endpoint.poll) cell cell' (panic none_panic) e₂
          (clear_last w) w₂ b h l po
          (poll-forgotten handle event answered i j d cell.value held t r f a)
          (ap (lookup k) cells ∙ lookup-insert_self k cell' w.endpoints) in
      let call = into_result (endpoint_access p (ignore Endpoint.poll)) in
      rw
        (
          safe_ffi-catch ((bytes "handle", is_null p) ∷ []) call (first_null-none p z),
          catch-panic_unset call none_panic w w'
              (into_result-panic (endpoint_access p (ignore Endpoint.poll)) none_panic
                (clear_last w) w' access)
              stored,
        )
        (
          refl,
          stored,
          record {
            arc = k;
            cell = left;
            boxed = ap (lookup p) boxes ∙ b;
            stored = lookup-insert_self k left w₂.endpoints;
            free = refl;
            poison = refl;
          },
          left,
          lookup-insert_self k left w₂.endpoints,
          unknown,
          handled,
        )
