-- ===== src/Endpoint/Preserved.antt =====
-- What the methods of `EndpointImpl` preserve, when what they are made of preserves it.
use quinn_ffi.Prelude.{ℕ, zero, suc, Option, none, some, Bool, false, inl, inr, ◌⊎◌, lookup}
use quinn_ffi.ErrorKind.{Text}
use quinn_ffi.Effect.{lift, ◌>>◌, pure, unwrap, when}
use quinn_ffi.Effect.Laws.{Preserves, >>=-Preserves, when-Preserves}
use quinn_ffi.Proto.{Proto, SocketAddr}
use quinn_ffi.World.{World, ConnectionImpl, EndpointImpl, EndpointEvent, ConnectionEvent}
use quinn_ffi.World.Mpsc.{try_recv_on, Received, empty, disconnected, message}
use quinn_ffi.Sending.{none_panic, send_connection_event}
use quinn_ffi.Endpoint
use quinn_ffi.Endpoint.{
  Endp, inner, forward_event_to_connection, notify_transmit, answer, endpoint_event, event_loop,
  recv_endpoint_event, handle_connection_events, transmit_loop, poll, connect_result, connect_with,
  connect, add_connection, remove_sender, io_loop_bound,
}

-- The parts: the library's calls, and each way to change the state.
pub record PartsPreserve {P : Proto} (I : EndpointImpl P × World P → Type 0) : Type 1 where
  pub inner : {A : Type 0} (f : P.Endpoint → A × P.Endpoint) → Preserves I (Endpoint.inner f)
  pub transmitted : (t : P.Transmit) → Preserves I (notify_transmit t)
  pub sent :
      (k : ℕ) (event : ConnectionEvent P)
      → Preserves I (lift {R = EndpointImpl P} (send_connection_event k event))
  pub received : Preserves I recv_endpoint_event
  pub removed : (handle : ℕ) → Preserves I (remove_sender handle)
  pub added : (handle : ℕ) (conn : P.Connection) → Preserves I (add_connection handle conn)

module _ {P : Proto} (I : EndpointImpl P × World P → Type 0) (a : PartsPreserve I) where
  abbrev Keeps : {A : Type 0} → Endp P A → Type 0
  Keeps m = Preserves I m

  unwrap-Preserves : {A : Type 0} (o : Option A) → Keeps (unwrap none_panic o)
  unwrap-Preserves none s i = i
  unwrap-Preserves (some a) s i = i

  pub forward-Preserves :
      (handle : ℕ) (event : P.ConnectionEvent) → Keeps (forward_event_to_connection handle event)
  unfolding forward_event_to_connection
  forward-Preserves handle event s =
      >>=-Preserves I (unwrap none_panic (lookup handle s.0.connections))
        (λ sender. lift (send_connection_event sender (ConnectionEvent.proto event)))
        (unwrap-Preserves (lookup handle s.0.connections))
        (λ sender. a.sent sender (ConnectionEvent.proto event)) s

  answer-Preserves : (handle : ℕ) (o : Option P.ConnectionEvent) → Keeps (answer handle o)
  unfolding answer
  answer-Preserves handle none s i = i
  answer-Preserves handle (some event) s i = forward-Preserves handle event s i

  endpoint_event-Preserves :
      (handle : ℕ) (event : EndpointEvent P) → Keeps (endpoint_event handle event)
  unfolding endpoint_event
  endpoint_event-Preserves handle (EndpointEvent.proto proto) =
      >>=-Preserves I (when (P.is_drained proto) (remove_sender handle)) _
        (when-Preserves I (P.is_drained proto) (remove_sender handle) (a.removed handle))
        λ _.
          >>=-Preserves I (inner λ i. P.endpoint_handle_event i handle proto) (answer handle)
            (a.inner λ i. P.endpoint_handle_event i handle proto) (answer-Preserves handle)
  endpoint_event-Preserves handle (EndpointEvent.transmit t) = a.transmitted t

  received-Preserves :
      (rest : Endp P Bool) (r : Received (ℕ × EndpointEvent P))
      → Keeps rest
      → Keeps {A = Bool} (elim r [
        | empty ↦ pure false
        | disconnected ↦ pure false
        | message (handle, event) ↦ endpoint_event handle event >> rest
      ])
  received-Preserves rest empty k s i = i
  received-Preserves rest disconnected k s i = i
  received-Preserves rest (message (handle, event)) k s i =
      >>=-Preserves I (endpoint_event handle event) (λ _. rest)
        (endpoint_event-Preserves handle event) (λ _. k) s i

  event_loop-Preserves : (rounds : ℕ) → Keeps (event_loop rounds)
  unfolding event_loop recv_endpoint_event
  event_loop-Preserves zero s i = i
  event_loop-Preserves (suc rounds) s i =
      received-Preserves (event_loop rounds)
        (try_recv_on s.0.endpoint_events_rx s.1.endpoint_events).0 (event_loop-Preserves rounds)
        (recv_endpoint_event s).1 (a.received s i)

  polled-Preserves :
      (rest : Endp P (Unit {0})) (transmit : Option P.Transmit)
      → Keeps rest
      → Keeps {A = Unit {0}} (elim transmit [ none ↦ pure tt | some t ↦ notify_transmit t >> rest ])
  polled-Preserves rest none k s i = i
  polled-Preserves rest (some t) k s i =
      >>=-Preserves I (notify_transmit t) (λ _. rest) (a.transmitted t) (λ _. k) s i

  transmit_loop-Preserves : (fuel : ℕ) → Keeps (transmit_loop fuel)
  unfolding transmit_loop
  transmit_loop-Preserves zero s i = i
  transmit_loop-Preserves (suc fuel) s i =
      polled-Preserves (transmit_loop fuel) (P.endpoint_poll_transmit s.0.inner).0
        (transmit_loop-Preserves fuel) (inner P.endpoint_poll_transmit s).1
        (a.inner P.endpoint_poll_transmit s i)

  pub poll-Preserves : Keeps (poll)
  unfolding poll handle_connection_events
  poll-Preserves s =
      >>=-Preserves I (transmit_loop (suc (P.endpoint_transmits_left s.0.inner)))
        (λ _. event_loop io_loop_bound)
        (transmit_loop-Preserves (suc (P.endpoint_transmits_left s.0.inner)))
        (λ _. event_loop-Preserves io_loop_bound) s

  connect_result-Preserves : (r : P.ConnectError ⊎ (ℕ × P.Connection)) → Keeps (connect_result r)
  unfolding connect_result
  connect_result-Preserves (inl e) = λ s i. i
  connect_result-Preserves (inr (ch, conn)) =
      >>=-Preserves I (add_connection ch conn) _ (a.added ch conn) λ c s i. i

  pub connect_with-Preserves :
      (config : P.ClientConfig) (addr : SocketAddr) (name : Text)
      → Keeps (connect_with config addr name)
  unfolding connect_with
  connect_with-Preserves config addr name =
      >>=-Preserves I (inner λ i. P.connect i config addr name) connect_result
        (a.inner λ i. P.connect i config addr name) connect_result-Preserves

  configured-Preserves :
      (config : Option P.ClientConfig) (addr : SocketAddr) (name : Text)
      → Keeps {A = P.ConnectError ⊎ ConnectionImpl P} (elim config [
        | some c ↦ connect_with c addr name
        | none ↦ pure (inl P.no_default_client_config)
      ])
  configured-Preserves none addr name s i = i
  configured-Preserves (some c) addr name s i = connect_with-Preserves c addr name s i

  pub connect-Preserves : (addr : SocketAddr) (name : Text) → Keeps (connect addr name)
  unfolding connect
  connect-Preserves addr name s = configured-Preserves s.0.default_client_config addr name s
