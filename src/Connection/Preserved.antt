-- ===== src/Connection/Preserved.antt =====
-- What the methods of `ConnectionImpl` preserve of the shared state, when what they are made of preserves it.
use quinn_ffi.Prelude.{
  ℕ, ◌+◌, ltb, Bool-cases, inl, inr, zero, suc, ◌^◌, ◌%◌, Bool, true, false, Option, none, some,
  length,
}
use quinn_ffi.Effect.{M, lift, ignore, when, unwrap, pure, ◌>>◌, ◌>>=◌}
use quinn_ffi.Effect.Laws.{Preserves, >>=-Preserves, when-Preserves}
use quinn_ffi.Proto.{
  Proto, Dir, dir_as_u8, Event, handshake_data_ready, connected, connection_lost, stream,
  datagram_received, writable, opened, readable, available, finished, stopped,
}
use quinn_ffi.World.{World, ConnectionImpl, ConnectionEvent, EndpointEvent, Call}
use quinn_ffi.World.Clock.{now}
use quinn_ffi.Callbacks.{invoke, stream_u64, stream_dir_u8}
use quinn_ffi.Sending.{none_panic, send_endpoint_event, send_notice, recv_connection_event}
use quinn_ffi.Connection.{
  Conn, inner, connection_id, apply_connection_event, handle_connection_events, fire_timer,
  arm_timer, handle_timer, transmit_loop, handle_transmits, notify, endpoint_event_loop,
  handle_endpoint_events, accepted, app_event, app_event_loop, handle_app_events, poll,
  mark_pollable,
}

-- The parts: each way to use the shared state.
pub record WorldPreserves {P : Proto} (I : World P → Type 0) : Type 0 where
  pub called : (call : Call) → Preserves I (invoke call)
  pub noticed : (k m : ℕ) → Preserves I (send_notice k m)
  pub sent : (k : ℕ) (m : ℕ × EndpointEvent P) → Preserves I (send_endpoint_event k m)
  pub received : (k : ℕ) → Preserves I (recv_connection_event k)
  pub read : Preserves I now

module _ {P : Proto} (I : World P → Type 0) (a : WorldPreserves I) where
  abbrev Holds : ConnectionImpl P × World P → Type 0
  Holds s = I s.1

  abbrev Keeps : {A : Type 0} → Conn P A → Type 0
  Keeps m = Preserves Holds m

  lift-Preserves : {A : Type 0} (m : M (World P) A) → Preserves I m → Keeps (lift m)
  lift-Preserves m h (c, w) i = h w i

  ignore-Preserves : {A : Type 0} (m : Conn P A) → Keeps m → Keeps (ignore m)
  ignore-Preserves m h s i = h s i

  apply-Preserves : (e : ConnectionEvent P) → Keeps (apply_connection_event e)
  unfolding apply_connection_event
  apply-Preserves (ConnectionEvent.close error_code reason) s i = i
  apply-Preserves (ConnectionEvent.proto e) s i = i
  apply-Preserves ConnectionEvent.ping s i = i

  handle_connection_events-Preserves : Keeps (handle_connection_events {P = P})
  unfolding handle_connection_events
  handle_connection_events-Preserves s =
      >>=-Preserves Holds (lift (recv_connection_event s.0.connection_events))
        apply_connection_event
        (lift-Preserves (recv_connection_event s.0.connection_events)
          (a.received s.0.connection_events))
        apply-Preserves s

  fire_timer-Preserves : (deadline t : ℕ) → Keeps (fire_timer {P = P} deadline t)
  unfolding fire_timer
  fire_timer-Preserves deadline t s i = elim (Bool-cases (ltb deadline t)) [
    | inl e ↦ rw (e, fire_timer) (a.read s.1 i)
    | inr e ↦ rw (e, fire_timer) i
  ]

  arm_timer-Preserves : (timeout : Option ℕ) → Keeps (arm_timer {P = P} timeout)
  unfolding arm_timer
  arm_timer-Preserves none s i = i
  arm_timer-Preserves (some deadline) s i =
      >>=-Preserves Holds (lift now) (fire_timer deadline) (lift-Preserves now a.read)
        (fire_timer-Preserves deadline) (record s.0 { timer_deadline = some deadline }, s.1) i

  handle_timer-Preserves : Keeps (handle_timer {P = P})
  unfolding handle_timer
  handle_timer-Preserves s i =
      arm_timer-Preserves (P.poll_timeout s.0.inner).0 (inner P.poll_timeout s).1 i

  unwrap-Preserves : {A : Type 0} (o : Option A) → Keeps (unwrap none_panic o)
  unwrap-Preserves none s i = i
  unwrap-Preserves (some a) s i = i

  notify-Preserves : Keeps (notify {P = P})
  unfolding notify
  notify-Preserves s =
      >>=-Preserves Holds (unwrap none_panic s.0.endpoint_poll_notifier)
        (λ n. lift (send_notice n 0)) (unwrap-Preserves s.0.endpoint_poll_notifier)
        (λ n. lift-Preserves (send_notice n 0) (a.noticed n 0)) s

  sent-Preserves :
      {A : Type 0} (k : ℕ) (m : ℕ × EndpointEvent P) (rest : Conn P A)
      → Keeps rest
      → Keeps (lift (send_endpoint_event k m) >> rest)
  sent-Preserves k m rest h =
      >>=-Preserves Holds (lift (send_endpoint_event k m)) (λ _. rest)
        (lift-Preserves (send_endpoint_event k m) (a.sent k m)) (λ _. h)

  transmit-Preserves :
      (k handle : ℕ) (b : Bool) (rest : Conn P Bool) (x : Option P.Transmit)
      → Keeps rest
      → Keeps {A = Bool} (elim x [
        | none ↦ pure b
        | some t ↦ lift (send_endpoint_event k (handle, EndpointEvent.transmit t)) >> rest
      ])
  transmit-Preserves k handle b rest none h s i = i
  transmit-Preserves k handle b rest (some t) h s i =
      sent-Preserves k (handle, EndpointEvent.transmit t) rest h s i

  transmit_loop-Preserves : (fuel : ℕ) (b : Bool) → Keeps (transmit_loop {P = P} fuel b)
  unfolding transmit_loop now
  transmit_loop-Preserves zero b s i = i
  transmit_loop-Preserves (suc fuel) b s i =
      let polled = P.poll_transmit s.0.inner (s.1.clock s.1.reads) 1 in
      transmit-Preserves s.0.endpoint_events s.0.connection_handle b (transmit_loop fuel true)
        polled.0 (transmit_loop-Preserves fuel true)
        (record s.0 { inner = polled.1 }, record s.1 { reads = s.1.reads + 1 }) (a.read s.1 i)

  handle_transmits-Preserves : Keeps (handle_transmits {P = P})
  unfolding handle_transmits
  handle_transmits-Preserves s = transmit_loop-Preserves (suc (P.transmits_left s.0.inner)) false s

  endpoint_event-Preserves :
      (auto_poll : Bool) (k handle : ℕ) (rest : Conn P (Unit {0})) (x : Option P.EndpointEvent)
      → Keeps rest
      → Keeps {A = Unit {0}} (elim x [
        | none ↦ pure tt
        | some e ↦
            lift (send_endpoint_event k (handle, EndpointEvent.proto e))
            >> (when auto_poll notify >> rest)
      ])
  endpoint_event-Preserves auto_poll k handle rest none h s i = i
  endpoint_event-Preserves auto_poll k handle rest (some e) h s i =
      sent-Preserves k (handle, EndpointEvent.proto e) (when auto_poll notify >> rest)
        (>>=-Preserves Holds (when auto_poll notify) (λ _. rest)
          (when-Preserves Holds auto_poll notify notify-Preserves) (λ _. h))
        s i

  endpoint_event_loop-Preserves :
      (auto_poll : Bool) (fuel : ℕ) → Keeps (endpoint_event_loop {P = P} auto_poll fuel)
  unfolding endpoint_event_loop
  endpoint_event_loop-Preserves auto_poll zero s i = i
  endpoint_event_loop-Preserves auto_poll (suc fuel) s i =
      let polled = P.poll_endpoint_events s.0.inner in
      endpoint_event-Preserves auto_poll s.0.endpoint_events s.0.connection_handle
        (endpoint_event_loop auto_poll fuel) polled.0 (endpoint_event_loop-Preserves auto_poll fuel)
        (record s.0 { inner = polled.1 }, s.1) i

  accepted-Preserves :
      (con : ℕ) (dir : Dir) (id : Option ℕ) → Keeps (lift (accepted {P = P} con dir id))
  unfolding accepted
  accepted-Preserves con dir none s i = i
  accepted-Preserves con dir (some id) s i = a.called _ s.1 i

  called : (call : Call) → Keeps (lift (invoke call))
  called call = lift-Preserves (invoke call) (a.called call)

  app_event-Preserves : (e : Event) → Keeps (app_event {P = P} e)
  unfolding app_event
  app_event-Preserves handshake_data_ready s i = i
  app_event-Preserves connected s i = called (Call.on_connected (connection_id s.0)) s i
  app_event-Preserves (connection_lost reason) s i =
      called (Call.on_connection_lost (connection_id s.0) reason (length reason % 2 ^ 32)) s i
  app_event-Preserves (stream (opened dir)) s i =
      let polled = P.accept s.0.inner dir in
      accepted-Preserves (connection_id s.0) dir polled.0 (record s.0 { inner = polled.1 }, s.1) i
  app_event-Preserves datagram_received s i =
      called (Call.on_datagram_received (connection_id s.0)) s i
  app_event-Preserves (stream (available dir)) s i =
      called (Call.on_stream_available (connection_id s.0) (dir_as_u8 dir)) s i
  app_event-Preserves (stream (writable id)) s i =
      called (Call.on_stream_writable (connection_id s.0) (stream_u64 P id) (stream_dir_u8 P id)) s
        i
  app_event-Preserves (stream (readable id)) s i =
      called (Call.on_stream_readable (connection_id s.0) (stream_u64 P id) (stream_dir_u8 P id)) s
        i
  app_event-Preserves (stream (finished id)) s i =
      called (Call.on_stream_finished (connection_id s.0) (stream_u64 P id) (stream_dir_u8 P id)) s
        i
  app_event-Preserves (stream (stopped id code)) s i =
      called (Call.on_stream_stopped (connection_id s.0) (stream_u64 P id) (stream_dir_u8 P id)) s i

  app_round-Preserves :
      (rest : Conn P (Unit {0})) (x : Option Event)
      → Keeps rest
      → Keeps {A = Unit {0}} (elim x [ none ↦ pure tt | some e ↦ app_event e >> rest ])
  app_round-Preserves rest none h s i = i
  app_round-Preserves rest (some e) h s i =
      >>=-Preserves Holds (app_event e) (λ _. rest) (app_event-Preserves e) (λ _. h) s i

  app_event_loop-Preserves : (fuel : ℕ) → Keeps (app_event_loop {P = P} fuel)
  unfolding app_event_loop
  app_event_loop-Preserves zero s i = i
  app_event_loop-Preserves (suc fuel) s i =
      let polled = P.poll s.0.inner in
      app_round-Preserves (app_event_loop fuel) polled.0 (app_event_loop-Preserves fuel)
        (record s.0 { inner = polled.1 }, s.1) i

  rest_of_poll-Preserves :
      Keeps {A = Unit {0}} (handle_app_events {P = P} >> (handle_transmits >>= λ sent. pure tt))
  unfolding handle_app_events
  rest_of_poll-Preserves =
      >>=-Preserves Holds handle_app_events (λ _. handle_transmits >>= λ sent. pure tt)
        (λ s. app_event_loop-Preserves (suc (P.events_left s.0.inner)) s)
        (λ _.
          >>=-Preserves Holds handle_transmits (λ sent. pure tt) handle_transmits-Preserves
            (λ _ s i. i))

  pub poll-Preserves : (auto_poll : Bool) → Keeps (poll {P = P} auto_poll)
  unfolding poll handle_endpoint_events
  poll-Preserves auto_poll =
      >>=-Preserves Holds (ignore handle_connection_events) _
        (ignore-Preserves handle_connection_events handle_connection_events-Preserves)
        (λ _. >>=-Preserves Holds handle_timer _ handle_timer-Preserves (λ _.
          >>=-Preserves Holds (ignore (handle_endpoint_events auto_poll))
            (λ _. handle_app_events >> (handle_transmits >>= λ sent. pure tt))
            (ignore-Preserves (handle_endpoint_events auto_poll) (λ s.
              endpoint_event_loop-Preserves auto_poll (suc (P.endpoint_events_left s.0.inner)) s))
            (λ _. rest_of_poll-Preserves)))

  pub mark_pollable-Preserves : (auto_poll : Bool) → Keeps (mark_pollable {P = P} auto_poll)
  unfolding mark_pollable
  mark_pollable-Preserves true s i =
      >>=-Preserves Holds (poll true) (λ _. notify) (poll-Preserves true) (λ _. notify-Preserves) s
        i
  mark_pollable-Preserves false s i = called (Call.on_connection_pollable (connection_id s.0)) s i
