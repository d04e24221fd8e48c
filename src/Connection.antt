-- ===== src/Connection.antt =====
-- src/proto_impl/connection.rs: a QUIC connection over `quinn_proto::Connection`. The methods run on
-- the connection beside the shared state.
pub mod Transmits
pub mod Timer
pub mod Poll
pub mod AppEvents
pub mod Events
pub mod Grows
pub mod Preserved
pub mod Pollable
use quinn_ffi.Prelude.{
  ℕ, zero, suc, ◌+◌, ◌%◌, ◌^◌, Option, none, some, Bool, true, false, List, ltb, length, lookup,
  insert, bytes, if◌then◌else◌, Dict,
}
use quinn_ffi.Sending.{none_panic, send_endpoint_event, send_notice, recv_connection_event}
use quinn_ffi.Effect.{
  M, Exit, ok, err, panic, hang, Payload, ◌>>=◌, ◌>>◌, pure, raise, throw, never, gets, state,
  modify, ignore, lift, unwrap, when,
}
use quinn_ffi.Proto.{
  Proto, Dir, dir_as_u8, Event, StreamEvent, handshake_data_ready, connected, connection_lost,
  stream, datagram_received, writable, opened, readable, available, finished, stopped,
}
use quinn_ffi.World.{World, ConnectionImpl, ConnectionEvent, EndpointEvent, Call}
use quinn_ffi.World.Clock.{now}
use quinn_ffi.Callbacks.{
  invoke, stream_u64, on_stream_readable, on_stream_writable, on_stream_finished, on_stream_stopped,
}

module _ (P : Proto) where
  -- Code on `&mut ConnectionImpl`.
  abbrev pub Conn : Type 0 → Type 0
  Conn A = M (ConnectionImpl P × World P) A

module _ {P : Proto} where
  abbrev pub self : Conn P (ConnectionImpl P)
  self = gets λ s. s.0

  -- A method of `self.inner`, with or without a result.
  abbrev pub inner : {A : Type 0} → (P.Connection → A × P.Connection) → Conn P A
  inner f (c, w) = let (a, i) = f c.inner in (ok a, (record c { inner = i }, w))

  abbrev pub inner_ : (P.Connection → P.Connection) → Conn P (Unit {0})
  inner_ f = modify λ s. (record s.0 { inner = f s.0.inner }, s.1)

  abbrev set_deadline : Option ℕ → Conn P (Unit {0})
  set_deadline d = modify λ s. (record s.0 { timer_deadline = d }, s.1)

  -- `ConnectionImpl::new`.
  unfoldable pub new_connection :
      P.Connection → ℕ → ℕ → ℕ → Option ℕ → M (World P) (ConnectionImpl P)
  unfolding now
  new_connection i handle recv endpoint_events_tx notifier = do
    t ← now
    pure (record {
      inner = i;
      connection_handle = handle;
      connection_events = recv;
      endpoint_events = endpoint_events_tx;
      timer_deadline = none;
      last_poll = t;
      endpoint_poll_notifier = notifier;
    })

  -- `self.connection_handle.0 as u32`.
  unfoldable pub connection_id : ConnectionImpl P → ℕ
  connection_id c = c.connection_handle % 2 ^ 32

  unfoldable pub close : P.VarInt → List ℕ → Conn P (Unit {0})
  unfolding now
  close error_code reason = do t ← lift now; inner_ λ i. P.close i t error_code reason

  fire_timer : ℕ → ℕ → Conn P Bool
  unfolding now
  fire_timer deadline t =
      if ltb deadline t
      then (do t' ← lift now; inner_ (λ i. P.handle_timeout i t'); set_deadline none; pure true)
      else pure false

  arm_timer : Option ℕ → Conn P Bool
  unfolding now fire_timer
  arm_timer none = do set_deadline none; pure false
  arm_timer (some deadline) = do set_deadline (some deadline); t ← lift now; fire_timer deadline t

  -- True if the timer was due, and the timeout was handled.
  unfoldable pub handle_timer : Conn P Bool
  unfolding arm_timer
  handle_timer = do timeout ← inner P.poll_timeout; arm_timer timeout

  -- `while let Some(t) = self.inner.poll_transmit(Instant::now(), 1)`.
  unfoldable pub transmit_loop : ℕ → Bool → Conn P Bool
  transmit_loop zero should_notify = never
  transmit_loop (suc fuel) should_notify =
      let again = transmit_loop fuel true in
      do
        t ← lift now
        transmit ← inner (λ i. P.poll_transmit i t 1)
        c ← self
        elim transmit [
          | none ↦ pure should_notify
          | some x ↦
              lift (
                send_endpoint_event c.endpoint_events
                  (c.connection_handle, EndpointEvent.transmit x))
              >> again
        ]

  unfoldable pub handle_transmits : Conn P Bool
  handle_transmits = do c ← self; transmit_loop (suc (P.transmits_left c.inner)) false

  -- `self.endpoint_poll_notifier.as_ref().unwrap().send(0)?`.
  unfoldable pub notify : Conn P (Unit {0})
  notify = do
    c ← self
    notifier ← unwrap none_panic c.endpoint_poll_notifier
    lift (send_notice notifier 0)

-- `auto_poll` is `cfg!(feature = "auto-poll")`.
module _ {P : Proto} (auto_poll : Bool) where
  -- `while let Some(event) = self.inner.poll_endpoint_events()`.
  unfoldable pub endpoint_event_loop : ℕ → Conn P (Unit {0})
  endpoint_event_loop zero = never
  endpoint_event_loop (suc fuel) =
      let again = endpoint_event_loop fuel in
      do
        event ← inner P.poll_endpoint_events
        c ← self
        elim event [
          | none ↦ pure tt
          | some e ↦
              lift
                (send_endpoint_event c.endpoint_events (c.connection_handle, EndpointEvent.proto e))
              >> (when auto_poll notify >> again)
        ]

  unfoldable pub handle_endpoint_events : Conn P (Unit {0})
  handle_endpoint_events = do c ← self; endpoint_event_loop (suc (P.endpoint_events_left c.inner))

module _ {P : Proto} where
  apply_connection_event : ConnectionEvent P → Conn P (Unit {0})
  apply_connection_event (ConnectionEvent.close error_code reason) = pure tt
  apply_connection_event (ConnectionEvent.proto e) = inner_ λ i. P.handle_event i e
  apply_connection_event ConnectionEvent.ping = inner_ P.ping

  -- One event at most, the oldest.
  unfoldable pub handle_connection_events : Conn P (Unit {0})
  unfolding apply_connection_event
  handle_connection_events = do
    c ← self
    event ← lift (recv_connection_event c.connection_events)
    apply_connection_event event

  accepted : ℕ → Dir → Option ℕ → M (World P) (Unit {0})
  accepted con dir none = pure tt
  accepted con dir (some id) = invoke (Call.on_stream_opened con (stream_u64 P id) (dir_as_u8 dir))

  -- The arms of the `match` in `handle_app_events`.
  unfoldable pub app_event : Event → Conn P (Unit {0})
  unfolding connection_id accepted
  app_event handshake_data_ready = pure tt
  app_event connected = do c ← self; lift (invoke (Call.on_connected (connection_id c)))
  app_event (connection_lost reason) = do
    c ← self
    lift (invoke (Call.on_connection_lost (connection_id c) reason (length reason % 2 ^ 32)))
  app_event (stream (writable id)) = do c ← self; lift (on_stream_writable P (connection_id c) id)
  app_event (stream (opened dir)) = do
    stream_id ← inner (λ i. P.accept i dir)
    c ← self
    lift (accepted (connection_id c) dir stream_id)
  app_event datagram_received = do
    c ← self
    lift (invoke (Call.on_datagram_received (connection_id c)))
  app_event (stream (readable id)) = do c ← self; lift (on_stream_readable P (connection_id c) id)
  app_event (stream (available dir)) = do
    c ← self
    lift (invoke (Call.on_stream_available (connection_id c) (dir_as_u8 dir)))
  app_event (stream (finished id)) = do c ← self; lift (on_stream_finished P (connection_id c) id)
  app_event (stream (stopped id error_code)) = do
    c ← self
    lift (on_stream_stopped P (connection_id c) id)

  -- `while let Some(event) = self.inner.poll()`.
  unfoldable pub app_event_loop : ℕ → Conn P (Unit {0})
  app_event_loop zero = never
  app_event_loop (suc fuel) =
      let again = app_event_loop fuel in
      do event ← inner P.poll; elim event [ none ↦ pure tt | some e ↦ app_event e >> again ]

  unfoldable pub handle_app_events : Conn P (Unit {0})
  handle_app_events = do c ← self; app_event_loop (suc (P.events_left c.inner))

module _ {P : Proto} (auto_poll : Bool) where
  -- `ConnectionImpl::poll`. What `poll_again` collects is not used.
  unfoldable pub poll : Conn P (Unit {0})
  poll = do
    ignore handle_connection_events
    poll_again ← handle_timer
    ignore (handle_endpoint_events auto_poll)
    handle_app_events
    handled ← handle_transmits
    pure tt

  unfoldable pub mark_pollable : Conn P (Unit {0})
  mark_pollable =
      if auto_poll
      then poll >> notify
      else (do c ← self; lift (invoke (Call.on_connection_pollable (connection_id c))))
