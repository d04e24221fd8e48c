-- ===== src/Connection/Poll.antt =====
-- `ConnectionImpl::poll` as a whole.
use quinn_ffi.Prelude.{
  ℕ, ◌≡◌, sym, ap, subst, ◌∙◌, some, Bool, List, ◌++◌, arith, append_assoc, refl, [], if◌then◌else◌,
}
use quinn_ffi.Effect.{ok, ignore}
use quinn_ffi.Proto.{Proto, IsDraining}
use quinn_ffi.World.{World, ConnectionImpl, ConnectionEvent, Slot, Call}
use quinn_ffi.World.Mpsc.{IsOpen, queue_of, try_recv_on, Received, empty, disconnected, message}
use quinn_ffi.World.Mpsc.Fifo.{push_all-IsOpen, queue-push_all}
use quinn_ffi.Connection.Events.{event_messages, told, zeros, Gives}
use quinn_ffi.Connection.Events.Sent.{
  told-events, told-rest, told-clock, told-notices, notice_queue, handle_endpoint_events-told,
}
use quinn_ffi.Connection.Transmits.{
  Drains, transmit_messages, sent, is_cons, handle_transmits-Drains,
}
use quinn_ffi.Connection.Timer.{TimerEnd, handle_timer-TimerEnd, handle_timer-returns}
use quinn_ffi.Connection.AppEvents.{Hears, handle_app_events-Hears}
use quinn_ffi.Callbacks.Laws.{AllSet, reached}
use quinn_ffi.Sending.{recv_connection_event}
use quinn_ffi.Connection.{
  handle_connection_events, handle_timer, handle_endpoint_events, handle_app_events,
  handle_transmits, poll, connection_id,
}

module _ {P : Proto} where
  -- What the library's connection becomes by what `try_recv` gave. A `Close` does nothing.
  abbrev pub applied : Received (ConnectionEvent P) → P.Connection → P.Connection
  applied empty i = i
  applied disconnected i = i
  applied (message (ConnectionEvent.close error_code reason)) i = i
  applied (message (ConnectionEvent.proto e)) i = P.handle_event i e
  applied (message ConnectionEvent.ping) i = P.ping i

  -- The state after one `try_recv`.
  abbrev pub after_recv : ConnectionImpl P → World P → ConnectionImpl P × World P
  after_recv c w =
      let (r, d) = try_recv_on c.connection_events w.connection_events in
      (record c { inner = applied r c.inner }, record w { connection_events = d })

  connection_event :
      (c : ConnectionImpl P) (w : World P)
      → ignore handle_connection_events (c, w) ≡ (ok tt, after_recv c w)
  unfolding handle_connection_events recv_connection_event
  connection_event c w = ground arith

module _ {P : Proto} (auto_poll : Bool) where
  poll_chain :
      (s s₁ s₂ s₃ s₄ s₅ : ConnectionImpl P × World P) (due some_sent : Bool)
      → ignore handle_connection_events s ≡ (ok tt, s₁)
      → handle_timer s₁ ≡ (ok due, s₂)
      → handle_endpoint_events auto_poll s₂ ≡ (ok tt, s₃)
      → handle_app_events s₃ ≡ (ok tt, s₄)
      → handle_transmits s₄ ≡ (ok some_sent, s₅)
      → poll auto_poll s ≡ (ok tt, s₅)
  unfolding poll
  poll_chain s s₁ s₂ s₃ s₄ s₅ due some_sent h₁ h₂ h₃ h₄ h₅ = ground arith

  -- What a poll has done, for the connection and the shared state before and after. Each step starts
  -- from the library's connection that the step before has left: the message that was received, the
  -- timer, the events for the endpoint, the events for the application, the datagrams.
  pub record Polled (f : Slot → ℕ) (n : ℕ) (c : ConnectionImpl P) (w : World P)
      (c' : ConnectionImpl P) (w' : World P) : Type 0 where
    pub due : Bool
    pub timed : ConnectionImpl P × World P
    pub timer : TimerEnd (after_recv c w).0 (after_recv c w).1 (ok due, timed)
    pub events : List P.EndpointEvent
    pub behind_events : P.Connection
    pub gives : Gives P timed.0.inner events behind_events
    pub heard : List Call
    pub behind_heard : P.Connection
    pub hears : Hears P (connection_id c) behind_events heard behind_heard
    pub transmits : List P.Transmit
    pub drains : Drains P w.clock timed.1.reads behind_heard transmits w'.reads c'.inner
    pub connection : c' ≡ record timed.0 { inner = c'.inner }
    pub sent_to_endpoint :
        queue_of c.endpoint_events w'.endpoint_events
        ≡ queue_of c.endpoint_events w.endpoint_events
          ++ (event_messages c.connection_handle events
              ++ transmit_messages c.connection_handle transmits)
    pub noticed :
        queue_of n w'.notices ≡ queue_of n w.notices ++ (if auto_poll then zeros events else [])
    pub called : w'.calls ≡ w.calls ++ reached f heard
    pub one_received :
        w'.connection_events ≡ (try_recv_on c.connection_events w.connection_events).1

  -- With a library whose queues run dry, once every callback is set, and while the receivers of the
  -- endpoint and of the poller are there, `poll` returns without an error. It gives the library's
  -- connection one message of its own channel, if there is one, and then handles its timer. It sends
  -- all the events that the connection then gives to the endpoint, calls the application for all the events
  -- that it has after that, and sends the endpoint all the datagrams that it gives last: the endpoint's
  -- channel has the events and then the datagrams, under the connection's handle and behind what
  -- waited there, and with `auto-poll` the poller has a notice for each event.
  pub poll-Polled :
      IsDraining P
      → (f : Slot → ℕ) (n : ℕ) (c : ConnectionImpl P) (w : World P)
      → IsOpen c.endpoint_events w.endpoint_events
      → c.endpoint_poll_notifier ≡ some n
      → IsOpen n w.notices
      → AllSet f w
      → (s : ConnectionImpl P × World P) × (poll auto_poll (c, w) ≡ (ok tt, s))
        × Polled f n c w s.0 s.1
  unfolding connection_id
  poll-Polled d f n c w o hn on set =
      let k = c.endpoint_events in
      let handle = c.connection_handle in
      let (c₁, w₁) = after_recv c w in
      let (due, i₂, deadline, r, timer) = handle_timer-returns c₁ w₁ in
      let c₂ : ConnectionImpl P = record c₁ { inner = i₂; timer_deadline = deadline } in
      let w₂ : World P = record w₁ { reads = r } in
      let (es, i₃, gives, events_run) = handle_endpoint_events-told auto_poll d n c₂ w₂ o hn on in
      let c₃ : ConnectionImpl P = record c₂ { inner = i₃ } in
      let w₃ : World P = told auto_poll k handle n es w₂ in
      let rest = told-rest auto_poll k handle n es w₂ in
      let clocks = told-clock auto_poll k handle n es w₂ in
      let pushed = told-events auto_poll k handle n es w₂ in
      let (calls, i₄, hears, app_run) =
        handle_app_events-Hears f d c₃ w₃ (λ s. ap (λ g. g s) rest.1 ∙ set s) in
      let c₄ : ConnectionImpl P = record c₃ { inner = i₄ } in
      let w₄ : World P = record w₃ { calls = w₃.calls ++ reached f calls } in
      let (ts, r₅, i₅, drains, transmit_run, queue) = handle_transmits-Drains d c₄ w₄ (
        subst (IsOpen k) (sym pushed)
          (push_all-IsOpen k (event_messages handle es) w.endpoint_events o)) in
      let messages = transmit_messages handle ts in
      (
        sent c₄ i₅ r₅ messages w₄,
        poll_chain (c, w) (c₁, w₁) (c₂, w₂) (c₃, w₃) (c₄, w₄) (sent c₄ i₅ r₅ messages w₄) due
            (is_cons ts) (connection_event c w) timer events_run app_run transmit_run,
        record {
          due = due;
          timed = (c₂, w₂);
          timer = subst (TimerEnd c₁ w₁) timer (handle_timer-TimerEnd c₁ w₁);
          events = es;
          behind_events = i₃;
          gives = gives;
          heard = calls;
          behind_heard = i₄;
          hears = hears;
          transmits = ts;
          drains =
              subst (λ t. Drains P t r i₄ ts r₅ i₅) clocks.0
                (subst (λ x. Drains P w₃.clock x i₄ ts r₅ i₅) clocks.1 drains);
          connection = refl;
          noticed =
              ap (queue_of n) (told-notices auto_poll k handle n es w₂)
              ∙ notice_queue auto_poll n es w₂ on;
          sent_to_endpoint =
              queue
              ∙ (ap (λ q. queue_of k q ++ messages) pushed
                  ∙ (ap (λ q. q ++ messages)
                        (queue-push_all k (event_messages handle es) w.endpoint_events o)
                      ∙ append_assoc (queue_of k w.endpoint_events) (event_messages handle es)
                          messages));
          called = ap (λ l. l ++ reached f calls) rest.2;
          one_received = rest.0;
        },
      )
