-- ===== src/Connection/Events.antt =====
-- `ConnectionImpl::handle_endpoint_events` of src/proto_impl/connection.rs, and its notices to the poller.
pub mod Sent
use quinn_ffi.Prelude.{
  ℕ, zero, suc, ◌<◌, ◌≡◌, refl, sym, ap, Option, none, some, Bool, List, [], ◌∷◌, ◌++◌, arith,
  if◌then◌else◌, Bool-cases, inl, inr, ◌∙◌, append-nil,
}
use quinn_ffi.Effect.{ok, when}
use quinn_ffi.Proto.{Proto, IsDraining}
use quinn_ffi.World.{World, ConnectionImpl, EndpointEvent}
use quinn_ffi.World.Mpsc.{IsOpen, queue_of}
use quinn_ffi.World.Mpsc.Fifo.{push, push_all, push-IsOpen, queue-push_all}
use quinn_ffi.Sending.Laws.{send_endpoint_event-push, send_notice-push}
use quinn_ffi.Connection.{endpoint_event_loop, handle_endpoint_events, notify}

-- The events that a connection gives until it gives none, and the connection behind them.
pub data Gives (P : Proto) : P.Connection → List P.EndpointEvent → P.Connection → Type 0 where
  stop :
      {i : P.Connection} (j : P.Connection) → P.poll_endpoint_events i ≡ (none, j) → Gives P i [] j
  more :
      {i : P.Connection} {es : List P.EndpointEvent} {j : P.Connection} (e : P.EndpointEvent)
      (i' : P.Connection)
      → P.poll_endpoint_events i ≡ (some e, i')
      → Gives P i' es j
      → Gives P i (e ∷ es) j

module _ {P : Proto} where
  abbrev pub event_messages : ℕ → List P.EndpointEvent → List (ℕ × EndpointEvent P)
  event_messages handle [] = []
  event_messages handle (e ∷ es) = (handle, EndpointEvent.proto e) ∷ event_messages handle es

-- One notice 0 for each element of a list.
abbrev pub zeros {ℓ} : {A : Type ℓ} → List A → List ℕ
zeros [] = []
zeros (a ∷ as') = 0 ∷ zeros as'

module _ {P : Proto} (auto_poll : Bool) where
  abbrev notify_one : ℕ → World P → World P
  notify_one n w = if auto_poll then record w { notices = push n 0 w.notices } else w

  -- The state after the events are sent and, with `auto-poll`, each is followed by a notice.
  pub told : ℕ → ℕ → ℕ → List P.EndpointEvent → World P → World P
  told k handle n [] w = w
  told k handle n (e ∷ es) w = told k handle n es (
      notify_one n
        (record w { endpoint_events = push k (handle, EndpointEvent.proto e) w.endpoint_events }))

  notify-push :
      (n : ℕ) (c : ConnectionImpl P) (w : World P)
      → c.endpoint_poll_notifier ≡ some n
      → IsOpen n w.notices
      → notify (c, w) ≡ (ok tt, (c, record w { notices = push n 0 w.notices }))
  unfolding notify
  notify-push n c w h o = ground (arith, send_notice-push n 0 w o)

  when-notify :
      (n : ℕ) (c : ConnectionImpl P) (w : World P)
      → c.endpoint_poll_notifier ≡ some n
      → IsOpen n w.notices
      → when auto_poll notify (c, w) ≡ (ok tt, (c, notify_one n w))
  when-notify n c w h o = elim (Bool-cases auto_poll) [
    | inl e ↦ rw e (notify-push n c w h o)
    | inr e ↦ rw e
  ]

  loop-stop :
      (fuel : ℕ) (c : ConnectionImpl P) (w : World P) (j : P.Connection)
      → P.poll_endpoint_events c.inner ≡ (none, j)
      → endpoint_event_loop auto_poll (suc fuel) (c, w) ≡ (ok tt, (record c { inner = j }, w))
  unfolding endpoint_event_loop
  loop-stop fuel c w j h = ground arith

  loop-more :
      (fuel n : ℕ) (c : ConnectionImpl P) (w : World P) (e : P.EndpointEvent) (j : P.Connection)
      → P.poll_endpoint_events c.inner ≡ (some e, j)
      → IsOpen c.endpoint_events w.endpoint_events
      → c.endpoint_poll_notifier ≡ some n
      → IsOpen n w.notices
      → endpoint_event_loop auto_poll (suc fuel) (c, w)
        ≡ endpoint_event_loop auto_poll fuel (
          record c { inner = j },
          notify_one n (record w {
            endpoint_events =
                push c.endpoint_events
                  (c.connection_handle, EndpointEvent.proto e)
                  w.endpoint_events;
          }),
        )
  unfolding endpoint_event_loop
  loop-more fuel n c w e j h o hn on =
      let m : ℕ × EndpointEvent P = (c.connection_handle, EndpointEvent.proto e) in
      ground (
        arith,
        send_endpoint_event-push c.endpoint_events m w o,
        when-notify n (record c { inner = j })
            (record w { endpoint_events = push c.endpoint_events m w.endpoint_events }) hn on,
      )

  Told : ℕ → ℕ → ConnectionImpl P → World P → Type 0
  Told fuel n c w =
      (es : List P.EndpointEvent) × (j : P.Connection) × Gives P c.inner es j
      × (endpoint_event_loop auto_poll fuel (c, w)
          ≡ (ok tt, (record c { inner = j }, told c.endpoint_events c.connection_handle n es w)))

  notify_one-IsOpen : (n : ℕ) (w : World P) → IsOpen n w.notices → IsOpen n (notify_one n w).notices
  notify_one-IsOpen n w o = elim (Bool-cases auto_poll) [
    | inl e ↦ rw e (push-IsOpen n 0 w.notices o)
    | inr e ↦ rw e o
  ]

  notify_one-events : (n : ℕ) (w : World P) → (notify_one n w).endpoint_events ≡ w.endpoint_events
  notify_one-events n w = ground arith

  Told-round :
      IsDraining P
      → (fuel n : ℕ) (c : ConnectionImpl P) (w : World P)
      → P.endpoint_events_left c.inner < suc fuel
      → IsOpen c.endpoint_events w.endpoint_events
      → c.endpoint_poll_notifier ≡ some n
      → IsOpen n w.notices
      → (polled : Option P.EndpointEvent × P.Connection) → P.poll_endpoint_events c.inner ≡ polled
      → ((c' : ConnectionImpl P) (w' : World P)
          → P.endpoint_events_left c'.inner < fuel
          → IsOpen c'.endpoint_events w'.endpoint_events
          → c'.endpoint_poll_notifier ≡ some n
          → IsOpen n w'.notices
          → Told fuel n c' w')
      → Told (suc fuel) n c w
  unfolding Told told
  Told-round d fuel n c w h o hn on (none, j) e rec =
      ([], j, Gives.stop j e, loop-stop fuel c w j e)
  Told-round d fuel n c w h o hn on (some x, j) e rec =
      let m : ℕ × EndpointEvent P = (c.connection_handle, EndpointEvent.proto x) in
      let w₁ : World P = record w {
        endpoint_events = push c.endpoint_events m w.endpoint_events;
      } in
      let (es, j', gives, run) =
        rec (record c { inner = j }) (notify_one n w₁)
          (ground (arith, d.endpoint_event_falls c.inner x (ap (λ p. p.0) e)))
          (rw (notify_one-events n w₁) (push-IsOpen c.endpoint_events m w.endpoint_events o)) hn
          (notify_one-IsOpen n w₁ on) in
      (x ∷ es, j', Gives.more x j e gives, loop-more fuel n c w x j e o hn on ∙ run)

  loop-Told :
      IsDraining P
      → (fuel n : ℕ) (c : ConnectionImpl P) (w : World P) → P.endpoint_events_left c.inner < fuel
      → IsOpen c.endpoint_events w.endpoint_events
      → c.endpoint_poll_notifier ≡ some n
      → IsOpen n w.notices
      → Told fuel n c w
  loop-Told d zero n c w h o hn on = absurd (omega arith)
  loop-Told d (suc fuel) n c w h o hn on =
      Told-round d fuel n c w h o hn on (P.poll_endpoint_events c.inner) refl
        (λ c' w'. loop-Told d fuel n c' w')
