-- ===== src/Connection/Transmits.antt =====
-- `ConnectionImpl::handle_transmits` of src/proto_impl/connection.rs.
use quinn_ffi.Prelude.{
  ℕ, zero, suc, ◌+◌, ◌<◌, ◌≡◌, refl, ap, Option, none, some, Bool, true, false, ◌||◌, List, [], ◌∷◌,
  ◌++◌, arith,
}
use quinn_ffi.Effect.{ok}
use quinn_ffi.Proto.{Proto, IsDraining}
use quinn_ffi.World.{World, ConnectionImpl, EndpointEvent}
use quinn_ffi.World.Mpsc.{IsOpen, queue_of}
use quinn_ffi.World.Mpsc.Fifo.{push, push_all, push-IsOpen, queue-push_all}
use quinn_ffi.World.Clock.{now}
use quinn_ffi.Sending.Laws.{send_endpoint_event-push}
use quinn_ffi.Connection.{transmit_loop, handle_transmits}

-- The datagrams that a connection gives until it gives none, at the instants that the clock shows from
-- one reading on; the reading and the connection behind them.
pub data Drains (P : Proto) (clock : ℕ → ℕ)
    : ℕ → P.Connection → List P.Transmit → ℕ → P.Connection → Type 0 where
  stop :
      {r : ℕ} {i : P.Connection} (r' : ℕ) (j : P.Connection)
      → P.poll_transmit i (clock r) 1 ≡ (none, j)
      → r' ≡ r + 1
      → Drains P clock r i [] r' j
  more :
      {r : ℕ} {i : P.Connection} {ts : List P.Transmit} {r' : ℕ} {j : P.Connection} (t : P.Transmit)
      (i' : P.Connection)
      → P.poll_transmit i (clock r) 1 ≡ (some t, i')
      → Drains P clock (r + 1) i' ts r' j
      → Drains P clock r i (t ∷ ts) r' j

abbrev pub is_cons {ℓ} : {A : Type ℓ} → List A → Bool
is_cons [] = false
is_cons (a ∷ as') = true

module _ {P : Proto} where
  -- The messages to the endpoint that datagrams become.
  abbrev pub transmit_messages : ℕ → List P.Transmit → List (ℕ × EndpointEvent P)
  transmit_messages handle [] = []
  transmit_messages handle (t ∷ ts) =
      (handle, EndpointEvent.transmit t) ∷ transmit_messages handle ts

  -- The state after the messages are sent, at a later reading of the clock.
  abbrev pub sent :
      ConnectionImpl P
      → P.Connection
      → ℕ
      → List (ℕ × EndpointEvent P)
      → World P
      → ConnectionImpl P × World P
  sent c j r ms w = (
    record c { inner = j },
    record w { reads = r; endpoint_events = push_all c.endpoint_events ms w.endpoint_events },
  )

  loop-stop :
      (fuel : ℕ) (b : Bool) (c : ConnectionImpl P) (w : World P) (j : P.Connection)
      → P.poll_transmit c.inner (w.clock w.reads) 1 ≡ (none, j)
      → transmit_loop (suc fuel) b (c, w)
        ≡ (ok b, (record c { inner = j }, record w { reads = w.reads + 1 }))
  unfolding transmit_loop now
  loop-stop fuel b c w j h = rw h

  loop-more :
      (fuel : ℕ) (b : Bool) (c : ConnectionImpl P) (w : World P) (t : P.Transmit) (j : P.Connection)
      → P.poll_transmit c.inner (w.clock w.reads) 1 ≡ (some t, j)
      → IsOpen c.endpoint_events w.endpoint_events
      → transmit_loop (suc fuel) b (c, w)
        ≡ transmit_loop fuel true (
          record c { inner = j },
          record w {
            reads = w.reads + 1;
            endpoint_events =
                push c.endpoint_events
                  (c.connection_handle, EndpointEvent.transmit t)
                  w.endpoint_events;
          },
        )
  unfolding transmit_loop now
  loop-more fuel b c w t j h o = ground (
    arith,
    send_endpoint_event-push c.endpoint_events (c.connection_handle, EndpointEvent.transmit t)
        (record w { reads = w.reads + 1 }) o,
  )

  -- What the loop does from a state: datagrams are drained, and their messages are sent.
  Drained : ℕ → Bool → ConnectionImpl P → World P → Type 0
  Drained fuel b c w =
      (ts : List P.Transmit) × (r : ℕ) × (j : P.Connection) × Drains P w.clock w.reads c.inner ts r
        j
      × (transmit_loop fuel b (c, w)
          ≡ (ok (b || is_cons ts), sent c j r (transmit_messages c.connection_handle ts) w))

  Drained-round :
      IsDraining P
      → (fuel : ℕ) (b : Bool) (c : ConnectionImpl P) (w : World P)
      → P.transmits_left c.inner < suc fuel
      → IsOpen c.endpoint_events w.endpoint_events
      → (polled : Option P.Transmit × P.Connection)
      → P.poll_transmit c.inner (w.clock w.reads) 1 ≡ polled
      → ((b' : Bool) (c' : ConnectionImpl P) (w' : World P)
          → P.transmits_left c'.inner < fuel
          → IsOpen c'.endpoint_events w'.endpoint_events
          → Drained fuel b' c' w')
      → Drained (suc fuel) b c w
  unfolding Drained push_all
  Drained-round d fuel b c w h o (none, j) e rec = (
    [],
    w.reads + 1,
    j,
    Drains.stop (w.reads + 1) j e refl,
    ground (arith, loop-stop fuel b c w j e),
  )
  Drained-round d fuel b c w h o (some t, j) e rec =
      let m : ℕ × EndpointEvent P = (c.connection_handle, EndpointEvent.transmit t) in
      let (ts, r, j', drains, run) =
        rec true (record c { inner = j })
          (record w {
            reads = w.reads + 1;
            endpoint_events = push c.endpoint_events m w.endpoint_events;
          })
          (ground (arith, d.transmit_falls c.inner (w.clock w.reads) 1 t (ap (λ p. p.0) e)))
          (push-IsOpen c.endpoint_events m w.endpoint_events o) in
      (t ∷ ts, r, j', Drains.more t j e drains, ground (arith, loop-more fuel b c w t j e o, run))

  transmit_loop-Drained :
      IsDraining P
      → (fuel : ℕ) (b : Bool) (c : ConnectionImpl P) (w : World P) → P.transmits_left c.inner < fuel
      → IsOpen c.endpoint_events w.endpoint_events
      → Drained fuel b c w
  unfolding Drained push_all
  transmit_loop-Drained d zero b c w h o = absurd (omega arith)
  transmit_loop-Drained d (suc fuel) b c w h o =
      Drained-round d fuel b c w h o (P.poll_transmit c.inner (w.clock w.reads) 1) refl
        (λ b' c' w'. transmit_loop-Drained d fuel b' c' w')

  -- With a library whose queues run dry, and while the endpoint's receiver is there, `handle_transmits`
  -- returns: it takes every datagram that the connection gives, sends them to the endpoint behind what
  -- waits there, in order and with the connection's handle, and says whether there was one. Nothing but
  -- the clock and that channel changes.
  pub handle_transmits-Drains :
      IsDraining P
      → (c : ConnectionImpl P) (w : World P) → IsOpen c.endpoint_events w.endpoint_events
      → (ts : List P.Transmit) × (r : ℕ) × (j : P.Connection) × Drains P w.clock w.reads c.inner ts
          r j
        × (handle_transmits (c, w)
            ≡ (ok (is_cons ts), sent c j r (transmit_messages c.connection_handle ts) w))
        × (queue_of c.endpoint_events (
              push_all c.endpoint_events
                (transmit_messages c.connection_handle ts)
                w.endpoint_events)
            ≡ queue_of c.endpoint_events w.endpoint_events
              ++ transmit_messages c.connection_handle ts)
  unfolding handle_transmits Drained
  handle_transmits-Drains d c w o =
      let (ts, r, j, drains, run) =
        transmit_loop-Drained d (suc (P.transmits_left c.inner)) false c w (omega arith) o in
      (
        ts,
        r,
        j,
        drains,
        run,
        queue-push_all c.endpoint_events (transmit_messages c.connection_handle ts)
            w.endpoint_events o,
      )
