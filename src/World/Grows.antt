-- ===== src/World/Grows.antt =====
-- What code leaves of the shared state: the fresh numbers, and the senders of the connections' channels.
use quinn_ffi.Prelude.{
  ℕ, ◌≤◌, ◌≡◌, refl, inl, inr, Option-cases, Bool-cases, ◌==◌, arith, subst, sym, [], ◌∷◌, Dict,
  lookup,
}
use quinn_ffi.Proto.{Proto}
use quinn_ffi.Addr.{from_socket_addr}
use quinn_ffi.World.{World, EndpointEvent, Call, ConnectionEvent}
use quinn_ffi.World.Mpsc.{Received, empty, disconnected, message, try_recv_on, send_on}
use quinn_ffi.World.Mpsc.Alive.{
  IsAlive, send_on-IsAlive, try_recv_on-IsAlive, drop_receiver-IsAlive,
}
use quinn_ffi.World.Arcs.{drop_connection, drop_connection_arc, drop_connection_arcs}
use quinn_ffi.Callbacks.{invoke, on_transmit}
use quinn_ffi.World.Clock.{now}
use quinn_ffi.Sending.{
  received, recv_connection_event, send_endpoint_event, send_connection_event, send_notice,
}

module _ {P : Proto} where
  abbrev pub Grows : World P → World P → Type 0
  Grows w w' =
      (w.next_id ≤ w'.next_id)
      × ((k : ℕ) → IsAlive k w.connection_events → IsAlive k w'.connection_events)

  pub Grows-refl : (w : World P) → Grows w w
  Grows-refl w = (omega arith, λ k a. a)

  pub Grows-trans : (w w' w'' : World P) → Grows w w' → Grows w' w'' → Grows w w''
  Grows-trans w w' w'' (l, a) (l', a') = (omega arith, λ k h. a' k (a k h))

  pub Grows-same :
      (w w' : World P)
      → w'.next_id ≡ w.next_id
      → w'.connection_events ≡ w.connection_events
      → Grows w w'
  Grows-same w w' n d = (omega arith, λ k a. subst (IsAlive k) (sym d) a)

  pub invoke-Grows : (call : Call) (w : World P) → Grows w (invoke call w).1
  unfolding invoke
  invoke-Grows call w = Grows-same w (invoke call w).1 (ground arith) (ground arith)

  pub on_transmit-Grows : (id : ℕ) (t : P.Transmit) (w : World P) → Grows w (on_transmit P id t w).1
  unfolding on_transmit from_socket_addr invoke
  on_transmit-Grows id t w = Grows-same w (on_transmit P id t w).1 (ground arith) (ground arith)

  pub send_notice-Grows : (k m : ℕ) (w : World P) → Grows w (send_notice k m w).1
  unfolding send_notice
  send_notice-Grows k m w = Grows-same w (send_notice k m w).1 (ground arith) (ground arith)

  pub send_connection_event-Grows :
      (k : ℕ) (m : ConnectionEvent P) (w : World P) → Grows w (send_connection_event k m w).1
  unfolding send_connection_event
  send_connection_event-Grows k m w = elim (Option-cases (send_on k m w.connection_events)) [
    | inl e ↦ rw (e, send_connection_event) (Grows-refl w)
    | inr (d, e) ↦
        rw (e, send_connection_event)
          (omega arith, λ j a. send_on-IsAlive j k m w.connection_events d e a)
  ]

  pub drop_connection_arc-Grows : (k : ℕ) (w : World P) → Grows w (drop_connection_arc k w)
  unfolding drop_connection_arc drop_connection
  drop_connection_arc-Grows k w = elim (Option-cases (lookup k w.connections)) [
    | inl e ↦ rw (e, drop_connection_arc) (Grows-refl w)
    | inr (c, e) ↦ elim (Bool-cases (c.strong == 1)) [
      | inl one ↦
          rw (e, drop_connection_arc, one)
            (
              omega arith,
              λ j a. drop_receiver-IsAlive j c.value.connection_events w.connection_events a,
            )
      | inr many ↦ rw (e, drop_connection_arc, many) (omega arith, λ j a. a)
    ]
  ]

  pub drop_connection_arcs-Grows : (d : Dict ℕ) (w : World P) → Grows w (drop_connection_arcs d w)
  unfolding drop_connection_arcs
  drop_connection_arcs-Grows [] w = Grows-refl w
  drop_connection_arcs-Grows ((handle, k) ∷ d) w =
      Grows-trans w (drop_connection_arc k w) (drop_connection_arcs d (drop_connection_arc k w))
        (drop_connection_arc-Grows k w) (drop_connection_arcs-Grows d (drop_connection_arc k w))

  pub send_endpoint_event-Grows :
      (k : ℕ) (m : ℕ × EndpointEvent P) (w : World P) → Grows w (send_endpoint_event k m w).1
  unfolding send_endpoint_event
  send_endpoint_event-Grows k m w =
      Grows-same w (send_endpoint_event k m w).1 (ground arith) (ground arith)

  received-same : (r : Received (ConnectionEvent P)) (w : World P) → (received r w).1 ≡ w
  received-same empty w = refl
  received-same disconnected w = refl
  received-same (message m) w = refl

  pub recv_connection_event-Grows : (k : ℕ) (w : World P) → Grows w (recv_connection_event k w).1
  unfolding recv_connection_event
  recv_connection_event-Grows k w =
      let w' : World P = record w { connection_events = (try_recv_on k w.connection_events).1 } in
      subst (Grows w) (sym (received-same (try_recv_on k w.connection_events).0 w'))
        (omega arith, λ j a. try_recv_on-IsAlive j k w.connection_events a)

  pub now-Grows : (w : World P) → Grows w (now w).1
  unfolding now
  now-Grows w = (omega arith, λ k a. a)
