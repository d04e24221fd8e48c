-- ===== src/Endpoint/Delivery.antt =====
-- The way of a datagram from the endpoint's channel to the application.
pub mod Sent
use quinn_ffi.Prelude.{
  ℕ, zero, suc, ◌+◌, ◌<◌, ◌≡◌, refl, ◌∙◌, ap, sym, subst, some, false, List, [], ◌∷◌, Dict, ◌++◌,
  length, arith, append_assoc, append-nil,
}
use quinn_ffi.Effect.{ok}
use quinn_ffi.Proto.{Proto, IsDraining, v4}
use quinn_ffi.Addr.{IpAddr, from_socket_addr}
use quinn_ffi.World.{World, Channel, ConnectionImpl, EndpointImpl, EndpointEvent, Slot, Call}
use quinn_ffi.World.Mpsc.{IsOpen, queue_of, try_recv_on, message}
use quinn_ffi.World.Mpsc.Fifo.{Found, nothing, oldest, try_recv_on-Found, push_all, queue-push_all}
use quinn_ffi.Callbacks.{invoke, on_transmit}
use quinn_ffi.Connection.{handle_transmits}
use quinn_ffi.Connection.Transmits.{
  Drains, transmit_messages, handle_transmits-Drains, is_cons, sent,
}
use quinn_ffi.Endpoint.{
  event_loop, endpoint_event, notify_transmit, handle_connection_events, io_loop_bound,
}
use quinn_ffi.Endpoint.Loop.{inbox, loop-oldest, loop-nothing}

-- The call that hands a datagram to the application. An IPv6 destination has none.
abbrev pub address_of : ℕ → ℕ → ℕ → ℕ → ℕ → IpAddr
address_of a b c d port = record {
  port = port;
  address_0 = a;
  address_1 = b;
  address_2 = c;
  address_3 = d;
}

module _ (P : Proto) (id : ℕ) where
  -- The calls that datagrams with IPv4 destinations become, in order.
  pub data HandedOn : List P.Transmit → List Call → Type 0 where
    stop : HandedOn [] []
    more :
        {ts : List P.Transmit} {cs : List Call} (t : P.Transmit) (a b c d port : ℕ)
        → P.destination t ≡ v4 a b c d port
        → HandedOn ts cs
        → HandedOn (t ∷ ts) (
            Call.on_transmit id (P.contents t) (length (P.contents t)) (address_of a b c d port)
            ∷ cs)

-- Calls with the function that each reaches.
abbrev pub by : ℕ → List Call → List (ℕ × Call)
by f [] = []
by f (c ∷ cs) = (f, c) ∷ by f cs

module _ {P : Proto} where
  pub on_transmit-v4 :
      (f id a b c d port : ℕ) (t : P.Transmit) (w : World P)
      → w.callbacks Slot.transmit ≡ some f
      → P.destination t ≡ v4 a b c d port
      → on_transmit P id t w ≡ (
        ok tt,
        record w {
          calls =
              w.calls
              ++ (
                f,
                Call.on_transmit id
                    (P.contents t)
                    (length (P.contents t))
                    (address_of a b c d port),
              )
                ∷ [];
        },
      )
  unfolding on_transmit from_socket_addr invoke
  on_transmit-v4 f id a b c d port t w h v = ground arith

  -- One round that finds a datagram to an IPv4 address.
  loop-transmit :
      (rounds f handle a b c d port : ℕ) (t : P.Transmit) (e : EndpointImpl P) (w : World P)
      (q : Dict (Channel (ℕ × EndpointEvent P)))
      → try_recv_on e.endpoint_events_rx w.endpoint_events
        ≡ (message (handle, EndpointEvent.transmit t), q)
      → w.callbacks Slot.transmit ≡ some f
      → P.destination t ≡ v4 a b c d port
      → event_loop (suc rounds) (e, w)
        ≡ event_loop rounds (
          e,
          record w {
            endpoint_events = q;
            calls =
                w.calls
                ++ (
                  f,
                  Call.on_transmit e.id
                      (P.contents t)
                      (length (P.contents t))
                      (address_of a b c d port),
                )
                  ∷ [];
          },
        )
  unfolding endpoint_event notify_transmit
  loop-transmit rounds f handle a b c d port t e w q h hf v =
      rw
        (
          loop-oldest rounds (handle, EndpointEvent.transmit t) e w q h,
          on_transmit-v4 f e.id a b c d port t (record w { endpoint_events = q }) hf v,
        )
        refl

  Delivered : ℕ → ℕ → List Call → EndpointImpl P → World P → Type 0
  Delivered rounds f cs e w =
      (w' : World P) × (event_loop rounds (e, w) ≡ (ok false, (e, w')))
      × (inbox (e, w') ≡ [])
      × (w'.calls ≡ w.calls ++ by f cs)

  Delivered-none :
      (rounds f : ℕ) (e : EndpointImpl P) (w : World P)
      → inbox (e, w) ≡ []
      → Found e.endpoint_events_rx w.endpoint_events
      → Delivered (suc rounds) f [] e w
  unfolding Delivered
  Delivered-none rounds f e w q (nothing q' r n h) =
      (w, loop-nothing rounds e w r n h, q, sym (append-nil w.calls))
  Delivered-none rounds f e w q (oldest m rest d q' h l) = absurd (cc)

  first_message :
      (k : ℕ) (w : World P) (m : ℕ × EndpointEvent P) (rest : List (ℕ × EndpointEvent P))
      → queue_of k w.endpoint_events ≡ m ∷ rest
      → Found k w.endpoint_events
      → (q : Dict (Channel (ℕ × EndpointEvent P))) × (try_recv_on k w.endpoint_events
          ≡ (message m, q))
        × (queue_of k q ≡ rest)
  first_message k w m rest e (nothing q r n h) = absurd (cc)
  first_message k w m rest e (oldest m' rest' d q h l) = (d, cc, cc)

  loop-Delivered :
      (rounds f handle : ℕ) (ts : List P.Transmit) (cs : List Call) (e : EndpointImpl P)
      (w : World P)
      → length ts < rounds
      → w.callbacks Slot.transmit ≡ some f
      → inbox (e, w) ≡ transmit_messages handle ts
      → HandedOn P e.id ts cs
      → Delivered rounds f cs e w
  unfolding Delivered
  loop-Delivered zero f handle ts cs e w l h q x = absurd (omega arith)
  loop-Delivered (suc rounds) f handle _ _ e w l h q HandedOn.stop =
      Delivered-none rounds f e w q (try_recv_on-Found e.endpoint_events_rx w.endpoint_events)
  loop-Delivered (suc rounds) f handle _ _ e w l h q (HandedOn.more {ts} {cs} t a b c d port v x) =
      let (d', r, rest) =
        first_message e.endpoint_events_rx w (handle, EndpointEvent.transmit t)
          (transmit_messages handle ts) q
          (try_recv_on-Found e.endpoint_events_rx w.endpoint_events) in
      let call =
        Call.on_transmit e.id (P.contents t) (length (P.contents t)) (address_of a b c d port) in
      let (w', run, empty', made) =
        loop-Delivered rounds f handle ts cs e
          (record w { endpoint_events = d'; calls = w.calls ++ (f, call) ∷ [] }) (omega arith) h
          rest x in
      (
        w',
        loop-transmit rounds f handle a b c d port t e w d' r h v ∙ run,
        empty',
        made ∙ append_assoc w.calls ((f, call) ∷ []) (by f cs),
      )

  -- Datagrams of a connection that wait for its endpoint, fewer than 160 and to IPv4 addresses, all reach
  -- the application at the endpoint's next poll if its callback is set, in order and with the endpoint's
  -- id; then nothing waits.
  pub handle_connection_events-delivers :
      (f handle : ℕ) (ts : List P.Transmit) (cs : List Call) (e : EndpointImpl P) (w : World P)
      → length ts < io_loop_bound
      → w.callbacks Slot.transmit ≡ some f
      → inbox (e, w) ≡ transmit_messages handle ts
      → HandedOn P e.id ts cs
      → (w' : World P) × (handle_connection_events (e, w) ≡ (ok false, (e, w')))
        × (inbox (e, w') ≡ [])
        × (w'.calls ≡ w.calls ++ by f cs)
  unfolding handle_connection_events Delivered
  handle_connection_events-delivers f handle ts cs e w =
      loop-Delivered io_loop_bound f handle ts cs e w
