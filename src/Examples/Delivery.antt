-- ===== src/Examples/Delivery.antt =====
-- The theorems on the way of a datagram, at a concrete endpoint and connection.
use quinn_ffi.Prelude.{ℕ, ◌≡◌, refl, true, false, [], ◌∷◌, arith, lookup}
use quinn_ffi.Effect.{ok}
use quinn_ffi.Addr.{IpAddr}
use quinn_ffi.World.{World, Call}
use quinn_ffi.World.Mpsc.{IsOpen, queue_of}
use quinn_ffi.Connection.{handle_transmits}
use quinn_ffi.Connection.Transmits.{Drains, transmit_messages}
use quinn_ffi.Endpoint.{handle_connection_events, poll}
use quinn_ffi.Endpoint.Loop.{inbox}
use quinn_ffi.Endpoint.Delivery.{HandedOn}
use quinn_ffi.Endpoint.Delivery.Sent.{transmits-delivered}
use quinn_ffi.Endpoint.Poll.{Emits, poll-delivers}
use quinn_ffi.Examples.Toy.{toy, ToyConnection, toy-IsDraining}
use quinn_ffi.Examples.Worlds.{world, connection, endpoint, peer, open_channel, toy_endpoint, busy}

abbrev peer_address : IpAddr
peer_address = record { port = 4433; address_0 = 127; address_1 = 0; address_2 = 0; address_3 = 1 }

-- The call for a datagram of one byte.
abbrev call_of : ℕ → Call
call_of b = Call.on_transmit 1 (b ∷ []) 1 peer_address

one_byte-HandedOn : (b : ℕ) → HandedOn toy 1 ((b ∷ [], peer) ∷ []) (call_of b ∷ [])
one_byte-HandedOn b = HandedOn.more (b ∷ [], peer) 127 0 0 1 4433 refl HandedOn.stop

-- Nothing waits for the endpoint.
abbrev idle : World toy
idle = record world { endpoint_events = (1, open_channel []) ∷ [] }

idle-IsOpen : IsOpen 1 idle.endpoint_events
unfolding lookup
idle-IsOpen = (_, refl, refl)

idle-inbox : inbox (endpoint, idle) ≡ []
unfolding queue_of lookup
idle-inbox = refl

abbrev drained : ToyConnection
drained = record busy { outgoing = [] }

busy-Drains : Drains toy world.clock 0 busy ((7 ∷ [], peer) ∷ []) 2 drained
busy-Drains = Drains.more (7 ∷ [], peer) drained refl (Drains.stop 2 drained refl refl)

transmits-delivered_example :
    let (x, (c', w₁)) = handle_transmits (connection, idle) in
    (w₂ : World toy) × (x ≡ ok true)
    × (handle_connection_events (endpoint, w₁) ≡ (ok false, (endpoint, w₂)))
    × (inbox (endpoint, w₂) ≡ [])
    × (w₂.calls ≡ (77, call_of 7) ∷ [])
transmits-delivered_example =
    transmits-delivered toy-IsDraining 77 connection endpoint idle ((7 ∷ [], peer) ∷ []) 2 drained
      (call_of 7 ∷ []) refl idle-IsOpen idle-inbox refl busy-Drains (omega arith)
      (one_byte-HandedOn 7)

toy_endpoint-Emits :
    Emits toy toy_endpoint ((8 ∷ [], peer) ∷ []) (record toy_endpoint { outgoing = [] })
toy_endpoint-Emits =
    Emits.more (8 ∷ [], peer) (record toy_endpoint { outgoing = [] }) refl
      (Emits.stop (record toy_endpoint { outgoing = [] }) refl)

world-inbox : inbox (endpoint, world) ≡ transmit_messages 9 ((6 ∷ [], peer) ∷ [])
unfolding queue_of lookup
world-inbox = refl

poll-delivers_example :
    let e' = record endpoint { inner = record toy_endpoint { outgoing = [] } } in
    (w' : World toy) × (poll (endpoint, world) ≡ (ok false, (e', w')))
    × (inbox (e', w') ≡ [])
    × (w'.calls ≡ (77, call_of 8) ∷ (77, call_of 6) ∷ [])
poll-delivers_example =
    poll-delivers toy-IsDraining 77 9 endpoint world ((8 ∷ [], peer) ∷ []) ((6 ∷ [], peer) ∷ [])
      (record toy_endpoint { outgoing = [] }) (call_of 8 ∷ []) (call_of 6 ∷ []) refl
      toy_endpoint-Emits (one_byte-HandedOn 8) world-inbox (omega arith) (one_byte-HandedOn 6)
