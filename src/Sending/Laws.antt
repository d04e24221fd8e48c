-- ===== src/Sending/Laws.antt =====
-- Sending to a channel whose receiver is there.
use quinn_ffi.Prelude.{
  ℕ, ◌≡◌, ◌≢◌, arith, Option-cases, Bool-cases, inl, inr, [], ◌∷◌, ◌++◌, lookup, lookup-insert_ne,
}
use quinn_ffi.Effect.{ok}
use quinn_ffi.Proto.{Proto}
use quinn_ffi.World.{World, ConnectionEvent, EndpointEvent}
use quinn_ffi.World.Mpsc.{IsOpen, queue_of, send_on}
use quinn_ffi.World.Mpsc.Fifo.{push, send_on-push}
use quinn_ffi.Sending.{send_endpoint_event, send_connection_event, send_notice}

module _ {P : Proto} where
  pub send_endpoint_event-push :
      (k : ℕ) (m : ℕ × EndpointEvent P) (w : World P)
      → IsOpen k w.endpoint_events
      → send_endpoint_event k m w
        ≡ (ok tt, record w { endpoint_events = push k m w.endpoint_events })
  unfolding send_endpoint_event
  send_endpoint_event-push k m w o = ground (arith, send_on-push k m w.endpoint_events o)

  pub send_connection_event-push :
      (k : ℕ) (m : ConnectionEvent P) (w : World P)
      → IsOpen k w.connection_events
      → send_connection_event k m w
        ≡ (ok tt, record w { connection_events = push k m w.connection_events })
  unfolding send_connection_event
  send_connection_event-push k m w o = ground (arith, send_on-push k m w.connection_events o)

  pub send_notice-push :
      (k m : ℕ) (w : World P)
      → IsOpen k w.notices
      → send_notice k m w ≡ (ok tt, record w { notices = push k m w.notices })
  unfolding send_notice
  send_notice-push k m w o = ground (arith, send_on-push k m w.notices o)

  -- A message to one connection waits in no other connection's channel.
  pub send_connection_event-queue_ne :
      (j k : ℕ) (m : ConnectionEvent P) (w : World P)
      → j ≢ k
      → queue_of k (send_connection_event j m w).1.connection_events
        ≡ queue_of k w.connection_events
  unfolding send_connection_event send_on queue_of
  send_connection_event-queue_ne j k m w n = elim (Option-cases (lookup j w.connection_events)) [
    | inl e ↦ ground arith
    | inr (c, e) ↦ elim (Bool-cases c.receiver_alive) [
      | inl r ↦ ground (
        arith,
        lookup-insert_ne k j (record c { queue = c.queue ++ m ∷ [] }) w.connection_events n,
      )
      | inr r ↦ ground arith
    ]
  ]
