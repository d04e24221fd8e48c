-- ===== src/Endpoint/Delivery/Sent.antt =====
-- From a connection to the application: the datagrams of `handle_transmits` at the endpoint's next poll.
use quinn_ffi.Prelude.{
  ℕ, ◌+◌, ◌<◌, ◌≡◌, refl, ◌∙◌, ap, sym, subst, some, false, List, [], Dict, ◌++◌, length,
}
use quinn_ffi.Effect.{ok}
use quinn_ffi.Proto.{Proto, IsDraining}
use quinn_ffi.World.{World, Channel, ConnectionImpl, EndpointImpl, Slot, Call}
use quinn_ffi.World.Mpsc.{IsOpen, queue_of}
use quinn_ffi.World.Mpsc.Fifo.{push_all, queue-push_all}
use quinn_ffi.Connection.{handle_transmits}
use quinn_ffi.Connection.Transmits.{
  Drains, transmit_messages, handle_transmits-Drains, is_cons, sent,
}
use quinn_ffi.Endpoint.{handle_connection_events, io_loop_bound}
use quinn_ffi.Endpoint.Loop.{inbox}
use quinn_ffi.Endpoint.Delivery.{HandedOn, by, handle_connection_events-delivers}

queue-sent :
    {A : Type 0} (k k' : ℕ) (xs : List A) (d : Dict (Channel A))
    → k ≡ k'
    → IsOpen k d
    → queue_of k' d ≡ []
    → queue_of k' (push_all k xs d) ≡ xs
queue-sent k k' xs d p o q =
    ap (λ n. queue_of n (push_all k xs d)) (sym p)
    ∙ queue-push_all k xs d o
    ∙ ap (λ ys. ys ++ xs) (ap (λ n. queue_of n d) p ∙ q)

module _ {P : Proto} where
  -- A connection gives the same datagrams whenever it is asked at the same instants.
  Drains-unique :
      {clock : ℕ → ℕ} (r : ℕ) (i : P.Connection) (ts ts' : List P.Transmit) (r₁ r₂ : ℕ)
      (j₁ j₂ : P.Connection)
      → Drains P clock r i ts r₁ j₁
      → Drains P clock r i ts' r₂ j₂
      → ts ≡ ts'
  Drains-unique r i _ _ _ _ _ _ (Drains.stop r₁ j e p) (Drains.stop r₂ j' e' p') = refl
  Drains-unique r i _ _ _ _ _ _ (Drains.stop r₁ j e p) (Drains.more t' i' e' x') = absurd (cc)
  Drains-unique r i _ _ _ _ _ _ (Drains.more t i₁ e x) (Drains.stop r₂ j e' p') = absurd (cc)
  Drains-unique {clock} r i _ _ r₁ r₂ j₁ j₂ (Drains.more {ts} t i₁ e x)
        (Drains.more {ts = ts'} t' i₂ e' x') =
      let same : i₁ ≡ i₂ = cc in
      let rest =
        Drains-unique (r + 1) i₂ ts ts' r₁ r₂ j₁ j₂
          (subst (λ i'. Drains P clock (r + 1) i' ts r₁ j₁) same x) x' in
      cc

  -- What a connection sends reaches the application: when `handle_transmits` of a connection has run, with
  -- nothing else waiting for the endpoint, and the endpoint handles its messages, the application's
  -- callback is called once for each datagram that the connection gives, in order. So it is with a library
  -- whose queues run dry, the callback set, and fewer than 160 datagrams, all to IPv4 addresses.
  pub transmits-delivered :
      IsDraining P
      → (f : ℕ) (c : ConnectionImpl P) (e : EndpointImpl P) (w : World P) (ts : List P.Transmit)
        (r : ℕ) (j : P.Connection) (cs : List Call)
      → c.endpoint_events ≡ e.endpoint_events_rx
      → IsOpen c.endpoint_events w.endpoint_events
      → inbox (e, w) ≡ []
      → w.callbacks Slot.transmit ≡ some f
      → Drains P w.clock w.reads c.inner ts r j
      → length ts < io_loop_bound
      → HandedOn P e.id ts cs
      → let (x, (c', w₁)) = handle_transmits (c, w) in
        (w₂ : World P) × (x ≡ ok (is_cons ts))
        × (handle_connection_events (e, w₁) ≡ (ok false, (e, w₂)))
        × (inbox (e, w₂) ≡ [])
        × (w₂.calls ≡ w.calls ++ by f cs)
  transmits-delivered d f c e w ts r j cs k o q h drains l x =
      let (ts', r', j', drains', run, sent_on) = handle_transmits-Drains d c w o in
      let same : ts' ≡ ts = Drains-unique w.reads c.inner ts' ts r' r j' j drains' drains in
      let (c₁, w₁) = sent c j' r' (transmit_messages c.connection_handle ts) w in
      let waits : inbox (e, w₁) ≡ transmit_messages c.connection_handle ts =
        queue-sent c.endpoint_events e.endpoint_events_rx _ w.endpoint_events k o q in
      let (w₂, handled, none_left, made) =
        handle_connection_events-delivers f c.connection_handle ts cs e w₁ l h waits x in
      let run' : handle_transmits (c, w) ≡ (ok (is_cons ts), (c₁, w₁)) =
        subst
          (λ us.
            handle_transmits (c, w)
            ≡ (ok (is_cons us), sent c j' r' (transmit_messages c.connection_handle us) w))
          same run in
      rw run' (w₂, refl, handled, none_left, made)
