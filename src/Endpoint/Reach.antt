-- ===== src/Endpoint/Reach.antt =====
-- What an endpoint can become: the methods of `EndpointImpl` in any order, with other code between them.
use quinn_ffi.Prelude.{
  ℕ, Bool, List, ◌≡◌, ◌≢◌, refl, ◌∙◌, ap, Option, Option-cases, inl, inr, some, lookup, arith,
}
use quinn_ffi.ErrorKind.{Text}
use quinn_ffi.Effect.{ok}
use quinn_ffi.Proto.{Proto, SocketAddr}
use quinn_ffi.World.{World, EndpointImpl, ConnectionEvent}
use quinn_ffi.World.Mpsc.{queue_of}
use quinn_ffi.World.Grows.{Grows}
use quinn_ffi.Sending.Laws.{send_connection_event-queue_ne}
use quinn_ffi.Endpoint.{
  inner, new_endpoint, add_connection, forward_event_to_connection, poll, connect, connect_with,
  set_poll_notifier, set_default_client_config,
}
use quinn_ffi.Endpoint.Refs.{
  register_pollable_connection, remove_connection, poll_connection, close,
}
use quinn_ffi.Endpoint.Senders.{IsWf, IsWf-Grows, new_endpoint-IsWf, add_connection-IsWf}
use quinn_ffi.Endpoint.Senders.Methods.{
  parts-IsWf, register-IsWf, remove_connection-IsWf, close-IsWf, inner-IsWf,
}
use quinn_ffi.Endpoint.Preserved.{
  forward-Preserves, poll-Preserves, connect-Preserves, connect_with-Preserves,
}
use quinn_ffi.Endpoint.Senders.Polled.{poll_connection-IsWf}

module _ {P : Proto} where
  -- One step: a method runs, however it ends; the library takes a datagram; or other code runs that drops no
  -- sender and uses up no number twice.
  pub data Step (s : EndpointImpl P × World P) : EndpointImpl P × World P → Type 0 where
    polled : Step s (poll s).1
    added : (handle : ℕ) (conn : P.Connection) → Step s (add_connection handle conn s).1
    connected : (addr : SocketAddr) (name : Text) → Step s (connect addr name s).1
    connected_with :
        (config : P.ClientConfig) (addr : SocketAddr) (name : Text)
        → Step s (connect_with config addr name s).1
    forwarded :
        (handle : ℕ) (event : P.ConnectionEvent)
        → Step s (forward_event_to_connection handle event s).1
    registered : (handle k : ℕ) → Step s (register_pollable_connection handle k s).1
    polled_connection :
        (auto_poll : Bool) (handle : ℕ) → Step s (poll_connection auto_poll handle s).1
    received :
        (now : ℕ) (addr : SocketAddr) (datagram : List ℕ)
        → Step s (inner (λ i. P.handle i now addr datagram) s).1
    removed : (handle : ℕ) → Step s (remove_connection handle s).1
    notified : (notifier : ℕ) → Step s (set_poll_notifier notifier s).1
    configured : (config : P.ClientConfig) → Step s (set_default_client_config config s).1
    closed : Step s (close s).1
    elsewhere : (w : World P) → Grows s.1 w → Step s (s.0, w)

  -- Any number of steps.
  pub data Reach (s : EndpointImpl P × World P) : EndpointImpl P × World P → Type 0 where
    here : Reach s s
    then : (s₁ s₂ : EndpointImpl P × World P) → Reach s s₁ → Step s₁ s₂ → Reach s s₂

  Step-IsWf : (s s' : EndpointImpl P × World P) → Step s s' → IsWf s → IsWf s'
  unfolding set_poll_notifier set_default_client_config
  Step-IsWf s _ Step.polled i = poll-Preserves IsWf parts-IsWf s i
  Step-IsWf s _ (Step.added handle conn) i = add_connection-IsWf handle conn s i
  Step-IsWf s _ (Step.connected addr name) i = connect-Preserves IsWf parts-IsWf addr name s i
  Step-IsWf s _ (Step.connected_with config addr name) i =
      connect_with-Preserves IsWf parts-IsWf config addr name s i
  Step-IsWf s _ (Step.forwarded handle event) i = forward-Preserves IsWf parts-IsWf handle event s i
  Step-IsWf s _ (Step.registered handle k) i = register-IsWf handle k s i
  Step-IsWf s _ (Step.polled_connection auto_poll handle) i =
      poll_connection-IsWf auto_poll handle s i
  Step-IsWf s _ (Step.received now addr datagram) i =
      inner-IsWf (λ j. P.handle j now addr datagram) s i
  Step-IsWf s _ (Step.removed handle) i = remove_connection-IsWf handle s i
  Step-IsWf s _ (Step.notified notifier) i =
      IsWf-Grows s (set_poll_notifier notifier s).1 refl (omega arith, λ k a. a) i
  Step-IsWf s _ (Step.configured config) i =
      IsWf-Grows s (set_default_client_config config s).1 refl (omega arith, λ k a. a) i
  Step-IsWf s _ Step.closed i = close-IsWf s i
  Step-IsWf s _ (Step.elsewhere w g) i = IsWf-Grows s (s.0, w) refl g i

  Reach-IsWf : (s s' : EndpointImpl P × World P) → Reach s s' → IsWf s → IsWf s'
  Reach-IsWf s _ Reach.here i = i
  Reach-IsWf s s' (Reach.then s₁ _ r t) i = Step-IsWf s₁ s' t (Reach-IsWf s s₁ r i)

  -- Whatever methods run on a new endpoint, in any order and however they end, with other code between them
  -- that drops no sender of a connection's channel: each handle of the map of senders has a sender that is
  -- alive, with a number below the next fresh one, and no two handles have the same.
  pub new_endpoint-Reach-IsWf :
      (i : P.Endpoint) (e : EndpointImpl P) (w w' : World P) (s : EndpointImpl P × World P)
      → new_endpoint i w ≡ (ok e, w')
      → Reach (e, w') s
      → IsWf s
  new_endpoint-Reach-IsWf i e w w' s h r = Reach-IsWf (e, w') s r (new_endpoint-IsWf i e w w' h)

  -- Where every sender of the map is alive and no two handles have the same, an event forwarded to one
  -- connection changes no queue of another.
  pub forward-others :
      (handle other k : ℕ) (event : P.ConnectionEvent) (e : EndpointImpl P) (w : World P)
      → IsWf (e, w)
      → other ≢ handle
      → lookup other e.connections ≡ some k
      → queue_of k (forward_event_to_connection handle event (e, w)).1.1.connection_events
        ≡ queue_of k w.connection_events
  unfolding forward_event_to_connection
  forward-others handle other k event e w i n h =
      elim (Option-cases (lookup handle e.connections)) [
        | inl q ↦ ground arith
        | inr (j, q) ↦ ground (
          arith,
          send_connection_event-queue_ne j k (ConnectionEvent.proto event) w
              (λ p. n (i.distinct other handle k h (q ∙ ap {B = Option ℕ} some p))),
        )
      ]
