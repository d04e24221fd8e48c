-- ===== src/Endpoint/Senders/Methods.antt =====
-- The methods of `EndpointImpl` and the map of senders.
use quinn_ffi.Prelude.{ℕ, arith, ◌≡◌, refl, Option, none, some, [], lookup}
use quinn_ffi.Effect.{M, ok, lift}
use quinn_ffi.Effect.Laws.{Preserves, >>=-Preserves}
use quinn_ffi.Proto.{Proto}
use quinn_ffi.World.{World, EndpointImpl}
use quinn_ffi.World.Grows.{
  Grows, Grows-refl, Grows-same, on_transmit-Grows, send_connection_event-Grows,
  drop_connection_arc-Grows,
}
use quinn_ffi.Callbacks.{on_transmit}
use quinn_ffi.Sending.{send_connection_event, send_notice}
use quinn_ffi.Endpoint.{Endp, inner, notify_transmit, recv_endpoint_event, remove_sender}
use quinn_ffi.Endpoint.Preserved.{PartsPreserve}
use quinn_ffi.Endpoint.Refs
use quinn_ffi.Endpoint.Senders.{
  IsWf, IsWf-Grows, IsWf-none, remove_sender-IsWf, add_connection-IsWf,
}

module _ {P : Proto} where
  abbrev pub KeepsWf : {A : Type 0} → Endp P A → Type 0
  KeepsWf m = Preserves (IsWf {P = P}) m

  -- Code that does not touch the map.
  lift-IsWf :
      {A : Type 0} (m : M (World P) A) → ((w : World P) → Grows w (m w).1) → KeepsWf (lift m)
  lift-IsWf m g (e, w) i = IsWf-Grows (e, w) (e, (m w).1) refl (g w) i

  pub inner-IsWf : {A : Type 0} (f : P.Endpoint → A × P.Endpoint) → KeepsWf (inner f)
  inner-IsWf f (e, w) i =
      IsWf-Grows (e, w) (record e { inner = (f e.inner).1 }, w) refl (Grows-refl w) i

  notify_transmit-IsWf : (t : P.Transmit) → KeepsWf (notify_transmit t)
  unfolding notify_transmit
  notify_transmit-IsWf t s = lift-IsWf (on_transmit P s.0.id t) (on_transmit-Grows s.0.id t) s

  recv_endpoint_event-IsWf : KeepsWf (recv_endpoint_event)
  unfolding recv_endpoint_event
  recv_endpoint_event-IsWf (e, w) i =
      IsWf-Grows (e, w) (recv_endpoint_event (e, w)).1 refl
        (Grows-same w (recv_endpoint_event (e, w)).1.1 refl refl) i

  pub parts-IsWf : PartsPreserve (IsWf {P = P})
  parts-IsWf = record {
    inner = λ f. inner-IsWf f;
    transmitted = notify_transmit-IsWf;
    sent =
        λ k event. lift-IsWf (send_connection_event k event) (send_connection_event-Grows k event);
    received = recv_endpoint_event-IsWf;
    removed = remove_sender-IsWf;
    added = add_connection-IsWf;
  }

  drop_ref-Grows : (o : Option ℕ) (w : World P) → Grows w (Refs.drop_ref o w)
  unfolding Refs.drop_ref
  drop_ref-Grows none w = Grows-refl w
  drop_ref-Grows (some k) w = drop_connection_arc-Grows k w

  pub register-IsWf : (handle k : ℕ) → KeepsWf (Refs.register_pollable_connection handle k)
  unfolding Refs.register_pollable_connection Refs.drop_ref
  register-IsWf handle k (e, w) i =
      IsWf-Grows (e, w) (Refs.register_pollable_connection handle k (e, w)).1 refl
        (drop_ref-Grows (lookup handle e.connection_refs) w) i

  pub remove_connection-IsWf : (handle : ℕ) → KeepsWf (Refs.remove_connection handle)
  unfolding Refs.remove_connection Refs.remove_ref
  remove_connection-IsWf handle =
      >>=-Preserves IsWf (Refs.remove_ref handle) (λ _. remove_sender handle)
        (λ s i.
          IsWf-Grows s (Refs.remove_ref handle s).1 refl
            (drop_ref-Grows (lookup handle s.0.connection_refs) s.1) i)
        (λ _. remove_sender-IsWf handle)

  send_exit-ok : (o : Option ℕ) (w : World P) → (Refs.send_exit o w).0 ≡ ok tt
  unfolding Refs.send_exit send_notice
  send_exit-ok none w = refl
  send_exit-ok (some k) w = ground arith

  close-none : (s : EndpointImpl P × World P) → (Refs.close s).1.0.connections ≡ []
  unfolding Refs.close
  close-none s = ground (arith, send_exit-ok s.0.endpoint_poll_notifier s.1)

  pub close-IsWf : KeepsWf Refs.close
  close-IsWf s i = IsWf-none (Refs.close s).1.0 (Refs.close s).1.1 (close-none s)
