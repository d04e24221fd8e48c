-- ===== src/Poller/Stopped.antt =====
-- `EndpointImpl::close` of src/proto_impl/endpoint.rs and the thread that polls the endpoint.
use quinn_ffi.Prelude.{◌≡◌, refl, ◌∙◌, ap, some, false, [], ◌∷◌, ◌++◌}
use quinn_ffi.Effect.{ok}
use quinn_ffi.Proto.{Proto}
use quinn_ffi.World.{World, EndpointPoller, EndpointImpl}
use quinn_ffi.World.Mpsc.{IsOpen, queue_of}
use quinn_ffi.World.Mpsc.Fifo.{push_all, queue-push_all}
use quinn_ffi.Endpoint.{exit_notice}
use quinn_ffi.Endpoint.Refs.{close}
use quinn_ffi.Endpoint.Refs.Closed.{close-exit}
use quinn_ffi.Poller.{exited, turn}
use quinn_ffi.Poller.Exits.{turn-exits}

module _ {P : Proto} where
  -- Closing an endpoint ends its thread: if the thread waits at the channel that the endpoint notifies,
  -- and no notice is on the way, its next round is its last.
  pub close-exits :
      (p : EndpointPoller) (e : EndpointImpl P) (w : World P)
      → e.endpoint_poll_notifier ≡ some p.receiver
      → p.loop_again ≡ false
      → IsOpen p.receiver w.notices
      → queue_of p.receiver w.notices ≡ []
      → (turn p (close (e, w)).1.1).0 ≡ ok exited
  unfolding push_all
  close-exits p e w h l o q =
      let k = p.receiver in
      let (w', run, same) = close-exit k e w h o in
      let waits : queue_of k (close (e, w)).1.1.notices ≡ exit_notice ∷ [] =
        rw run (ap (queue_of k) same.0)
        ∙ (queue-push_all k (exit_notice ∷ []) w.notices o ∙ ap (λ xs. xs ++ exit_notice ∷ []) q) in
      (turn-exits p exit_notice [] (close (e, w)).1.1 l waits).1 refl
