-- ===== src/Bindings/Endpoints/Shutdown.antt =====
-- An endpoint that is disposed of, and the thread that polls it.
use quinn_ffi.Prelude.{
  ℕ, ◌≡◌, refl, ◌∙◌, ap, none, some, false, [], ◌∷◌, ◌++◌, Dict, lookup, insert, erase,
  lookup-insert_self, lookup-erase_self,
}
use quinn_ffi.Effect.{ok}
use quinn_ffi.Proto.{Proto}
use quinn_ffi.World.{World, Shared, EndpointImpl, EndpointPoller, Channel}
use quinn_ffi.World.Memory.{is_null}
use quinn_ffi.World.Mpsc.{IsOpen, queue_of, send_on, drop_receiver}
use quinn_ffi.World.Mpsc.Fifo.{push_all, queue-push_all, Found, nothing, oldest, try_recv_on-Found}
use quinn_ffi.Endpoint.{exit_notice}
use quinn_ffi.Endpoint.Refs.Closed.{drop_senders-SameEndpoints, drop_connection_arcs-SameEndpoints}
use quinn_ffi.FfiResult.{ok_result}
use quinn_ffi.Handle.{drop_endpoint, drop_endpoint_arc}
use quinn_ffi.Poller.{exited, turn, thread_round, drop_poller}
use quinn_ffi.Bindings.Endpoints.{dispose_endpoint}
use quinn_ffi.Bindings.Endpoints.Disposed.{dispose_endpoint-runs}
use quinn_ffi.Bindings.Connections.Freed.{send_on-drop_receiver}

module _ {P : Proto} where
  -- One of two `Arc`s of an endpoint is dropped: the endpoint stays.
  drop_endpoint_arc-second :
      (k : ℕ) (c : Shared (EndpointImpl P)) (w : World P)
      → lookup k w.endpoints ≡ some c
      → c.strong ≡ 2
      → drop_endpoint_arc k w
        ≡ record w { endpoints = insert k (record c { strong = 1 }) w.endpoints }
  unfolding drop_endpoint_arc
  drop_endpoint_arc-second k c w h s = rw (h, drop_endpoint_arc) (rw s refl)

  drop_endpoint-rest :
      (e : EndpointImpl P) (w : World P)
      → ((drop_endpoint e w).endpoints ≡ w.endpoints) × ((drop_endpoint e w).notices ≡ w.notices)
  unfolding drop_endpoint
  drop_endpoint-rest e w =
      let (n, d, b) =
        drop_senders-SameEndpoints e.connections
          (record w { endpoint_events = drop_receiver e.endpoint_events_rx w.endpoint_events }) in
      let (n', d', b') = drop_connection_arcs-SameEndpoints e.connection_refs _ in (d' ∙ d, n' ∙ n)

  -- The last one is dropped: the endpoint is gone.
  drop_endpoint_arc-last :
      (k : ℕ) (c : Shared (EndpointImpl P)) (w : World P)
      → lookup k w.endpoints ≡ some c
      → c.strong ≡ 1
      → (lookup k (drop_endpoint_arc k w).endpoints ≡ none)
        × ((drop_endpoint_arc k w).notices ≡ w.notices)
  unfolding drop_endpoint_arc
  drop_endpoint_arc-last k c w h s =
      let gone : World P = record w { endpoints = erase k w.endpoints } in
      let rest = drop_endpoint-rest c.value gone in
      rw (h, drop_endpoint_arc)
        (rw s (ap (lookup k) rest.0 ∙ lookup-erase_self k w.endpoints, rest.1))

  -- The exit code is received.
  received-exit :
      (t : EndpointPoller) (w : World P)
      → t.loop_again ≡ false
      → queue_of t.receiver w.notices ≡ exit_notice ∷ []
      → Found t.receiver w.notices
      → (d : Dict (Channel ℕ)) × (turn t w ≡ (ok exited, record w { notices = d }))
  unfolding turn
  received-exit t w l q (nothing none_waits r n h) =
      absurd (let both : [] ≡ exit_notice ∷ [] = cc in cc)
  received-exit t w l q (oldest m rest d found h left) =
      let is_exit : m ≡ exit_notice = cc in (d, rw (l, h, is_exit) refl)

  -- Disposing of an endpoint that its handle and its thread share ends both. The call returns `Ok` and
  -- frees the handle's box; the thread's next round receives the exit code and is its last; and then
  -- the endpoint is gone, and no notice can be sent to the thread. So it is for a valid handle whose
  -- lock is free and not poisoned, while the thread waits with no notice on the way.
  pub dispose_endpoint-shutdown :
      (p : ℕ) (t : EndpointPoller) (cell : Shared (EndpointImpl P)) (w : World P)
      → is_null p ≡ false
      → lookup p w.endpoint_boxes ≡ some t.endpoint_ref
      → lookup t.endpoint_ref w.endpoints ≡ some cell
      → cell.strong ≡ 2
      → cell.locked ≡ false
      → cell.poisoned ≡ false
      → cell.value.endpoint_poll_notifier ≡ some t.receiver
      → t.loop_again ≡ false
      → IsOpen t.receiver w.notices
      → queue_of t.receiver w.notices ≡ []
      → let (r, w₁) = dispose_endpoint p w in
        let (x, w₂) = thread_round t w₁ in
        (r ≡ ok ok_result)
        × (lookup p w₁.endpoint_boxes ≡ none)
        × (x ≡ ok exited)
        × (lookup t.endpoint_ref w₂.endpoints ≡ none)
        × ((code : ℕ) → send_on t.receiver code w₂.notices ≡ none)
  unfolding thread_round drop_poller push_all
  dispose_endpoint-shutdown p t cell w z b h two l f nn a o q =
      let k = t.endpoint_ref in
      let n = t.receiver in
      let (left, w', run, strong, stored, notices, boxes) =
        dispose_endpoint-runs p k n cell w z b h l f nn o in
      let one = record left { strong = 1 } in
      let w₁ : World P = record w' { endpoints = insert k one w'.endpoints } in
      let dropped = drop_endpoint_arc-second k left w' stored (strong ∙ two) in
      let waits : queue_of n w₁.notices ≡ exit_notice ∷ [] =
        ap (queue_of n) notices
        ∙ (queue-push_all n (exit_notice ∷ []) w.notices o ∙ ap (λ xs. xs ++ exit_notice ∷ []) q) in
      let (d, turned) = received-exit t w₁ a waits (try_recv_on-Found n w₁.notices) in
      let ending : World P = record w₁ { notices = drop_receiver n d } in
      let (gone, kept) =
        drop_endpoint_arc-last k one ending (lookup-insert_self k one w'.endpoints) refl in
      rw (run, dropped, turned)
        (
          refl,
          ap (lookup p) boxes ∙ lookup-erase_self p w.endpoint_boxes,
          refl,
          gone,
          λ code. ap (send_on n code) kept ∙ send_on-drop_receiver n code d,
        )
