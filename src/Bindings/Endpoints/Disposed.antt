-- ===== src/Bindings/Endpoints/Disposed.antt =====
-- `dispose_endpoint` on an endpoint whose lock is free and not poisoned.
use quinn_ffi.Prelude.{
  ℕ, ◌≡◌, refl, ◌∙◌, ap, none, some, inl, inr, Option-cases, Bool-cases, ◌==◌, true, false, [], ◌∷◌,
  ◌++◌, lookup, insert, erase, lookup-insert_self, lookup-erase_self, arith, bytes,
}
use quinn_ffi.Effect.{ok}
use quinn_ffi.Proto.{Proto}
use quinn_ffi.World.{World, Shared, EndpointImpl}
use quinn_ffi.World.Memory.{is_null}
use quinn_ffi.World.Mpsc.{IsOpen, queue_of, drop_receiver}
use quinn_ffi.World.Mpsc.Fifo.{push, push_all, queue-push_all}
use quinn_ffi.World.Mutex.{release}
use quinn_ffi.Endpoint.{exit_notice}
use quinn_ffi.Endpoint.Refs
use quinn_ffi.Endpoint.Refs.{drop_senders}
use quinn_ffi.Endpoint.Refs.Closed.{
  close-exit, drop_senders-SameEndpoints, drop_connection_arcs-SameEndpoints,
}
use quinn_ffi.FfiResult.{ok_result}
use quinn_ffi.FfiResult.Laws.{clear_last, catch-ok}
use quinn_ffi.Api.Laws.{first_null, safe_ffi-catch}
use quinn_ffi.Handle.{dealloc_endpoint, deref_endpoint, drop_endpoint, drop_endpoint_arc}
use quinn_ffi.Handle.Poison.{endpoint_access-runs}
use quinn_ffi.Bindings.Endpoints.{dispose_endpoint, dispose_body, disposed}

pub first_null-none :
    (p : ℕ) → is_null p ≡ false → first_null ((bytes "handle", is_null p) ∷ []) ≡ none
first_null-none p h = ground arith

module _ {P : Proto} where
  -- The notices and the boxes are the same in both states.
  Same : World P → World P → Type 0
  Same w w' = (w'.notices ≡ w.notices) × (w'.endpoint_boxes ≡ w.endpoint_boxes)

  drop_endpoint-Same : (e : EndpointImpl P) (w : World P) → Same w (drop_endpoint e w)
  unfolding Same drop_endpoint
  drop_endpoint-Same e w =
      let (a, b, c) =
        drop_senders-SameEndpoints e.connections
          (record w { endpoint_events = drop_receiver e.endpoint_events_rx w.endpoint_events }) in
      let (a', b', c') = drop_connection_arcs-SameEndpoints e.connection_refs _ in (a' ∙ a, c' ∙ c)

  drop_endpoint_arc-Same : (k : ℕ) (w : World P) → Same w (drop_endpoint_arc k w)
  unfolding Same drop_endpoint_arc
  drop_endpoint_arc-Same k w = elim (Option-cases (lookup k w.endpoints)) [
    | inl e ↦ rw (e, drop_endpoint_arc) (refl, refl)
    | inr (c, e) ↦ elim (Bool-cases (c.strong == 1)) [
      | inl o ↦ rw (e, drop_endpoint_arc, o) (drop_endpoint-Same c.value _)
      | inr o ↦ rw (e, drop_endpoint_arc, o) (refl, refl)
    ]
  ]

  -- Disposing closes the endpoint under its lock, frees the box, and drops the box's `Arc`, in that order.
  pub dispose_endpoint-runs :
      (p k n : ℕ) (cell : Shared (EndpointImpl P)) (w : World P)
      → is_null p ≡ false
      → lookup p w.endpoint_boxes ≡ some k
      → lookup k w.endpoints ≡ some cell
      → cell.locked ≡ false
      → cell.poisoned ≡ false
      → cell.value.endpoint_poll_notifier ≡ some n
      → IsOpen n w.notices
      → (left : Shared (EndpointImpl P)) × (w' : World P) × (dispose_endpoint p w
          ≡ (ok ok_result, drop_endpoint_arc k w'))
        × (left.strong ≡ cell.strong)
        × (lookup k w'.endpoints ≡ some left)
        × (w'.notices ≡ push n exit_notice w.notices)
        × (w'.endpoint_boxes ≡ erase p w.endpoint_boxes)
  unfolding dispose_endpoint dispose_body disposed dealloc_endpoint deref_endpoint
  dispose_endpoint-runs p k n cell w z b h l f nn o =
      let cell' = record cell { locked = true } in
      let held : World P = record (clear_last w) { endpoints = insert k cell' w.endpoints } in
      let (w₁, run, same) = close-exit n cell.value held nn o in
      let closed = record cell.value { connections = []; connection_refs = [] } in
      let left = release {B = Unit {0}} (ok tt) closed cell' in
      let w₂ : World P = record w₁ { endpoints = insert k left w₁.endpoints } in
      let w₃ : World P = record w₂ { endpoint_boxes = erase p w₂.endpoint_boxes } in
      let access =
        endpoint_access-runs p k Refs.close cell cell' (ok tt) closed (clear_last w) w₁ b h l f run
          (ap (lookup k) same.1 ∙ lookup-insert_self k cell' w.endpoints) in
      let boxed : lookup p w₂.endpoint_boxes ≡ some k = ap (lookup p) same.2 ∙ b in
      let body : dispose_body p (clear_last w) ≡ (ok ok_result, drop_endpoint_arc k w₃) =
        rw (access, boxed) refl in
      (
        left,
        w₃,
        rw
            (
              safe_ffi-catch ((bytes "handle", is_null p) ∷ []) (dispose_body p)
                  (first_null-none p z),
              catch-ok (dispose_body p) ok_result w (drop_endpoint_arc k w₃) body,
            )
            refl,
        refl,
        lookup-insert_self k left w₁.endpoints,
        same.0,
        ap (erase p) same.2,
      )

  -- Disposing of an endpoint returns `Ok`, frees the handle's memory, and leaves the exit code for the
  -- thread that polls it, behind the notices that wait there. So it is for a valid handle whose lock is
  -- free and not poisoned, while the thread's receiver is there.
  pub dispose_endpoint-frees :
      (p k n : ℕ) (cell : Shared (EndpointImpl P)) (w : World P)
      → is_null p ≡ false
      → lookup p w.endpoint_boxes ≡ some k
      → lookup k w.endpoints ≡ some cell
      → cell.locked ≡ false
      → cell.poisoned ≡ false
      → cell.value.endpoint_poll_notifier ≡ some n
      → IsOpen n w.notices
      → let (r, w') = dispose_endpoint p w in
        (r ≡ ok ok_result)
        × (lookup p w'.endpoint_boxes ≡ none)
        × (queue_of n w'.notices ≡ queue_of n w.notices ++ exit_notice ∷ [])
  unfolding Same push_all
  dispose_endpoint-frees p k n cell w z b h l f nn o =
      let (left, w', run, strong, stored, notices, boxes) =
        dispose_endpoint-runs p k n cell w z b h l f nn o in
      let same = drop_endpoint_arc-Same k w' in
      rw run (
        refl,
        ap (lookup p) (same.1 ∙ boxes) ∙ lookup-erase_self p w.endpoint_boxes,
        ap (queue_of n) (same.0 ∙ notices) ∙ queue-push_all n (exit_notice ∷ []) w.notices o,
      )
