-- ===== src/Endpoint/Refs/Parts.antt =====
-- The methods of `EndpointImpl` that leave the references to connections as they are.
use quinn_ffi.Prelude.{
  ℕ, ◌≡◌, ◌≤◌, refl, arith, Option, none, some, Option-cases, inl, inr, lookup, Bool, bytes,
}
use quinn_ffi.Effect.{M, lift, raise, pure}
use quinn_ffi.ErrorKind.{io_error}
use quinn_ffi.Effect.Laws.{Preserves}
use quinn_ffi.Proto.{Proto}
use quinn_ffi.World.{World, EndpointImpl, ConnectionEvent, EndpointEvent, Call}
use quinn_ffi.World.Clock.{now}
use quinn_ffi.World.Arcs.Left.{Leaves, Leaves-refl, Leaves-same, Leaves-writes}
use quinn_ffi.Addr.{from_socket_addr}
use quinn_ffi.Callbacks.{invoke, on_transmit}
use quinn_ffi.Connection.{Conn, new_connection, mark_pollable}
use quinn_ffi.Handle.{connection_access, deref_connection}
use quinn_ffi.World.Mutex.{with_lock, with_try_lock}
use quinn_ffi.Endpoint.Refs.{poll_connection}
use quinn_ffi.Sending.{
  send_connection_event, send_endpoint_event, send_notice, recv_connection_event,
}
use quinn_ffi.Connection.Preserved.{WorldPreserves, mark_pollable-Preserves}
use quinn_ffi.World.Mutex.Locked.{tried-Preserves, locked-Preserves}
use quinn_ffi.Endpoint.{
  Endp, inner, notify_transmit, recv_endpoint_event, add_connection, connection_channel,
  connection_cells, put_connection_cells, insert_sender, drop_connection_sender,
}
use quinn_ffi.Endpoint.Preserved.{PartsPreserve}
use quinn_ffi.Endpoint.Refs.Counted.{
  Outside, AreCounted, Leaves-AreCounted, remove_sender-AreCounted,
}

module _ {P : Proto} (other : Outside P) where
  abbrev KeepsCounted : {A : Type 0} → Endp P A → Type 0
  KeepsCounted m = Preserves (AreCounted {P = P} other) m

  -- The map of references is as it was, and so are the boxes and the cells.
  same-AreCounted :
      {A : Type 0} (m : Endp P A) (s : EndpointImpl P × World P)
      → (m s).1.0.connection_refs ≡ s.0.connection_refs
      → (m s).1.1.connections ≡ s.1.connections
      → (m s).1.1.connection_boxes ≡ s.1.connection_boxes
      → s.1.next_id ≤ (m s).1.1.next_id
      → (m s).1.1.endpoints ≡ s.1.endpoints
      → AreCounted other s
      → AreCounted other (m s).1
  same-AreCounted m s r c b n d =
      Leaves-AreCounted other s.0 (m s).1.0 s.1 (m s).1.1 r
        (record { boxes = b; next = n; endpoints = d; counts = λ k. rw c refl })

  inner-AreCounted : {A : Type 0} (f : P.Endpoint → A × P.Endpoint) → KeepsCounted (inner f)
  inner-AreCounted f s = same-AreCounted (inner f) s refl refl refl (omega arith) refl

  notify_transmit-AreCounted : (t : P.Transmit) → KeepsCounted (notify_transmit t)
  unfolding notify_transmit on_transmit from_socket_addr invoke
  notify_transmit-AreCounted t s =
      same-AreCounted (notify_transmit t) s (ground arith) (ground arith) (ground arith)
        (ground arith) (ground arith)

  sent-AreCounted :
      (k : ℕ) (event : ConnectionEvent P) → KeepsCounted (lift (send_connection_event k event))
  unfolding send_connection_event
  sent-AreCounted k event s =
      same-AreCounted (lift (send_connection_event k event)) s (ground arith) (ground arith)
        (ground arith) (ground arith) (ground arith)

  received-AreCounted : KeepsCounted recv_endpoint_event
  unfolding recv_endpoint_event
  received-AreCounted s = same-AreCounted recv_endpoint_event s refl refl refl (omega arith) refl

  pub added-AreCounted :
      (handle : ℕ) (conn : P.Connection) → KeepsCounted (add_connection handle conn)
  unfolding add_connection connection_channel insert_sender new_connection now
      drop_connection_sender
  added-AreCounted handle conn s =
      same-AreCounted (add_connection handle conn) s refl (ground arith) (ground arith)
        (ground arith) (ground arith)

  pub parts-AreCounted : PartsPreserve (AreCounted {P = P} other)
  parts-AreCounted = record {
    inner = λ f. inner-AreCounted f;
    transmitted = notify_transmit-AreCounted;
    sent = sent-AreCounted;
    received = received-AreCounted;
    removed = remove_sender-AreCounted other;
    added = added-AreCounted;
  }

module _ {P : Proto} (w₀ : World P) where
  same-Leaves :
      (w w' : World P)
      → w'.connections ≡ w.connections
      → w'.connection_boxes ≡ w.connection_boxes
      → w'.next_id ≡ w.next_id
      → w'.endpoints ≡ w.endpoints
      → Leaves w₀ w
      → Leaves w₀ w'
  same-Leaves w w' c b n d = Leaves-same w₀ w w' c b (omega arith) d

  sent-Leaves : (k : ℕ) (m : ℕ × EndpointEvent P) → Preserves (Leaves w₀) (send_endpoint_event k m)
  unfolding send_endpoint_event
  sent-Leaves k m w =
      same-Leaves w (send_endpoint_event k m w).1 (ground arith) (ground arith) (ground arith)
        (ground arith)

  recv_connection_event-Leaves : (k : ℕ) → Preserves (Leaves w₀) (recv_connection_event k)
  unfolding recv_connection_event
  recv_connection_event-Leaves k w =
      same-Leaves w (recv_connection_event k w).1 (ground arith) (ground arith) (ground arith)
        (ground arith)

  noticed-Leaves : (k m : ℕ) → Preserves (Leaves w₀) (send_notice k m)
  unfolding send_notice
  noticed-Leaves k m w =
      same-Leaves w (send_notice k m w).1 (ground arith) (ground arith) (ground arith)
        (ground arith)

  invoke-Leaves : (call : Call) → Preserves (Leaves w₀) (invoke call)
  unfolding invoke
  invoke-Leaves call w =
      same-Leaves w (invoke call w).1 (ground arith) (ground arith) (ground arith) (ground arith)

  now-Leaves : Preserves (Leaves w₀) now
  unfolding now
  now-Leaves w = same-Leaves w (now w).1 refl refl refl refl

  pub parts-Leaves : WorldPreserves (Leaves w₀)
  parts-Leaves = record {
    called = invoke-Leaves;
    noticed = noticed-Leaves;
    sent = sent-Leaves;
    received = recv_connection_event-Leaves;
    read = now-Leaves;
  }

module _ {P : Proto} (other : Outside P) where
  -- A call on the connection behind a handle.
  pub connection_access-AreCounted :
      (p : ℕ) (m : Conn P (Unit {0})) (e : EndpointImpl P) (w : World P)
      → Preserves (λ s. Leaves w s.1) m
      → AreCounted other (e, w)
      → AreCounted other (e, (connection_access p m w).1)
  unfolding connection_access deref_connection
  connection_access-AreCounted p m e w h = elim (Option-cases (lookup p w.connection_boxes)) [
    | inl n ↦ rw (n, connection_access) (λ i. i)
    | inr (k, n) ↦
        rw (n, connection_access)
          (Leaves-AreCounted other e e w (with_lock connection_cells put_connection_cells k m w).1
            refl
            (locked-Preserves connection_cells put_connection_cells (Leaves w) (Leaves-writes w) k m
              h w (Leaves-refl w)))
  ]

  found-AreCounted :
      (auto_poll : Bool) (o : Option ℕ)
      → Preserves (AreCounted {P = P} other) {A = Unit {0}} (elim o [
        | none ↦ pure tt
        | some k ↦
            let skipped = raise (io_error (bytes "Locked endpoint connection lock")) in
            lift (
              with_try_lock connection_cells put_connection_cells k
                (mark_pollable {P = P} auto_poll)
                skipped
                skipped)
      ])
  found-AreCounted auto_poll none s i = i
  found-AreCounted auto_poll (some k) (e, w) i =
      let skipped : M (World P) (Unit {0}) =
        raise (io_error (bytes "Locked endpoint connection lock")) in
      Leaves-AreCounted other e e w
        (with_try_lock connection_cells put_connection_cells k (mark_pollable auto_poll) skipped
          skipped w).1
        refl
        (tried-Preserves connection_cells put_connection_cells (Leaves w) (Leaves-writes w) k
          (mark_pollable auto_poll) skipped
          (mark_pollable-Preserves (Leaves w) (parts-Leaves w) auto_poll) (λ w' l. l) w
          (Leaves-refl w))
        i

  pub poll_connection-AreCounted :
      (auto_poll : Bool) (handle : ℕ)
      → Preserves (AreCounted {P = P} other) (poll_connection {P = P} auto_poll handle)
  unfolding poll_connection
  poll_connection-AreCounted auto_poll handle s i =
      found-AreCounted auto_poll (lookup handle s.0.connection_refs) s i
