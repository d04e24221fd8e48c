-- ===== src/Bindings/Endpoints/Counted.antt =====
-- The callbacks that `connect_client` and `handle_datagram` run on the endpoint, and the counts of the
-- connections' `Arc`s.
use quinn_ffi.Prelude.{
  ℕ, Bool, ◌+◌, ◌%◌, ◌^◌, ◌≡◌, ◌∙◌, refl, arith, Option, none, some, ◌⊎◌, inl, inr,
  lookup-insert_self,
}
use quinn_ffi.ErrorKind.{Text}
use quinn_ffi.Addr.{IpAddr, into_socket_addr}
use quinn_ffi.Effect.{M, Exit, ok, err, panic, hang, undefined, lift, ◌>>=◌, ◌>>◌}
use quinn_ffi.Effect.Laws.{Preserves, >>=-Preserves}
use quinn_ffi.Proto.{Proto, DatagramEvent, connection_event, new_connection}
use quinn_ffi.World.{World, ConnectionImpl, EndpointImpl, Call}
use quinn_ffi.World.Memory.{init}
use quinn_ffi.World.Arcs.Counts.{one}
use quinn_ffi.World.Arcs.Counted.{clone_connection-IsCounted, new_connection_handle-IsCounted}
use quinn_ffi.World.Arcs.Left.{Leaves, Leaves-refl, Leaves-same}
use quinn_ffi.World.Arcs.{drop_connection}
use quinn_ffi.Callbacks.{invoke}
use quinn_ffi.Connection
use quinn_ffi.Connection.{Conn, mark_pollable}
use quinn_ffi.Connection.Preserved.{mark_pollable-Preserves}
use quinn_ffi.Connection.Preserved
use quinn_ffi.Handle.{connection_access, new_connection_handle, clone_connection, deref_connection}
use quinn_ffi.Endpoint
use quinn_ffi.Endpoint.{Endp, self}
use quinn_ffi.Endpoint.Preserved.{poll-Preserves, connect-Preserves, forward-Preserves}
use quinn_ffi.Endpoint.Refs.{register_pollable_connection}
use quinn_ffi.Endpoint.Refs.Counted.{
  Outside, references, AreCounted, Leaves-AreCounted, register-AreCounted,
}
use quinn_ffi.Endpoint.Refs.Parts.{
  added-AreCounted, parts-AreCounted, parts-Leaves, poll_connection-AreCounted,
  connection_access-AreCounted,
}
use quinn_ffi.Bindings.Endpoints.{connected, connect_callback, datagram_event, owned, on_value}

module _ {P : Proto} where
  pub init-Leaves : (p v : ℕ) (w : World P) → Leaves w (init p v w).1
  unfolding init
  init-Leaves p v w =
      Leaves-same w w (init p v w).1 (ground arith) (ground arith) (ground arith) (ground arith)
        (Leaves-refl w)

module _ {P : Proto} (other : Outside P) where
  abbrev Counted : EndpointImpl P × World P → Type 0
  Counted = AreCounted other

  pub lift-AreCounted :
      {A : Type 0} (m : M (World P) A)
      → ((w : World P) → Leaves w (m w).1)
      → Preserves Counted (lift m)
  lift-AreCounted m h (e, w) i = Leaves-AreCounted other e e w (m w).1 refl (h w) i

  invoke-Leaves : (call : Call) (w : World P) → Leaves w (invoke call w).1
  unfolding invoke
  invoke-Leaves call w =
      Leaves-same w w (invoke call w).1 (ground arith) (ground arith) (ground arith) (ground arith)
        (Leaves-refl w)

  clone_connection-endpoints :
      (p : ℕ) (w : World P) → (clone_connection p w).1.endpoints ≡ w.endpoints
  unfolding clone_connection deref_connection
  clone_connection-endpoints p w = ground arith

  clone_connection-next : (p : ℕ) (w : World P) → (clone_connection p w).1.next_id ≡ w.next_id
  unfolding clone_connection deref_connection
  clone_connection-next p w = ground arith

  clone-new :
      (c : ConnectionImpl P) (w : World P)
      → let v = (new_connection_handle c w).1 in
        clone_connection (w.next_id + 1) v ≡ (ok w.next_id, (clone_connection (w.next_id + 1) v).1)
  unfolding clone_connection new_connection_handle deref_connection
  clone-new c w = rw (lookup-insert_self (w.next_id + 1) w.next_id w.connection_boxes) refl

  -- A connection is boxed, the endpoint gets a clone of its `Arc`, and `rest` gets the box.
  shared-AreCounted :
      {A : Type 0} (handle : ℕ) (c : ConnectionImpl P) (rest : ℕ → Endp P A)
      → ((p : ℕ) → Preserves Counted (rest p))
      → Preserves Counted (do
        p ← lift (new_connection_handle c)
        arc ← lift (clone_connection p)
        register_pollable_connection handle arc
        rest p)
  unfolding new_connection_handle register_pollable_connection
  shared-AreCounted handle c rest h (e, w) i =
      let v : World P = (new_connection_handle c w).1 in
      let q = w.next_id + 1 in
      let x : World P = (clone_connection q v).1 in
      let boxed = lookup-insert_self q w.next_id w.connection_boxes in
      let cloned =
        clone_connection-IsCounted q w.next_id (references other e)
          (λ j. references other e j + one j (some w.next_id)) v boxed (λ j. refl)
          (new_connection_handle-IsCounted c (references other e) w i.shared) in
      rw (clone-new c w) (
        h q (register_pollable_connection handle w.next_id (e, x)).1 (
          register-AreCounted other handle w.next_id e x cloned i.refs_apart
            (clone_connection-endpoints q v ∙ i.cells_same)
            (rw (clone_connection-next q v) (omega (arith, i.later)))))

  owned-Leaves :
      {A : Type 0} (auto_poll : Bool) (x : Exit A) (c : ConnectionImpl P) (w w' : World P)
      → Leaves w w'
      → Leaves w (owned auto_poll x c w').1
  unfolding drop_connection
  owned-Leaves auto_poll (ok a) c w w' l = l
  owned-Leaves auto_poll (err x) c w w' l =
      Leaves-same w w' (drop_connection c w') refl refl (omega arith) refl l
  owned-Leaves auto_poll (panic p) c w w' l =
      Leaves-same w w' (drop_connection c w') refl refl (omega arith) refl l
  owned-Leaves auto_poll hang c w w' l = l
  owned-Leaves auto_poll undefined c w w' l = l

  on_value-Leaves :
      (auto_poll : Bool) (c : ConnectionImpl P) (w : World P)
      → Leaves w (on_value auto_poll c (mark_pollable auto_poll) w).1
  on_value-Leaves auto_poll c w =
      let (x, (c', w')) = mark_pollable auto_poll (c, w) in
      owned-Leaves auto_poll x c' w w'
        (mark_pollable-Preserves (Leaves w) (parts-Leaves w) auto_poll (c, w) (Leaves-refl w))

  connected-AreCounted :
      (auto_poll : Bool) (out out_id : ℕ) (r : P.ConnectError ⊎ ConnectionImpl P)
      → Preserves Counted (connected auto_poll out out_id r)
  unfolding connected
  connected-AreCounted auto_poll out out_id (inl e) = λ s i. i
  connected-AreCounted auto_poll out out_id (inr c) =
      >>=-Preserves Counted (lift (on_value auto_poll c (mark_pollable auto_poll))) _
        (lift-AreCounted (on_value auto_poll c (mark_pollable auto_poll))
          (on_value-Leaves auto_poll c))
        (λ connection. shared-AreCounted connection.connection_handle connection _ (λ p.
          >>=-Preserves Counted (lift (init out_id (connection.connection_handle % 2 ^ 32)))
            (λ _. lift (init out p))
            (lift-AreCounted (init out_id (connection.connection_handle % 2 ^ 32))
              (init-Leaves out_id (connection.connection_handle % 2 ^ 32)))
            (λ _. lift-AreCounted (init out p) (init-Leaves out p))))

  pub connect_callback-AreCounted :
      (auto_poll : Bool) (address : IpAddr) (host : Text) (out out_id : ℕ)
      → Preserves Counted (connect_callback auto_poll address host out out_id)
  unfolding connect_callback
  connect_callback-AreCounted auto_poll address host out out_id =
      >>=-Preserves Counted (Endpoint.connect (into_socket_addr address) host)
        (connected auto_poll out out_id)
        (connect-Preserves Counted (parts-AreCounted other) (into_socket_addr address) host)
        (connected-AreCounted auto_poll out out_id)

  -- The arms of `handle_datagram`, however they end.
  pub datagram_event-AreCounted :
      (auto_poll : Bool) (r : Option (ℕ × DatagramEvent P.Connection P.ConnectionEvent))
      → Preserves Counted (datagram_event auto_poll r)
  unfolding datagram_event
  datagram_event-AreCounted auto_poll none = λ s i. i
  datagram_event-AreCounted auto_poll (some (handle, connection_event event)) =
      >>=-Preserves Counted (Endpoint.forward_event_to_connection handle event) _
        (forward-Preserves Counted (parts-AreCounted other) handle event)
        (λ _.
          >>=-Preserves Counted Endpoint.poll (λ _. Endpoint.Refs.poll_connection auto_poll handle)
            (poll-Preserves Counted (parts-AreCounted other))
            (λ _. poll_connection-AreCounted other auto_poll handle))
  datagram_event-AreCounted auto_poll (some (handle, new_connection conn)) =
      >>=-Preserves Counted (Endpoint.add_connection handle conn) _
        (added-AreCounted other handle conn)
        (λ c. shared-AreCounted handle c _ (λ p.
          >>=-Preserves Counted Endpoint.poll _ (poll-Preserves Counted (parts-AreCounted other))
            (λ _.
              >>=-Preserves Counted (lift (connection_access p (Connection.poll auto_poll))) _
                (λ s.
                  connection_access-AreCounted other p (Connection.poll auto_poll) s.0 s.1
                    (Connection.Preserved.poll-Preserves (Leaves s.1) (parts-Leaves s.1) auto_poll))
                (λ _ s.
                  lift-AreCounted (invoke (Call.on_new_connection p (handle % 2 ^ 32) s.0.id))
                    (invoke-Leaves (Call.on_new_connection p (handle % 2 ^ 32) s.0.id)) s))))
