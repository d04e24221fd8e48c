-- ===== src/Bindings/Connections/Counted.antt =====
-- What `free_connection` does on the endpoint, and the counts of the connections' `Arc`s.
use quinn_ffi.Prelude.{ℕ, refl, inl, inr, Option-cases, lookup, insert, Dict}
use quinn_ffi.Effect.Laws.{Preserves}
use quinn_ffi.Proto.{Proto}
use quinn_ffi.World.{World, Shared, ConnectionImpl, EndpointImpl}
use quinn_ffi.World.Arcs.Left.{Leaves-refl, Leaves-writes}
use quinn_ffi.World.Mutex.Locked.{AllowsWrites, locked-Preserves}
use quinn_ffi.Handle.{connection_access_in, deref_connection}
use quinn_ffi.Endpoint.Refs.Counted.{
  Outside, AreCounted, Leaves-AreCounted, remove_connection-AreCounted,
}
use quinn_ffi.Bindings.Connections.{forget, forgotten}

module _ {P : Proto} (other : Outside P) where
  abbrev cells : EndpointImpl P × World P → Dict (Shared (ConnectionImpl P))
  cells s = s.1.connections

  abbrev put_cells :
      EndpointImpl P × World P → Dict (Shared (ConnectionImpl P)) → EndpointImpl P × World P
  put_cells s d = (s.0, record s.1 { connections = d })

  AreCounted-writes : AllowsWrites cells put_cells (AreCounted {P = P} other)
  AreCounted-writes k c c' (e, w) l s =
      Leaves-AreCounted other e e w (record w { connections = insert k c' w.connections }) refl
        (Leaves-writes w k c c' w l s (Leaves-refl w))

  forgotten-AreCounted : Preserves (λ t. AreCounted {P = P} other t.1) forgotten
  forgotten-AreCounted (c, s) i = remove_connection-AreCounted other c.connection_handle s i

  -- The callback of `free_connection`, with the connection locked, however it ends.
  pub forget-AreCounted : (p : ℕ) → Preserves (AreCounted {P = P} other) (forget p)
  unfolding forget connection_access_in deref_connection
  forget-AreCounted p (e, w) = elim (Option-cases (lookup p w.connection_boxes)) [
    | inl n ↦ rw (n, forget) (λ i. i)
    | inr (k, n) ↦
        rw (n, forget)
          (locked-Preserves cells put_cells (AreCounted other) AreCounted-writes k forgotten
            forgotten-AreCounted (e, w))
  ]
