-- ===== src/Bindings/Sharing.antt =====
-- How long a connection lives: the exported functions and the pollers' rounds, in any order, with other
-- code between them.
use quinn_ffi.Prelude.{
  ℕ, Bool, ◌==◌, if◌then◌else◌, ◌+◌, ◌≡◌, refl, none, some, Option-cases, inl, inr, [], lookup,
  arith,
}
use quinn_ffi.Addr.{IpAddr}
use quinn_ffi.Effect.Laws.{Preserves}
use quinn_ffi.Proto.{Proto}
use quinn_ffi.World.{World, EndpointPoller}
use quinn_ffi.World.Arcs.Counts.{occurs}
use quinn_ffi.World.Arcs.Left.{Leaves, count}
use quinn_ffi.World.Arcs.Counted.{IsCounted}
use quinn_ffi.Connection.{Conn}
use quinn_ffi.Handle.{connection_access}
use quinn_ffi.Handle.Counted.{IsAccounted, known, Leaves-IsAccounted}
use quinn_ffi.Handle.Counted.Locked.{connection_access-IsAccounted}
use quinn_ffi.Poller.{thread_round}
use quinn_ffi.Poller.Accounted.{thread_round-IsAccounted}
use quinn_ffi.Bindings.Endpoints.{
  create_client_endpoint, create_server_endpoint, connect_client, handle_datagram, poll_endpoint,
  dispose_endpoint,
}
use quinn_ffi.Bindings.Connections.{poll_connection, close_connection, free_connection}
use quinn_ffi.Bindings.Accounted.{
  connect_client-IsAccounted, handle_datagram-IsAccounted, poll_endpoint-IsAccounted,
  poll_connection-IsAccounted,
}
use quinn_ffi.Bindings.Connections.Accounted.{
  free_connection-IsAccounted, close_connection-IsAccounted,
}
use quinn_ffi.Bindings.Endpoints.Accounted.Exported.{
  create_client_endpoint-IsAccounted, create_server_endpoint-IsAccounted,
  dispose_endpoint-IsAccounted,
}

module _ {P : Proto} where
  -- One step, however it ends: a call of an exported function on endpoints or connections, with any
  -- arguments; a round of a poller's thread, with its end; a call on the connection of a handle, with code that makes and
  -- drops no reference, as the functions on streams have; or other such code.
  pub data Step (w : World P) : World P → Type 1 where
    client_created : (handle id out : ℕ) → Step w (create_client_endpoint handle id out w).1
    server_created :
        (auto_poll : Bool) (handle id out : ℕ)
        → Step w (create_server_endpoint auto_poll handle id out w).1
    connected :
        (auto_poll : Bool) (handle host_bytes len : ℕ) (address : IpAddr) (out out_id : ℕ)
        → Step w (connect_client auto_poll handle host_bytes len address out out_id w).1
    received :
        (auto_poll : Bool) (handle bytes_ptr len : ℕ) (address : IpAddr)
        → Step w (handle_datagram auto_poll handle bytes_ptr len address w).1
    endpoint_polled : (handle : ℕ) → Step w (poll_endpoint handle w).1
    connection_polled :
        (auto_poll : Bool) (handle : ℕ) → Step w (poll_connection auto_poll handle w).1
    connection_closed :
        (handle reason len error_code : ℕ)
        → Step w (close_connection handle reason len error_code w).1
    freed : (endpoint handle : ℕ) → Step w (free_connection endpoint handle w).1
    disposed : (handle : ℕ) → Step w (dispose_endpoint handle w).1
    turned : (p : EndpointPoller) → Step w (thread_round p w).1
    accessed :
        {A : Type 0} (handle : ℕ) (m : Conn P A)
        → ((v : World P) → Preserves (λ t. Leaves v t.1) m)
        → Step w (connection_access handle m w).1
    elsewhere : (w' : World P) → Leaves w w' → Step w w'

  pub data Reach (w : World P) : World P → Type 1 where
    here : Reach w w
    then : (w₁ w₂ : World P) → Reach w w₁ → Step w₁ w₂ → Reach w w₂

  Step-IsAccounted : (w w' : World P) → Step w w' → IsAccounted w → IsAccounted w'
  Step-IsAccounted w _ (Step.client_created handle id out) i =
      create_client_endpoint-IsAccounted handle id out w i
  Step-IsAccounted w _ (Step.server_created auto_poll handle id out) i =
      create_server_endpoint-IsAccounted auto_poll handle id out w i
  Step-IsAccounted w _ (Step.connected auto_poll handle host_bytes len address out out_id) i =
      connect_client-IsAccounted auto_poll handle host_bytes len address out out_id w i
  Step-IsAccounted w _ (Step.received auto_poll handle bytes_ptr len address) i =
      handle_datagram-IsAccounted auto_poll handle bytes_ptr len address w i
  Step-IsAccounted w _ (Step.endpoint_polled handle) i = poll_endpoint-IsAccounted handle w i
  Step-IsAccounted w _ (Step.connection_polled auto_poll handle) i =
      poll_connection-IsAccounted auto_poll handle w i
  Step-IsAccounted w _ (Step.connection_closed handle reason len error_code) i =
      close_connection-IsAccounted handle reason len error_code w i
  Step-IsAccounted w _ (Step.freed endpoint handle) i =
      free_connection-IsAccounted endpoint handle w i
  Step-IsAccounted w _ (Step.disposed handle) i = dispose_endpoint-IsAccounted handle w i
  Step-IsAccounted w _ (Step.turned p) i = thread_round-IsAccounted p w i
  Step-IsAccounted w _ (Step.accessed handle m h) i = connection_access-IsAccounted handle m h w i
  Step-IsAccounted w w' (Step.elsewhere _ l) i = Leaves-IsAccounted w w' l i

  Reach-IsAccounted : (w w' : World P) → Reach w w' → IsAccounted w → IsAccounted w'
  Reach-IsAccounted w _ Reach.here i = i
  Reach-IsAccounted w w' (Reach.then w₁ _ r t) i =
      Step-IsAccounted w₁ w' t (Reach-IsAccounted w w₁ r i)

  nothing-IsAccounted :
      (w : World P)
      → w.connections ≡ []
      → w.connection_boxes ≡ []
      → w.endpoints ≡ []
      → IsAccounted w
  unfolding lookup occurs known
  nothing-IsAccounted w c b e = record {
    counted = record {
      counted = λ k. rw (c, b, e) (omega arith);
      positive = λ k v l. let no : none ≡ some v = rw c at l in cc;
      apart = rw b tt;
      fresh_cell = λ k l. rw c refl;
      fresh_box = λ p l. rw b refl;
    };
    cells_apart = rw e tt;
    refs_apart = λ k v l. let no : none ≡ some v = rw e at l in cc;
    fresh_cell = λ k l. rw e refl;
  }

  -- The cell is there, with that count, if something refers to it.
  count-refs :
      (refs : ℕ → ℕ) (k : ℕ) (w : World P)
      → IsCounted refs w
      → let total = occurs k w.connection_boxes + refs k in
        count (lookup k w.connections) ≡ (if total == 0 then none else some total)
  count-refs refs k w i = elim (Option-cases (lookup k w.connections)) [
    | inl e ↦
        let z : 0 ≡ occurs k w.connection_boxes + refs k = rw e at (i.counted k) in
        rw e (ground (arith, z))
    | inr (c, e) ↦
        let z : c.strong ≡ occurs k w.connection_boxes + refs k = rw e at (i.counted k) in
        rw e (ground (arith, z, i.positive k c e))
  ]

  -- From a state with no endpoint and no connection, whatever functions on endpoints and connections are
  -- called, whatever rounds the pollers run and whatever code without references to connections runs, in any
  -- order, each however it ends: the `Arc` of a connection is there if and only if a box holds it or an
  -- endpoint knows it, and its count is the number of the boxes that hold it plus the number of the handles
  -- by which the endpoints know it.
  pub Reach-counts :
      (w₀ w : World P) (k : ℕ)
      → w₀.connections ≡ []
      → w₀.connection_boxes ≡ []
      → w₀.endpoints ≡ []
      → Reach w₀ w
      → let total = occurs k w.connection_boxes + known k w.endpoints in
        count (lookup k w.connections) ≡ (if total == 0 then none else some total)
  Reach-counts w₀ w k c b e r =
      let i = Reach-IsAccounted w₀ w r (nothing-IsAccounted w₀ c b e) in
      count-refs (λ j. known j w.endpoints) k w i.counted
