-- ===== src/Handle.antt =====
-- src/ffi/handle_mut.rs and the `HandleMut` implementations of src/ffi/safe_api.rs: a handle is the
-- address of a box. Endpoints and connections are boxed `Arc<Mutex<_>>`s, configurations boxed
-- mutexes.
pub mod Boxes
pub mod Counted
pub mod Poison
pub mod Trait
use quinn_ffi.Prelude.{
  ℕ, ◌+◌, ◌-◌, ◌==◌, Option, none, some, Dict, lookup, insert, erase, if◌then◌else◌,
}
use quinn_ffi.Effect.{M, ok, undefined, ◌>>=◌, ◌>>◌, pure, gets, modify, misbehave, unwrap, lift}
use quinn_ffi.Proto.{Proto}
use quinn_ffi.World.{World, Shared, ConnectionImpl, EndpointImpl}
use quinn_ffi.World.Mutex.{with_lock}
use quinn_ffi.World.Mpsc.{drop_receiver}
use quinn_ffi.World.Arcs.{new_shared, clone_arc, drop_connection_arc, drop_connection_arcs}
use quinn_ffi.Connection.{Conn}
use quinn_ffi.Endpoint.{Endp, connection_cells, put_connection_cells}
use quinn_ffi.Endpoint.Refs.{drop_senders}

module _ {P : Proto} where
  abbrev pub endpoint_cells : World P → Dict (Shared (EndpointImpl P))
  endpoint_cells w = w.endpoints

  abbrev pub put_endpoint_cells : World P → Dict (Shared (EndpointImpl P)) → World P
  put_endpoint_cells w d = record w { endpoints = d }

  abbrev deref_box : Option ℕ → M (World P) ℕ
  deref_box none = misbehave
  deref_box (some k) = pure k

  -- `Deref`: the box must be alive.
  unfoldable pub deref_endpoint : ℕ → M (World P) ℕ
  deref_endpoint p w = deref_box (lookup p w.endpoint_boxes) w

  unfoldable pub deref_connection : ℕ → M (World P) ℕ
  deref_connection p w = deref_box (lookup p w.connection_boxes) w

  -- `mut_access` and `ref_access`: the lock is taken and unwrapped, and the callback runs.
  unfoldable pub endpoint_access : {A : Type 0} → ℕ → Endp P A → M (World P) A
  unfolding deref_endpoint
  endpoint_access p cb = do k ← deref_endpoint p; with_lock endpoint_cells put_endpoint_cells k cb

  unfoldable pub connection_access : {A : Type 0} → ℕ → Conn P A → M (World P) A
  unfolding deref_connection
  connection_access p cb = do
    k ← deref_connection p
    with_lock connection_cells put_connection_cells k cb

  -- The same inside a call that holds a value of its own.
  unfoldable pub connection_access_in :
      {R A : Type 0} → ℕ → M (ConnectionImpl P × (R × World P)) A → M (R × World P) A
  unfolding deref_connection
  connection_access_in p cb = do
    k ← lift (deref_connection p)
    with_lock (λ s. s.1.connections) (λ s d. (s.0, record s.1 { connections = d })) k cb

  unfoldable pub client_config_access :
      {A : Type 0} → ℕ → M (P.ClientConfig × World P) A → M (World P) A
  client_config_access p cb =
      with_lock (λ w. w.client_configs) (λ w d. record w { client_configs = d }) p cb

  unfoldable pub server_config_access :
      {A : Type 0} → ℕ → M (P.ServerConfig × World P) A → M (World P) A
  server_config_access p cb =
      with_lock (λ w. w.server_configs) (λ w d. record w { server_configs = d }) p cb

  -- `HandleMut::new`: an `Arc`, and a box with it.
  unfoldable pub new_endpoint_handle : EndpointImpl P → M (World P) ℕ
  new_endpoint_handle e w = (
    ok (w.next_id + 1),
    record w {
      endpoints = insert w.next_id (new_shared e) w.endpoints;
      endpoint_boxes = insert (w.next_id + 1) w.next_id w.endpoint_boxes;
      next_id = w.next_id + 2;
    },
  )

  unfoldable pub new_connection_handle : ConnectionImpl P → M (World P) ℕ
  new_connection_handle c w = (
    ok (w.next_id + 1),
    record w {
      connections = insert w.next_id (new_shared c) w.connections;
      connection_boxes = insert (w.next_id + 1) w.next_id w.connection_boxes;
      next_id = w.next_id + 2;
    },
  )

  unfoldable pub new_client_config : P.ClientConfig → M (World P) ℕ
  new_client_config c w = (
    ok w.next_id,
    record w {
      client_configs = insert w.next_id (new_shared c) w.client_configs;
      next_id = w.next_id + 1;
    },
  )

  unfoldable pub new_server_config : P.ServerConfig → M (World P) ℕ
  new_server_config c w = (
    ok w.next_id,
    record w {
      server_configs = insert w.next_id (new_shared c) w.server_configs;
      next_id = w.next_id + 1;
    },
  )

  -- `handle.clone()`, which clones the `Arc` in the box: the `Arc`'s number.
  unfoldable pub clone_endpoint : ℕ → M (World P) ℕ
  unfolding deref_endpoint
  clone_endpoint p = do
    k ← deref_endpoint p
    modify λ w. record w { endpoints = clone_arc k w.endpoints }
    pure k

  unfoldable pub clone_connection : ℕ → M (World P) ℕ
  unfolding deref_connection
  clone_connection p = do
    k ← deref_connection p
    modify λ w. record w { connections = clone_arc k w.connections }
    pure k

  -- An `EndpointImpl` is dropped, with its receiver, its senders and its `Arc`s.
  unfoldable pub drop_endpoint : EndpointImpl P → World P → World P
  unfolding drop_senders
  drop_endpoint e w = drop_connection_arcs e.connection_refs (
      drop_senders e.connections
        (record w { endpoint_events = drop_receiver e.endpoint_events_rx w.endpoint_events }))

  -- The endpoint's `Arc` in a box is dropped; with the last one goes the endpoint.
  unfoldable pub drop_endpoint_arc : ℕ → World P → World P
  unfolding drop_endpoint
  drop_endpoint_arc k w = elim (lookup k w.endpoints) [
    | none ↦ w
    | some c ↦
        if c.strong == 1
        then drop_endpoint c.value (record w { endpoints = erase k w.endpoints })
        else record w { endpoints = insert k (record c { strong = c.strong - 1 }) w.endpoints }
  ]

  -- `dealloc` with a callback that only drops the value. The box must be alive.
  unfoldable pub dealloc_endpoint : ℕ → M (World P) (Unit {0})
  unfolding deref_endpoint drop_endpoint_arc
  dealloc_endpoint p = do
    k ← deref_endpoint p
    modify λ w. drop_endpoint_arc k (record w { endpoint_boxes = erase p w.endpoint_boxes })

  unfoldable pub dealloc_connection : ℕ → M (World P) (Unit {0})
  unfolding deref_connection
  dealloc_connection p = do
    k ← deref_connection p
    modify λ w. drop_connection_arc k (record w { connection_boxes = erase p w.connection_boxes })

  unfoldable pub dealloc_client_config : ℕ → M (World P) (Unit {0})
  dealloc_client_config p w = elim (lookup p w.client_configs) [
    | none ↦ (undefined, w)
    | some c ↦ (ok tt, record w { client_configs = erase p w.client_configs })
  ]

  unfoldable pub dealloc_server_config : ℕ → M (World P) (Unit {0})
  dealloc_server_config p w = elim (lookup p w.server_configs) [
    | none ↦ (undefined, w)
    | some c ↦ (ok tt, record w { server_configs = erase p w.server_configs })
  ]
