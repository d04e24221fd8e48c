-- ===== src/Handle/Trait/Values.antt =====
-- What each kind of handle holds: the cells behind the boxes of src/ffi/handle_mut.rs.
use quinn_ffi.Prelude.{ℕ, ◌+◌, [], ◌≡◌, refl, lookup, lookup-insert_self}
use quinn_ffi.Effect.{Exit, ok}
use quinn_ffi.Proto.{Proto}
use quinn_ffi.World.{World, ConnectionImpl, EndpointImpl}
use quinn_ffi.World.Arcs.{new_shared}
use quinn_ffi.Endpoint.{connection_cells, put_connection_cells}
use quinn_ffi.Handle.{
  endpoint_access, connection_access, deref_endpoint, deref_connection, endpoint_cells,
  put_endpoint_cells, client_config_access, server_config_access, new_endpoint_handle,
  new_connection_handle, new_client_config, new_server_config,
}
use quinn_ffi.Handle.Trait.Cells.{
  Cell, live, access_exit, accessed, cell_of, cell_at, behind, access-cell, with_lock-Accessed,
}

module _ {P : Proto} where
  abbrev pub endpoint_cell : ℕ → World P → Cell (EndpointImpl P)
  endpoint_cell p w =
      behind (lookup p w.endpoint_boxes) (λ k. cell_at endpoint_cells put_endpoint_cells k w)

  abbrev pub connection_cell : ℕ → World P → Cell (ConnectionImpl P)
  connection_cell p w =
      behind (lookup p w.connection_boxes) (λ k. cell_at connection_cells put_connection_cells k w)

  abbrev pub client_config_cell : ℕ → World P → Cell P.ClientConfig
  client_config_cell p w = cell_of (lookup p w.client_configs)

  abbrev pub server_config_cell : ℕ → World P → Cell P.ServerConfig
  server_config_cell p w = cell_of (lookup p w.server_configs)

  pub endpoint_access-cell :
      (p : ℕ) (f : EndpointImpl P → EndpointImpl P) (x : EndpointImpl P → Exit (Unit {0}))
      (w : World P)
      → let (y, w') = endpoint_access p (λ s. (x s.0, (f s.0, s.1))) w in
        (y ≡ access_exit x (endpoint_cell p w))
        × (endpoint_cell p w' ≡ accessed f x (endpoint_cell p w))
  unfolding endpoint_access deref_endpoint
  endpoint_access-cell =
      access-cell endpoint_cells put_endpoint_cells (λ u d. refl) (λ u. u.endpoint_boxes)
        (λ u d. refl)

  pub connection_access-cell :
      (p : ℕ) (f : ConnectionImpl P → ConnectionImpl P) (x : ConnectionImpl P → Exit (Unit {0}))
      (w : World P)
      → let (y, w') = connection_access p (λ s. (x s.0, (f s.0, s.1))) w in
        (y ≡ access_exit x (connection_cell p w))
        × (connection_cell p w' ≡ accessed f x (connection_cell p w))
  unfolding connection_access deref_connection
  connection_access-cell =
      access-cell connection_cells put_connection_cells (λ u d. refl) (λ u. u.connection_boxes)
        (λ u d. refl)

  pub client_config_access-cell :
      (p : ℕ) (f : P.ClientConfig → P.ClientConfig) (x : P.ClientConfig → Exit (Unit {0}))
      (w : World P)
      → let (y, w') = client_config_access p (λ s. (x s.0, (f s.0, s.1))) w in
        (y ≡ access_exit x (client_config_cell p w))
        × (client_config_cell p w' ≡ accessed f x (client_config_cell p w))
  unfolding client_config_access
  client_config_access-cell p f x w =
      let (y, cell, same) =
        with_lock-Accessed (λ u. u.client_configs) (λ u d. record u { client_configs = d })
          (λ u d. refl) (λ u. []) (λ u d. refl) p f x w in
      (y, cell)

  pub server_config_access-cell :
      (p : ℕ) (f : P.ServerConfig → P.ServerConfig) (x : P.ServerConfig → Exit (Unit {0}))
      (w : World P)
      → let (y, w') = server_config_access p (λ s. (x s.0, (f s.0, s.1))) w in
        (y ≡ access_exit x (server_config_cell p w))
        × (server_config_cell p w' ≡ accessed f x (server_config_cell p w))
  unfolding server_config_access
  server_config_access-cell p f x w =
      let (y, cell, same) =
        with_lock-Accessed (λ u. u.server_configs) (λ u d. record u { server_configs = d })
          (λ u d. refl) (λ u. []) (λ u d. refl) p f x w in
      (y, cell)

  pub new_endpoint_handle-live :
      (a : EndpointImpl P) (w : World P)
      → let (x, w') = new_endpoint_handle a w in
        (p : ℕ) × (x ≡ ok p) × (endpoint_cell p w' ≡ live a)
  unfolding new_endpoint_handle
  new_endpoint_handle-live a w = (
    w.next_id + 1,
    refl,
    rw
        (
          lookup-insert_self (w.next_id + 1) w.next_id w.endpoint_boxes,
          lookup-insert_self w.next_id (new_shared a) w.endpoints,
        )
        refl,
  )

  pub new_connection_handle-live :
      (a : ConnectionImpl P) (w : World P)
      → let (x, w') = new_connection_handle a w in
        (p : ℕ) × (x ≡ ok p) × (connection_cell p w' ≡ live a)
  unfolding new_connection_handle
  new_connection_handle-live a w = (
    w.next_id + 1,
    refl,
    rw
        (
          lookup-insert_self (w.next_id + 1) w.next_id w.connection_boxes,
          lookup-insert_self w.next_id (new_shared a) w.connections,
        )
        refl,
  )

  pub new_client_config-live :
      (a : P.ClientConfig) (w : World P)
      → let (x, w') = new_client_config a w in
        (p : ℕ) × (x ≡ ok p) × (client_config_cell p w' ≡ live a)
  unfolding new_client_config
  new_client_config-live a w =
      (w.next_id, refl, rw (lookup-insert_self w.next_id (new_shared a) w.client_configs) refl)

  pub new_server_config-live :
      (a : P.ServerConfig) (w : World P)
      → let (x, w') = new_server_config a w in
        (p : ℕ) × (x ≡ ok p) × (server_config_cell p w' ≡ live a)
  unfolding new_server_config
  new_server_config-live a w =
      (w.next_id, refl, rw (lookup-insert_self w.next_id (new_shared a) w.server_configs) refl)
