-- ===== src/Handle/Trait/UnsafeApi.antt =====
-- The implementations of `HandleMut` in src/ffi/unsafe_api.rs: the box is followed, and the lock in it
-- is taken and unwrapped.
use quinn_ffi.Prelude.{ℕ}
use quinn_ffi.Effect.{M, ◌>>=◌}
use quinn_ffi.Proto.{Proto}
use quinn_ffi.World.{World, ConnectionImpl, EndpointImpl}
use quinn_ffi.World.Mutex.{with_lock}
use quinn_ffi.Endpoint.{connection_cells, put_connection_cells}
use quinn_ffi.Handle.{
  deref_endpoint, deref_connection, endpoint_cells, put_endpoint_cells, new_endpoint_handle,
  new_connection_handle, new_client_config, new_server_config,
}
use quinn_ffi.Handle.Trait.{HandleMut, by_ref}

module _ {P : Proto} where
  abbrev lock_client_config : ℕ → M (P.ClientConfig × World P) (Unit {0}) → M (World P) (Unit {0})
  lock_client_config p cb =
      with_lock (λ w. w.client_configs) (λ w d. record w { client_configs = d }) p cb

  abbrev lock_server_config : ℕ → M (P.ServerConfig × World P) (Unit {0}) → M (World P) (Unit {0})
  lock_server_config p cb =
      with_lock (λ w. w.server_configs) (λ w d. record w { server_configs = d }) p cb

  abbrev lock_endpoint : ℕ → M (EndpointImpl P × World P) (Unit {0}) → M (World P) (Unit {0})
  lock_endpoint p cb = do k ← deref_endpoint p; with_lock endpoint_cells put_endpoint_cells k cb

  abbrev lock_connection : ℕ → M (ConnectionImpl P × World P) (Unit {0}) → M (World P) (Unit {0})
  lock_connection p cb = do
    k ← deref_connection p
    with_lock connection_cells put_connection_cells k cb

  abbrev pub client_config : HandleMut P P.ClientConfig
  client_config = record {
    new = new_client_config;
    ref_access = λ p cb. lock_client_config p (by_ref cb);
    mut_access = λ p cb. lock_client_config p cb;
  }

  abbrev pub server_config : HandleMut P P.ServerConfig
  server_config = record {
    new = new_server_config;
    ref_access = λ p cb. lock_server_config p (by_ref cb);
    mut_access = λ p cb. lock_server_config p cb;
  }

  abbrev pub endpoint : HandleMut P (EndpointImpl P)
  endpoint = record {
    new = new_endpoint_handle;
    ref_access = λ p cb. lock_endpoint p (by_ref cb);
    mut_access = λ p cb. lock_endpoint p cb;
  }

  abbrev pub connection : HandleMut P (ConnectionImpl P)
  connection = record {
    new = new_connection_handle;
    ref_access = λ p cb. lock_connection p (by_ref cb);
    mut_access = λ p cb. lock_connection p cb;
  }
