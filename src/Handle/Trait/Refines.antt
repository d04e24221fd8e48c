-- ===== src/Handle/Trait/Refines.antt =====
-- Every implementation of `HandleMut`, in src/ffi/safe_api.rs and src/ffi/unsafe_api.rs, is a cell.
use quinn_ffi.Proto.{Proto}
use quinn_ffi.World.{EndpointImpl, ConnectionImpl}
use quinn_ffi.Handle.Trait.{HandleMut}
use quinn_ffi.Handle.{
  endpoint_access, connection_access, client_config_access, server_config_access,
}
use quinn_ffi.Handle.Trait.Cells.{IsCell}
use quinn_ffi.Handle.Trait.Values.{
  endpoint_cell, connection_cell, client_config_cell, server_config_cell, endpoint_access-cell,
  connection_access-cell, client_config_access-cell, server_config_access-cell,
  new_endpoint_handle-live, new_connection_handle-live, new_client_config-live,
  new_server_config-live,
}
use quinn_ffi.Handle.Trait.SafeApi
use quinn_ffi.Handle.Trait.UnsafeApi

module _ {P : Proto} where
  client_config-IsCell : IsCell {P = P} SafeApi.client_config client_config_cell
  client_config-IsCell = record {
    holds = new_client_config-live;
    mutates = client_config_access-cell;
    reads = λ p x w. client_config_access-cell p (λ b. b) x w;
  }

  server_config-IsCell : IsCell {P = P} SafeApi.server_config server_config_cell
  server_config-IsCell = record {
    holds = new_server_config-live;
    mutates = server_config_access-cell;
    reads = λ p x w. server_config_access-cell p (λ b. b) x w;
  }

  endpoint-IsCell : IsCell {P = P} SafeApi.endpoint endpoint_cell
  endpoint-IsCell = record {
    holds = new_endpoint_handle-live;
    mutates = endpoint_access-cell;
    reads = λ p x w. endpoint_access-cell p (λ b. b) x w;
  }

  connection-IsCell : IsCell {P = P} SafeApi.connection connection_cell
  connection-IsCell = record {
    holds = new_connection_handle-live;
    mutates = connection_access-cell;
    reads = λ p x w. connection_access-cell p (λ b. b) x w;
  }

  abbrev pub AreCells :
      HandleMut P P.ClientConfig
      → HandleMut P P.ServerConfig
      → HandleMut P (EndpointImpl P)
      → HandleMut P (ConnectionImpl P)
      → Type 0
  AreCells client server endpoint connection =
      IsCell client client_config_cell
      × IsCell server server_config_cell
      × IsCell endpoint endpoint_cell
      × IsCell connection connection_cell

  -- The handles of the four kinds, with `safe-api` and with `unsafe-api`, are cells. A new one is live,
  -- with the value that it is made of. While it is live, `mut_access` gives the callback the value, keeps
  -- what it writes, also behind an error, and ends as the callback ends; `ref_access` does the same and
  -- leaves the value alone. A callback that panics poisons the cell, after which each access panics; one
  -- that never returns holds it, after which none returns; and an access to freed memory is undefined. The
  -- callbacks here do nothing but read and write the value.
  pub handles-AreCells :
      AreCells SafeApi.client_config SafeApi.server_config SafeApi.endpoint SafeApi.connection
      × AreCells UnsafeApi.client_config UnsafeApi.server_config UnsafeApi.endpoint
          UnsafeApi.connection
  unfolding endpoint_access connection_access client_config_access server_config_access
  handles-AreCells =
      let safe : AreCells SafeApi.client_config SafeApi.server_config SafeApi.endpoint
          SafeApi.connection =
        (client_config-IsCell, server_config-IsCell, endpoint-IsCell, connection-IsCell) in
      (safe, safe)
