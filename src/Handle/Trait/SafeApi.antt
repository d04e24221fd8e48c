-- ===== src/Handle/Trait/SafeApi.antt =====
-- The implementations of `HandleMut` in src/ffi/safe_api.rs.
use quinn_ffi.Proto.{Proto}
use quinn_ffi.World.{ConnectionImpl, EndpointImpl}
use quinn_ffi.Handle.{
  endpoint_access, connection_access, client_config_access, server_config_access,
  new_endpoint_handle, new_connection_handle, new_client_config, new_server_config,
}
use quinn_ffi.Handle.Trait.{HandleMut, by_ref}

module _ {P : Proto} where
  abbrev pub client_config : HandleMut P P.ClientConfig
  client_config = record {
    new = new_client_config;
    ref_access = λ p cb. client_config_access p (by_ref cb);
    mut_access = λ p cb. client_config_access p cb;
  }

  abbrev pub server_config : HandleMut P P.ServerConfig
  server_config = record {
    new = new_server_config;
    ref_access = λ p cb. server_config_access p (by_ref cb);
    mut_access = λ p cb. server_config_access p cb;
  }

  abbrev pub endpoint : HandleMut P (EndpointImpl P)
  endpoint = record {
    new = new_endpoint_handle;
    ref_access = λ p cb. endpoint_access p (by_ref cb);
    mut_access = λ p cb. endpoint_access p cb;
  }

  abbrev pub connection : HandleMut P (ConnectionImpl P)
  connection = record {
    new = new_connection_handle;
    ref_access = λ p cb. connection_access p (by_ref cb);
    mut_access = λ p cb. connection_access p cb;
  }
