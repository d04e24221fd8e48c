-- ===== src/Bindings/Endpoints.antt =====
-- The functions on endpoints.
pub mod Connected
pub mod Counted
pub mod Accounted
pub mod Created
pub mod Poisoned
pub mod Disposed
pub mod Ipv6
pub mod Forgotten
pub mod Shutdown
use quinn_ffi.Prelude.{
  ℕ, ◌%◌, ◌^◌, ◌⊎◌, inl, inr, Option, none, some, Bool, true, false, List, [], ◌∷◌, ◌++◌, bytes,
  if◌then◌else◌,
}
use quinn_ffi.ErrorKind.{Text, FfiErrorKind}
use quinn_ffi.Effect.{
  M, Exit, ok, err, panic, hang, undefined, Payload, ◌>>=◌, ◌>>◌, pure, throw, raise, gets, lift,
  ignore, when,
}
use quinn_ffi.Proto.{Proto, SocketAddr, DatagramEvent, connection_event, new_connection}
use quinn_ffi.Addr.{IpAddr, into_socket_addr}
use quinn_ffi.World.{World, ConnectionImpl, EndpointImpl, Call}
use quinn_ffi.World.Clock.{now}
use quinn_ffi.World.Memory.{is_null, init, as_bytes}
use quinn_ffi.World.Arcs.{drop_connection}
use quinn_ffi.Callbacks.{invoke}
use quinn_ffi.Connection
use quinn_ffi.Connection.{Conn}
use quinn_ffi.Endpoint
use quinn_ffi.Endpoint.{
  Endp, self, inner, set_poll_notifier, set_default_client_config, add_connection,
}
use quinn_ffi.Endpoint.Refs.{register_pollable_connection}
use quinn_ffi.Endpoint.Refs
use quinn_ffi.FfiResult.{FfiResult, ok_result, err_result, into_result}
use quinn_ffi.Api.{safe_ffi}
use quinn_ffi.Handle.{
  endpoint_access, connection_access, client_config_access, server_config_access,
  new_endpoint_handle, new_connection_handle, clone_endpoint, clone_connection, dealloc_endpoint,
  drop_endpoint,
}
use quinn_ffi.Poller.{new_poller, start_polling}
use quinn_ffi.Utf8.{is_utf8}

-- The panic of `endpoint.connect(..).unwrap()`.
abbrev pub connect_panic : (P : Proto) → P.ConnectError → Payload
connect_panic P e =
    Payload.string (bytes "called `Result::unwrap()` on an `Err` value: " ++ P.connect_error_text e)

abbrev pub connect_args : ℕ → ℕ → ℕ → ℕ → List (Text × Bool)
connect_args handle host_bytes out_connection out_connection_id =
    (bytes "handle", is_null handle)
    ∷ (bytes "host_bytes", is_null host_bytes)
    ∷ (bytes "host_bytes_len", false)
    ∷ (bytes "address", false)
    ∷ (bytes "out_connection", is_null out_connection)
    ∷ (bytes "out_connection_id", is_null out_connection_id)
    ∷ []

abbrev pub create_client_args : ℕ → ℕ → ℕ → List (Text × Bool)
create_client_args handle endpoint_id out_endpoint_handle =
    (bytes "handle", is_null handle)
    ∷ (bytes "endpoint_id", is_null endpoint_id)
    ∷ (bytes "out_endpoint_handle", is_null out_endpoint_handle)
    ∷ []

module _ {P : Proto} where
  -- A poller with a reference to the endpoint of the handle, on its thread: the notifier.
  abbrev start_poller : ℕ → M (World P) ℕ
  start_poller endpoint_handle = do
    arc ← clone_endpoint endpoint_handle
    (poller, notifier) ← new_poller arc
    start_polling poller
    pure notifier

module _ {P : Proto} (auto_poll : Bool) where
  server_result : ℕ → M (World P) FfiResult
  server_result endpoint_handle =
      if auto_poll
      then (do
        notifier ← start_poller endpoint_handle
        into_result (endpoint_access endpoint_handle (set_poll_notifier notifier)))
      else pure ok_result

  unfoldable pub create_server_endpoint : ℕ → ℕ → ℕ → M (World P) FfiResult
  unfolding server_result
  create_server_endpoint handle out_endpoint_id out_endpoint_handle =
      safe_ffi
        ((bytes "handle", is_null handle)
          ∷ (bytes "out_endpoint_id", is_null out_endpoint_id)
          ∷ (bytes "out_endpoint_handle", is_null out_endpoint_handle)
          ∷ [])
        do
          server_config ← server_config_access handle (gets λ s. s.0)
          endpoint ← Endpoint.new_endpoint (P.new_endpoint (some server_config))
          endpoint_handle ← new_endpoint_handle endpoint
          result ← server_result endpoint_handle
          init out_endpoint_id endpoint.id
          init out_endpoint_handle endpoint_handle
          pure result

  abbrev owned : {A : Type 0} → Exit A → ConnectionImpl P → M (World P) (ConnectionImpl P)
  owned (ok a) c w = (ok c, w)
  owned (err x) c w = (err x, drop_connection c w)
  owned (panic p) c w = (panic p, drop_connection c w)
  owned hang c w = (hang, w)
  owned undefined c w = (undefined, w)

  -- A `ConnectionImpl` that stands in no `Arc` yet. Where the method fails, it is dropped.
  abbrev on_value : {A : Type 0} → ConnectionImpl P → Conn P A → M (World P) (ConnectionImpl P)
  on_value c m w = let (e, (c', w')) = m (c, w) in owned e c' w'

  connected : ℕ → ℕ → P.ConnectError ⊎ ConnectionImpl P → Endp P (Unit {0})
  connected out_connection out_connection_id (inl e) = throw (connect_panic P e)
  connected out_connection out_connection_id (inr c) = do
    connection ← lift (on_value c (Connection.mark_pollable auto_poll))
    connection_handle ← lift (new_connection_handle connection)
    arc ← lift (clone_connection connection_handle)
    register_pollable_connection connection.connection_handle arc
    lift (init out_connection_id (connection.connection_handle % 2 ^ 32))
    lift (init out_connection connection_handle)

  -- The callback of `connect_client`, and the body.
  unfoldable pub connect_callback : IpAddr → Text → ℕ → ℕ → Endp P (Unit {0})
  unfolding connected
  connect_callback address host_name out_connection out_connection_id = do
    r ← Endpoint.connect (into_socket_addr address) host_name
    connected out_connection out_connection_id r

  unfoldable pub connect_body : ℕ → ℕ → ℕ → IpAddr → ℕ → ℕ → M (World P) FfiResult
  connect_body handle host_bytes host_bytes_len address out_connection out_connection_id = do
    host_name ← as_bytes host_bytes host_bytes_len
    if is_utf8 host_name
        then into_result (
            endpoint_access handle
              (connect_callback address host_name out_connection out_connection_id))
        else throw (Payload.string (bytes "Key path not in utf8 format"))

  unfoldable pub connect_client : ℕ → ℕ → ℕ → IpAddr → ℕ → ℕ → M (World P) FfiResult
  connect_client handle host_bytes host_bytes_len address out_connection out_connection_id =
      safe_ffi (connect_args handle host_bytes out_connection out_connection_id)
        (connect_body handle host_bytes host_bytes_len address out_connection out_connection_id)

  -- The arms of the `match` on what the datagram was.
  unfoldable pub datagram_event :
      Option (ℕ × DatagramEvent P.Connection P.ConnectionEvent) → Endp P (Unit {0})
  datagram_event (some (handle, new_connection conn)) = do
    connection ← add_connection handle conn
    connection_handle ← lift (new_connection_handle connection)
    arc ← lift (clone_connection connection_handle)
    register_pollable_connection handle arc
    ignore_again ← Endpoint.poll
    lift (connection_access connection_handle (Connection.poll auto_poll))
    e ← self
    lift (invoke (Call.on_new_connection connection_handle (handle % 2 ^ 32) e.id))
  datagram_event (some (handle, connection_event event)) = do
    Endpoint.forward_event_to_connection handle event
    ignore_again ← Endpoint.poll
    Refs.poll_connection auto_poll handle
  datagram_event none = pure tt

  unfoldable pub handle_datagram : ℕ → ℕ → ℕ → IpAddr → M (World P) FfiResult
  unfolding datagram_event now
  handle_datagram handle bytes_ptr length address =
      safe_ffi
        ((bytes "handle", is_null handle)
          ∷ (bytes "data", is_null bytes_ptr)
          ∷ (bytes "length", false)
          ∷ (bytes "address", false)
          ∷ [])
        (into_result (
          endpoint_access handle do
            slice ← lift (as_bytes bytes_ptr length)
            t ← lift now
            r ← inner λ i. P.handle i t (into_socket_addr address) slice
            datagram_event r))

module _ {P : Proto} where
  -- Code beside an `EndpointImpl` in no `Arc` yet, which is dropped where the code unwinds.
  abbrev spared : {A : Type 0} → EndpointImpl P → Exit A → M (World P) A
  spared e (ok a) w = (ok a, w)
  spared e (err x) w = (err x, drop_endpoint e w)
  spared e (panic p) w = (panic p, drop_endpoint e w)
  spared e hang w = (hang, w)
  spared e undefined w = (undefined, w)

  abbrev beside : {A : Type 0} → EndpointImpl P → M (World P) A → M (World P) A
  beside e m w = let (x, w') = m w in spared e x w'

  -- `endpoint.set_default_client_config(client_config.clone())` on an endpoint in no `Arc` yet.
  configured : EndpointImpl P → P.ClientConfig → M (World P) (EndpointImpl P)
  unfolding set_default_client_config
  configured endpoint config w =
      let (e, (endpoint', w')) = set_default_client_config config (endpoint, w) in
      (ok endpoint', w')

  unfoldable pub create_client_body : ℕ → ℕ → ℕ → M (World P) FfiResult
  unfolding configured
  create_client_body handle endpoint_id out_endpoint_handle = do
    fresh ← Endpoint.new_endpoint (P.new_endpoint none)
    client_config ← beside fresh (client_config_access handle (gets λ s. s.0))
    endpoint ← configured fresh client_config
    endpoint_handle ← new_endpoint_handle endpoint
    notifier ← start_poller endpoint_handle
    endpoint_access endpoint_handle (set_poll_notifier notifier)
    init endpoint_id endpoint.id
    init out_endpoint_handle endpoint_handle
    pure ok_result

  unfoldable pub create_client_endpoint : ℕ → ℕ → ℕ → M (World P) FfiResult
  create_client_endpoint handle endpoint_id out_endpoint_handle =
      safe_ffi (create_client_args handle endpoint_id out_endpoint_handle)
        (create_client_body handle endpoint_id out_endpoint_handle)

  -- The result of `endpoint.poll()` is dropped inside the callback.
  unfoldable pub poll_endpoint : ℕ → M (World P) FfiResult
  poll_endpoint handle =
      safe_ffi ((bytes "handle", is_null handle) ∷ [])
        (into_result (endpoint_access handle (ignore Endpoint.poll)))

  disposed : ℕ → Exit (Unit {0}) → M (World P) FfiResult
  disposed handle (err e) w = (ok err_result, w)
  disposed handle (ok _) w = (dealloc_endpoint handle >> pure ok_result) w
  disposed handle (panic p) w = (panic p, w)
  disposed handle hang w = (hang, w)
  disposed handle undefined w = (undefined, w)

  unfoldable pub dispose_body : ℕ → M (World P) FfiResult
  unfolding disposed
  dispose_body handle w = let (e, w') = endpoint_access handle Refs.close w in disposed handle e w'

  unfoldable pub dispose_endpoint : ℕ → M (World P) FfiResult
  dispose_endpoint handle = safe_ffi ((bytes "handle", is_null handle) ∷ []) (dispose_body handle)
