-- ===== src/Examples/Handles.antt =====
-- The theorems on handles, and on connections from `connect_client` to `free_connection`, at concrete
-- states.
use quinn_ffi.Prelude.{
  ℕ, zero, suc, ◌%◌, ◌^◌, ◌≡◌, refl, none, some, Option, true, false, [], ◌∷◌, lookup, erase, bytes,
  arith,
}
use quinn_ffi.ErrorKind.{Text}
use quinn_ffi.Effect.{ok, undefined, pure}
use quinn_ffi.World.{World, EndpointImpl, ConnectionImpl, ConnectionEvent, Call}
use quinn_ffi.World.Mpsc.{IsOpen, send_on}
use quinn_ffi.FfiResult.{ok_result, err_result}
use quinn_ffi.FfiResult.Laws.{clear_last}
use quinn_ffi.Handle.{connection_access}
use quinn_ffi.Handle.Poison.{IsPoisoned}
use quinn_ffi.Handle.Trait.SafeApi
use quinn_ffi.Handle.Trait.UnsafeApi
use quinn_ffi.Handle.Trait.Cells.{live}
use quinn_ffi.Handle.Trait.Values.{endpoint_cell}
use quinn_ffi.Handle.Trait.Refines.{AreCells, handles-AreCells}
use quinn_ffi.Utf8.{is_utf8}
use quinn_ffi.Bindings.Connections.{free_connection}
use quinn_ffi.Bindings.Connections.Freed.{IsRegistered, free_connection-frees}
use quinn_ffi.Bindings.Connections.Stuck.{free_connection-poisons}
use quinn_ffi.Bindings.Endpoints.{connect_client, create_client_endpoint}
use quinn_ffi.Bindings.Endpoints.Connected.{CanConnect}
use quinn_ffi.Bindings.Endpoints.Connected.Registered.{connect_client-IsRegistered}
use quinn_ffi.Bindings.Endpoints.Created.{at_rest, create_client_endpoint-live}
use quinn_ffi.Bindings.Logging.{Tracing, enable_log}
use quinn_ffi.Bindings.Logging.Once.{enable_log-once}
use quinn_ffi.Examples.Toy.{toy, quiet}
use quinn_ffi.Examples.Worlds.{world, endpoint, connection, shared, toy_endpoint, server}

handles-AreCells_example :
    AreCells {P = toy} SafeApi.client_config SafeApi.server_config SafeApi.endpoint
      SafeApi.connection
    × AreCells {P = toy} UnsafeApi.client_config UnsafeApi.server_config UnsafeApi.endpoint
        UnsafeApi.connection
handles-AreCells_example = handles-AreCells {P = toy}

-- One box is made and freed before, another made and looked at after.
-- A crate tracing whose state says whether a default is set.
abbrev set_once : Text → ℕ → Option ℕ
set_once filter zero = some 1
set_once filter (suc n) = none

abbrev toy_tracing : Tracing
toy_tracing = record {
  set_global_default = set_once;
  set_error_text = bytes "SetGlobalDefaultError";
}

set_once_lem : (f g : Text) (s s' : ℕ) → set_once f s ≡ some s' → set_once g s' ≡ none
set_once_lem f g zero zero h = absurd (ground arith)
set_once_lem f g zero (suc n) h = refl
set_once_lem f g (suc s) s' h = cc

host_lem : lookup 60 world.buffers ≡ some (b'h' ∷ b'i' ∷ [])
unfolding lookup
host_lem = refl

hi_utf8 : is_utf8 (b'h' ∷ b'i' ∷ []) ≡ true
unfolding is_utf8
hi_utf8 = refl

enable_log-once_example :
    (enable_log toy_tracing 60 2 world ≡ (ok ok_result, record (clear_last world) { dispatch = 1 }))
    × (enable_log toy_tracing 60 2 (record world { dispatch = 1 })
        ≡ (ok err_result, clear_last (record world { dispatch = 1 })))
enable_log-once_example =
    enable_log-once toy_tracing 60 60 1 (b'h' ∷ b'i' ∷ []) (b'h' ∷ b'i' ∷ []) [] [] world
      (record world { dispatch = 1 }) (record { once = set_once_lem }) refl refl host_lem host_lem
      hi_utf8 hi_utf8 refl refl

registered : IsRegistered 30 40 world
unfolding lookup
registered = record {
  endpoint_arc = 10;
  endpoint_cell = shared endpoint;
  connection_arc = 20;
  connection_cell = shared connection;
  sender = 3;
  endpoint_boxed = refl;
  endpoint_stored = refl;
  endpoint_free = refl;
  endpoint_sound = refl;
  connection_boxed = refl;
  connection_stored = refl;
  connection_free = refl;
  connection_sound = refl;
  referred = refl;
  sends = refl;
  two = refl;
}

free_connection-frees_example :
    let c : ConnectionImpl toy = registered.connection_cell.value in
    let e : EndpointImpl toy = registered.endpoint_cell.value in
    let (x, w') = free_connection 30 40 world in
    (x ≡ ok ok_result)
    × (lookup 40 w'.connection_boxes ≡ none)
    × (lookup registered.connection_arc w'.connections ≡ none)
    × (send_on c.connection_events ConnectionEvent.ping w'.connection_events ≡ none)
    × (lookup registered.endpoint_arc w'.endpoints
        ≡ some (record registered.endpoint_cell {
          locked = false;
          poisoned = false;
          value = record e {
            connection_refs = erase c.connection_handle e.connection_refs;
            connections = erase c.connection_handle e.connections;
          };
        }))
    × ((connection_access 40 (pure tt) w').0 ≡ undefined)
free_connection-frees_example =
    free_connection-frees 30 40 ConnectionEvent.ping world registered refl refl

-- The connection's callback has panicked.
abbrev broken : World toy
broken = record world { connections = (20, record (shared connection) { poisoned = true }) ∷ [] }

broken_lem :
    (lookup 30 broken.endpoint_boxes ≡ some 10)
    × (lookup 10 broken.endpoints ≡ some (shared endpoint))
    × (lookup 40 broken.connection_boxes ≡ some 20)
    × (lookup 20 broken.connections ≡ some (record (shared connection) { poisoned = true }))
unfolding lookup
broken_lem = (refl, refl, refl, refl)

free_connection-poisons_example :
    let (x, w') = free_connection 30 40 broken in
    (x ≡ ok err_result)
    × (w'.last_result ≡ none)
    × (w'.connection_boxes ≡ broken.connection_boxes)
    × (w'.connections ≡ broken.connections)
    × IsPoisoned 30 w'
free_connection-poisons_example =
    free_connection-poisons 30 40 10 20 (shared endpoint)
      (record (shared connection) { poisoned = true }) broken refl refl broken_lem.0 broken_lem.1
      refl refl broken_lem.2 broken_lem.3 refl refl

-- A client's endpoint, with a configuration and no connection yet.
abbrev client : EndpointImpl toy
client = record endpoint { default_client_config = some 6; connections = []; connection_refs = [] }

abbrev client_world : World toy
client_world = record world { endpoints = (10, shared client) ∷ [] }

can_connect :
    CanConnect {P = toy} 0 quiet toy_endpoint server (b'h' ∷ b'i' ∷ []) 50 51 77 client client_world
unfolding lookup
can_connect = record {
  config = 6;
  old_id = 0;
  old_handle = 0;
  callback = refl;
  configured = refl;
  makes = refl;
  fresh_sender = refl;
  fresh_ref = refl;
  id_valid = refl;
  handle_valid = refl;
  apart = λ e. omega arith;
}

client_lem : lookup 10 client_world.endpoints ≡ some (shared client)
unfolding lookup
client_lem = refl

connect_client-IsRegistered_example :
    let (x, w') = connect_client false 30 60 2 server 50 51 client_world in
    (handle : ℕ) × (x ≡ ok ok_result)
    × (lookup 50 w'.words ≡ some handle)
    × (lookup 51 w'.words ≡ some (0 % 2 ^ 32))
    × (w'.calls ≡ (77, Call.on_connection_pollable (0 % 2 ^ 32)) ∷ [])
    × IsRegistered 30 handle w'
connect_client-IsRegistered_example =
    connect_client-IsRegistered 30 10 60 2 0 77 50 51 quiet toy_endpoint server (b'h' ∷ b'i' ∷ [])
      (shared client) client_world refl host_lem (omega arith) hi_utf8 broken_lem.0 client_lem refl
      refl can_connect

-- A configuration stands at 70.
abbrev configured_world : World toy
configured_world = record world { client_configs = (70, shared 6) ∷ [] }

config_lem :
    (lookup 70 configured_world.client_configs ≡ some (shared 6))
    × (lookup 51 configured_world.words ≡ some 0)
    × (lookup 50 configured_world.words ≡ some 0)
unfolding lookup
config_lem = (refl, refl, refl)

create_client_endpoint-live_example :
    let (x, w') = create_client_endpoint 70 51 50 configured_world in
    (handle : ℕ) × (arc : ℕ) × (notifier : ℕ) × (e : EndpointImpl toy) × (x ≡ ok ok_result)
    × (lookup 50 w'.words ≡ some handle)
    × (lookup 51 w'.words ≡ some e.id)
    × (endpoint_cell handle w' ≡ live e)
    × (e.default_client_config ≡ some 6)
    × (e.endpoint_poll_notifier ≡ some notifier)
    × IsOpen notifier w'.notices
    × (lookup handle w'.endpoint_boxes ≡ some arc)
    × (w'.pollers ≡ at_rest notifier arc ∷ [])
create_client_endpoint-live_example =
    create_client_endpoint-live 70 50 51 0 0 (shared 6) configured_world refl config_lem.0 refl refl
      config_lem.1 config_lem.2 (λ e. omega arith)
