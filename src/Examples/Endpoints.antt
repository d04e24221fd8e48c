-- ===== src/Examples/Endpoints.antt =====
-- The theorems on endpoints, at concrete inputs.
use quinn_ffi.Prelude.{◌≡◌, refl, none, true, false, [], ◌∷◌, lookup, arith}
use quinn_ffi.Effect.{ok}
use quinn_ffi.Addr.{IpAddr}
use quinn_ffi.World.{World, EndpointImpl, ConnectionImpl, ConnectionEvent}
use quinn_ffi.Sending.{recv_connection_event}
use quinn_ffi.FfiResult.{err_result}
use quinn_ffi.FfiResult.Laws.{clear_last}
use quinn_ffi.Endpoint.{
  new_endpoint, handle_connection_events, io_loop_bound, add_connection,
  forward_event_to_connection,
}
use quinn_ffi.Endpoint.Ids.{new_endpoint-same_id}
use quinn_ffi.Endpoint.Loop.{LoopEnd, handle_connection_events-LoopEnd}
use quinn_ffi.Endpoint.Routing.{add-forward-recv}
use quinn_ffi.Handle.Poison.{IsPoisoned}
use quinn_ffi.Utf8.{is_utf8}
use quinn_ffi.Bindings.Endpoints.{dispose_endpoint, connect_client}
use quinn_ffi.Bindings.Endpoints.Poisoned.{dispose_endpoint-IsPoisoned, connect_client-no_config}
use quinn_ffi.Examples.Toy.{toy, quiet}
use quinn_ffi.Examples.Worlds.{world, endpoint, toy_endpoint, shared}

abbrev poisoned : World toy
poisoned = record world {
  endpoints = (10, record { strong = 2; locked = false; poisoned = true; value = endpoint }) ∷ [];
}

poisoned-IsPoisoned : IsPoisoned 30 poisoned
unfolding lookup
poisoned-IsPoisoned = record {
  arc = 10;
  cell = record { strong = 2; locked = false; poisoned = true; value = endpoint };
  boxed = refl;
  stored = refl;
  free = refl;
  poison = refl;
}

dispose_endpoint-IsPoisoned_example :
    dispose_endpoint 30 poisoned ≡ (ok err_result, clear_last poisoned)
dispose_endpoint-IsPoisoned_example =
    dispose_endpoint-IsPoisoned 30 poisoned refl poisoned-IsPoisoned

abbrev address : IpAddr
address = record { port = 4433; address_0 = 127; address_1 = 0; address_2 = 0; address_3 = 1 }

connect_client-no_config_example :
    let (r, w') = connect_client true 30 60 2 address 50 51 world in
    (r ≡ ok err_result) × (w'.last_result ≡ none) × IsPoisoned 30 w'
unfolding lookup is_utf8
connect_client-no_config_example =
    connect_client-no_config true 30 10 60 2 address 50 51 (b'h' ∷ b'i' ∷ []) (shared endpoint)
      world refl refl (omega arith) refl refl refl refl refl refl

new_endpoint-same_id_example :
    (e₁ : EndpointImpl toy) × (w₁ : World toy) × (e₂ : EndpointImpl toy) × (w₂ : World toy)
    × (new_endpoint toy_endpoint world ≡ (ok e₁, w₁))
    × (new_endpoint toy_endpoint w₁ ≡ (ok e₂, w₂))
    × (e₁.id ≡ 1)
    × (e₁.id ≡ e₂.id)
    × (w₂.endpoint_id ≡ 0)
new_endpoint-same_id_example = new_endpoint-same_id toy_endpoint toy_endpoint world

handle_connection_events-LoopEnd_example :
    LoopEnd io_loop_bound (endpoint, world) (handle_connection_events (endpoint, world))
handle_connection_events-LoopEnd_example = handle_connection_events-LoopEnd (endpoint, world)

add-forward-recv_example :
    let (r, (e₁, w₁)) = add_connection 9 quiet (endpoint, world) in
    (c : ConnectionImpl toy) × (w₂ : World toy) × (r ≡ ok c)
    × (c.connection_handle ≡ 9)
    × (forward_event_to_connection 9 5 (e₁, w₁) ≡ (ok tt, (e₁, w₂)))
    × ((recv_connection_event c.connection_events w₂).0 ≡ ok (ConnectionEvent.proto 5))
unfolding lookup
add-forward-recv_example = add-forward-recv 9 quiet 5 endpoint world (λ e. grind arith)
