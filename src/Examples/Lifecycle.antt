-- ===== src/Examples/Lifecycle.antt =====
-- The theorems on disposing of endpoints, and on an endpoint that is lost, at concrete inputs.
use quinn_ffi.Prelude.{
  insert, ℕ, List, inr, true, ◌≡◌, refl, none, some, false, [], ◌∷◌, ◌++◌, lookup,
}
use quinn_ffi.Effect.{ok}
use quinn_ffi.Proto.{SocketAddr, v6}
use quinn_ffi.World.{World, EndpointImpl, EndpointEvent}
use quinn_ffi.World.Mpsc.{IsOpen, queue_of, try_recv_on, send_on}
use quinn_ffi.Endpoint.{exit_notice}
use quinn_ffi.Callbacks.Latest.{set_callbacks, latest}
use quinn_ffi.Proto.{stream, readable}
use quinn_ffi.Connection.{app_event, mark_pollable, connection_id}
use quinn_ffi.Connection.AppEvents.{calls_of, after_event}
use quinn_ffi.Connection.AppEvents.Statics.{hears_first, set_callbacks-app_event}
use quinn_ffi.Endpoint.Refs.{close}
use quinn_ffi.FfiResult.{ok_result, err_result}
use quinn_ffi.Handle.Poison.{IsPoisoned}
use quinn_ffi.Bindings.Endpoints.{dispose_endpoint, poll_endpoint}
use quinn_ffi.Bindings.Endpoints.Disposed.{dispose_endpoint-frees}
use quinn_ffi.Bindings.Endpoints.Shutdown.{dispose_endpoint-shutdown}
use quinn_ffi.Bindings.Endpoints.Forgotten.{poll_endpoint-forgotten}
use quinn_ffi.Poller.{exited, turn, thread_round}
use quinn_ffi.Poller.Stopped.{close-exits}
use quinn_ffi.World.{EndpointPoller, Call, Slot, Shared}
use quinn_ffi.Examples.Toy.{toy}
use quinn_ffi.Examples.Worlds.{world, endpoint, shared, connection, open_channel}

notices-IsOpen : IsOpen 2 world.notices
unfolding lookup
notices-IsOpen = (_, refl, refl)

boxed_lem :
    (lookup 30 world.endpoint_boxes ≡ some 10)
    × (lookup 10 world.endpoints ≡ some (shared endpoint))
unfolding lookup
boxed_lem = (refl, refl)

silence : queue_of 2 world.notices ≡ []
unfolding queue_of lookup
silence = refl

dispose_endpoint-frees_example :
    let (r, w') = dispose_endpoint 30 world in
    (r ≡ ok ok_result)
    × (lookup 30 w'.endpoint_boxes ≡ none)
    × (queue_of 2 w'.notices ≡ queue_of 2 world.notices ++ exit_notice ∷ [])
dispose_endpoint-frees_example =
    dispose_endpoint-frees 30 10 2 (shared endpoint) world refl boxed_lem.0 boxed_lem.1 refl refl
      refl notices-IsOpen

abbrev waits : EndpointPoller
waits = record { receiver = 2; loop_again = false; endpoint_ref = 10; spin_counter = 0 }

close-exits_example : (turn waits (close (endpoint, world)).1.1).0 ≡ ok exited
close-exits_example = close-exits waits endpoint world refl refl notices-IsOpen silence

-- The handle's box and the thread share the endpoint.
dispose_endpoint-shutdown_example :
    let (r, w₁) = dispose_endpoint 30 world in
    let (x, w₂) = thread_round waits w₁ in
    (r ≡ ok ok_result)
    × (lookup 30 w₁.endpoint_boxes ≡ none)
    × (x ≡ ok exited)
    × (lookup 10 w₂.endpoints ≡ none)
    × ((code : ℕ) → send_on 2 code w₂.notices ≡ none)
dispose_endpoint-shutdown_example =
    dispose_endpoint-shutdown 30 waits (shared endpoint) world refl boxed_lem.0 boxed_lem.1 refl
      refl refl refl refl notices-IsOpen silence

-- An endpoint with a datagram to an IPv6 address.
abbrev far : SocketAddr
far = v6 (1 ∷ []) 443

abbrev lost : EndpointImpl toy
lost = record endpoint { inner = record { outgoing = (8 ∷ [], far) ∷ []; answers = none } }

abbrev lost_world : World toy
lost_world = record world { endpoints = (10, shared lost) ∷ [] }

-- A library that answers, and the last event of a connection that drains before a datagram of it.
abbrev answering : EndpointImpl toy
answering = record endpoint { inner = record { outgoing = []; answers = some 5 } }

abbrev draining_world : World toy
draining_world = record world {
  endpoints = (10, shared answering) ∷ [];
  endpoint_events =
      (
        1,
        open_channel
            ((9, EndpointEvent.proto true) ∷ (9, EndpointEvent.transmit (6 ∷ [], far)) ∷ []),
      )
      ∷ [];
}

draining_lem : lookup 10 draining_world.endpoints ≡ some (shared answering)
unfolding lookup
draining_lem = refl

poll_endpoint-forgotten_example :
    let (r, w') = poll_endpoint 30 draining_world in
    (r ≡ ok err_result)
    × (w'.last_result ≡ none)
    × IsPoisoned 30 w'
    × (left : Shared (EndpointImpl toy)) × (lookup 10 w'.endpoints ≡ some left)
    × (lookup 9 left.value.connections ≡ none)
    × (left.value.inner ≡ record { outgoing = []; answers = some 5 })
unfolding try_recv_on lookup insert
poll_endpoint-forgotten_example =
    poll_endpoint-forgotten 30 10 9 true 5 (record { outgoing = []; answers = some 5 })
      (record { outgoing = []; answers = some 5 })
      ((1, open_channel ((9, EndpointEvent.transmit (6 ∷ [], far)) ∷ [])) ∷ []) (shared answering)
      draining_world refl boxed_lem.0 draining_lem refl refl refl (inr refl) refl refl

-- Two functions for one event, and one for another, set before a stream becomes readable.
set_callbacks-app_event_example :
    let sets : List (Slot × ℕ) =
      (Slot.stream_readable, 5) ∷ (Slot.transmit, 6) ∷ (Slot.stream_readable, 7) ∷ [] in
    let w' : World toy = set_callbacks sets world in
    (app_event (stream (readable 4)) (connection, w')
      ≡ hears_first
          (latest Slot.stream_readable sets (some 77))
          (calls_of toy (connection_id connection) (stream (readable 4)) connection.inner)
          (
            record connection { inner = after_event toy (stream (readable 4)) connection.inner },
            w',
          ))
    × (mark_pollable false (connection, w')
        ≡ hears_first
            (latest Slot.connection_pollable sets (some 77))
            (Call.on_connection_pollable (connection_id connection) ∷ [])
            (connection, w'))
    × (w'.calls ≡ world.calls)
set_callbacks-app_event_example =
    set_callbacks-app_event
      ((Slot.stream_readable, 5) ∷ (Slot.transmit, 6) ∷ (Slot.stream_readable, 7) ∷ [])
      (stream (readable 4)) connection world
