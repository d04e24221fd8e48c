-- ===== src/Examples/Reach.antt =====
-- The theorems on all that an endpoint can become, at a concrete endpoint with two connections.
use quinn_ffi.Prelude.{◌≡◌, refl, none, some, [], arith, lookup, insert}
use quinn_ffi.Effect.{ok}
use quinn_ffi.World.{World, EndpointImpl}
use quinn_ffi.World.Mpsc.{queue_of, new_channel}
use quinn_ffi.World.Clock.{now}
use quinn_ffi.Connection.{new_connection}
use quinn_ffi.Endpoint.{
  new_endpoint, add_connection, forward_event_to_connection, connection_channel, insert_sender,
}
use quinn_ffi.Endpoint.Senders.{IsWf}
use quinn_ffi.Endpoint.Reach.{Reach, Step, new_endpoint-Reach-IsWf, forward-others}
use quinn_ffi.Examples.Toy.{toy, quiet}
use quinn_ffi.Examples.Worlds.{world, toy_endpoint}

abbrev first : EndpointImpl toy
first = record {
  id = 1;
  inner = toy_endpoint;
  endpoint_events_rx = 100;
  endpoint_events_tx = 100;
  endpoint_poll_notifier = none;
  default_client_config = none;
  connections = [];
  connection_refs = [];
}

abbrev first_world : World toy
first_world = record world {
  endpoint_events = new_channel 100 world.endpoint_events;
  next_id = 101;
}

first_lem : new_endpoint toy_endpoint world ≡ (ok first, first_world)
unfolding new_endpoint
first_lem = refl

-- Two connections are added.
abbrev one : EndpointImpl toy × World toy
one = (add_connection 9 quiet (first, first_world)).1

abbrev two : EndpointImpl toy × World toy
two = (add_connection 10 quiet one).1

two-Reach : Reach (first, first_world) two
two-Reach =
    Reach.then one two (Reach.then (first, first_world) one Reach.here (Step.added 9 quiet))
      (Step.added 10 quiet)

two-IsWf : IsWf two
two-IsWf = new_endpoint-Reach-IsWf toy_endpoint first world first_world two first_lem two-Reach

new_endpoint-Reach-IsWf_example : IsWf two
new_endpoint-Reach-IsWf_example =
    new_endpoint-Reach-IsWf toy_endpoint first world first_world two first_lem two-Reach

two_second : lookup 10 two.0.connections ≡ some 102
unfolding lookup add_connection connection_channel insert_sender new_connection now insert
two_second = refl

forward-others_example :
    queue_of 102 (forward_event_to_connection 9 5 two).1.1.connection_events
    ≡ queue_of 102 two.1.connection_events
forward-others_example = forward-others 9 10 102 5 two.0 two.1 two-IsWf (omega arith) two_second
