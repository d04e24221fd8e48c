-- ===== src/Examples/Sharing.antt =====
-- The theorem on the references to connections, at an endpoint that shares one with a handle.
use quinn_ffi.Prelude.{◌≡◌, ◌+◌, ◌==◌, ◌∷◌, refl, none, some, false, if◌then◌else◌, [], lookup}
use quinn_ffi.World.{World}
use quinn_ffi.World.Arcs.Counts.{occurs}
use quinn_ffi.World.Arcs.Left.{count}
use quinn_ffi.Handle.Counted.{known}
use quinn_ffi.Bindings.Endpoints.{create_client_endpoint, connect_client}
use quinn_ffi.Bindings.Sharing.{Reach, Step, Reach-counts}
use quinn_ffi.Examples.Toy.{toy}
use quinn_ffi.Examples.Worlds.{world, shared, server}

-- A configuration stands at 70.
abbrev bare : World toy
bare = record world {
  endpoints = [];
  endpoint_boxes = [];
  connections = [];
  connection_boxes = [];
  client_configs = (70, shared 6) ∷ [];
}

-- An endpoint is made, whose handle is 102, and it connects: the `Arc` 105 goes into the box 106.
abbrev created : World toy
created = (create_client_endpoint 70 51 50 bare).1

abbrev linked : World toy
linked = (connect_client false 102 60 2 server 50 51 created).1

linked-Reach : Reach bare linked
linked-Reach =
    Reach.then created linked (Reach.then bare created Reach.here (Step.client_created 70 51 50))
      (Step.connected false 102 60 2 server 50 51)

Reach-counts_example :
    let total = occurs 105 linked.connection_boxes + known 105 linked.endpoints in
    count (lookup 105 linked.connections) ≡ (if total == 0 then none else some total)
Reach-counts_example = Reach-counts bare linked 105 refl refl refl linked-Reach
