-- ===== src/Examples/Pollers.antt =====
-- The theorems on the polling thread, at concrete pollers.
use quinn_ffi.Prelude.{◌≡◌, refl, true, false, none, some, [], ◌∷◌, lookup, insert}
use quinn_ffi.Effect.{ok}
use quinn_ffi.World.{World, EndpointPoller, EndpointImpl, Shared}
use quinn_ffi.World.Mpsc.{queue_of, try_recv_on}
use quinn_ffi.Endpoint
use quinn_ffi.Endpoint.{exit_notice}
use quinn_ffi.Poller.{again}
use quinn_ffi.Poller.Turns.{turns, turns-polls}
use quinn_ffi.Poller.Exits.{turns-poisoned}
use quinn_ffi.Examples.Toy.{toy}
use quinn_ffi.Examples.Worlds.{world, endpoint, open_channel}

-- A poller that waits, and one that has spun 997 times.
abbrev resting : EndpointPoller
resting = record { receiver = 2; loop_again = false; endpoint_ref = 10; spin_counter = 0 }

abbrev spinning : EndpointPoller
spinning = record { receiver = 2; loop_again = true; endpoint_ref = 10; spin_counter = 997 }

-- The exit code has been sent.
abbrev told_to_exit : World toy
told_to_exit = record world { notices = (2, open_channel (255 ∷ [])) ∷ [] }

told_to_exit-queue : queue_of 2 told_to_exit.notices ≡ 255 ∷ []
unfolding queue_of lookup
told_to_exit-queue = refl

abbrev poisoned_cell : Shared (EndpointImpl toy)
poisoned_cell = record { strong = 2; locked = false; poisoned = true; value = endpoint }

abbrev poisoned : World toy
poisoned = record told_to_exit { endpoints = (10, poisoned_cell) ∷ [] }

poisoned_lem : lookup 10 poisoned.endpoints ≡ some poisoned_cell
unfolding lookup
poisoned_lem = refl

turns-poisoned_example :
    (p' : EndpointPoller) × (turns 5000 spinning poisoned ≡ (ok (again p'), poisoned))
    × (p'.loop_again ≡ true)
turns-poisoned_example =
    turns-poisoned 5000 spinning poisoned_cell poisoned refl poisoned_lem refl refl

-- An endpoint with nothing to do, while its lock is free, and while it is held.
abbrev calm : EndpointImpl toy
calm = record endpoint { inner = record { outgoing = []; answers = none } }

abbrev calm_cell : Shared (EndpointImpl toy)
calm_cell = record { strong = 2; locked = false; poisoned = false; value = calm }

abbrev free : World toy
free = record world {
  endpoints = (10, calm_cell) ∷ [];
  endpoint_events = (1, open_channel []) ∷ [];
}

abbrev held : World toy
held = record free { endpoints = insert 10 (record calm_cell { locked = true }) free.endpoints }

held_lem :
    (lookup 10 free.endpoints ≡ some calm_cell)
    × (lookup 10 held.endpoints ≡ some (record calm_cell { locked = true }))
    × (Endpoint.poll (calm, held) ≡ (ok false, (calm, held)))
unfolding lookup insert Endpoint.poll Endpoint.transmit_loop Endpoint.handle_connection_events
    Endpoint.event_loop Endpoint.recv_endpoint_event try_recv_on
held_lem = (refl, refl, refl)

turns-polls_example : turns 3 spinning free ≡ (
  ok (again (record spinning { spin_counter = 0; loop_again = false })),
  record held { endpoints = insert 10 calm_cell held.endpoints },
)
turns-polls_example =
    turns-polls 2 spinning calm_cell (record calm_cell { locked = true }) false calm free held refl
      refl held_lem.0 refl refl held_lem.2 held_lem.1
