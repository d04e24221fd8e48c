-- ===== src/Examples/Connections.antt =====
-- The theorems on connections, at concrete inputs.
use quinn_ffi.Prelude.{ℕ, ◌≡◌, refl, true, List, ◌++◌, lookup}
use quinn_ffi.Effect.{ok}
use quinn_ffi.World.{World, ConnectionImpl, Call}
use quinn_ffi.World.Mpsc.{queue_of, IsOpen}
use quinn_ffi.World.Mpsc.Fifo.{push_all}
use quinn_ffi.Callbacks.Laws.{reached}
use quinn_ffi.Connection.{
  handle_transmits, handle_endpoint_events, handle_app_events, handle_timer, poll, connection_id,
}
use quinn_ffi.Connection.Transmits.{
  Drains, is_cons, sent, transmit_messages, handle_transmits-Drains,
}
use quinn_ffi.Connection.Events.{Gives, event_messages, zeros}
use quinn_ffi.Connection.Events.Sent.{handle_endpoint_events-Gives}
use quinn_ffi.Connection.AppEvents.{Hears, handle_app_events-Hears}
use quinn_ffi.Connection.Timer.{TimerEnd, handle_timer-TimerEnd}
use quinn_ffi.Connection.Poll.{Polled, poll-Polled}
use quinn_ffi.Examples.Toy.{toy, ToyConnection, toy-IsDraining}
use quinn_ffi.Examples.Worlds.{world, connection, function_of}

to_endpoint-IsOpen : IsOpen 1 world.endpoint_events
unfolding lookup
to_endpoint-IsOpen = (_, refl, refl)

notices-IsOpen : IsOpen 2 world.notices
unfolding lookup
notices-IsOpen = (_, refl, refl)

handle_transmits-Drains_example :
    (ts : List toy.Transmit) × (r : ℕ) × (j : ToyConnection) × Drains toy world.clock 0
      connection.inner ts r j
    × (handle_transmits (connection, world)
        ≡ (ok (is_cons ts), sent connection j r (transmit_messages 9 ts) world))
    × (queue_of 1 (push_all 1 (transmit_messages 9 ts) world.endpoint_events)
        ≡ queue_of 1 world.endpoint_events ++ transmit_messages 9 ts)
handle_transmits-Drains_example =
    handle_transmits-Drains toy-IsDraining connection world to_endpoint-IsOpen

handle_endpoint_events-Gives_example :
    (es : List toy.EndpointEvent) × (j : ToyConnection) × (w' : World toy) × Gives toy
      connection.inner es j
    × (handle_endpoint_events true (connection, world)
        ≡ (ok tt, (record connection { inner = j }, w')))
    × (queue_of 1 w'.endpoint_events ≡ queue_of 1 world.endpoint_events ++ event_messages 9 es)
    × (queue_of 2 w'.notices ≡ queue_of 2 world.notices ++ zeros es)
handle_endpoint_events-Gives_example =
    handle_endpoint_events-Gives true toy-IsDraining 2 connection world to_endpoint-IsOpen refl
      notices-IsOpen

handle_app_events-Hears_example :
    (calls : List Call) × (j : ToyConnection) × Hears toy
      (connection_id connection)
      connection.inner
      calls
      j
    × (handle_app_events (connection, world) ≡ (
      ok tt,
      (
        record connection { inner = j },
        record world { calls = world.calls ++ reached function_of calls },
      ),
    ))
handle_app_events-Hears_example =
    handle_app_events-Hears function_of toy-IsDraining connection world (λ s. refl)

handle_timer-TimerEnd_example : TimerEnd connection world (handle_timer (connection, world))
handle_timer-TimerEnd_example = handle_timer-TimerEnd connection world

poll-Polled_example :
    (s : ConnectionImpl toy × World toy) × (poll true (connection, world) ≡ (ok tt, s))
    × Polled true function_of 2 connection world s.0 s.1
poll-Polled_example =
    poll-Polled true toy-IsDraining function_of 2 connection world to_endpoint-IsOpen refl
      notices-IsOpen (λ s. refl)
