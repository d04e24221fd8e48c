-- ===== src/Connection/AppEvents/Statics.antt =====
-- Which static of src/ffi/bindings.rs each event of a connection is heard through.
use quinn_ffi.Prelude.{ℕ, ◌≡◌, refl, ap, ◌∙◌, Option, none, some, false, List, [], ◌∷◌, ◌++◌}
use quinn_ffi.Effect.{Exit, ok, undefined, lift}
use quinn_ffi.Proto.{
  Proto, Dir, dir_as_u8, Event, handshake_data_ready, connected, connection_lost, stream,
  datagram_received, writable, opened, readable, available, finished, stopped,
}
use quinn_ffi.World.{World, ConnectionImpl, Slot, Call}
use quinn_ffi.Callbacks.{invoke, slot_of, stream_u64}
use quinn_ffi.Callbacks.Latest.{
  latest, called, invoke-called, set_callbacks, set_callbacks-static, set_callbacks-calls,
}
use quinn_ffi.Connection.{connection_id, accepted, app_event, mark_pollable}
use quinn_ffi.Connection.AppEvents.{after_event, calls_of, opened_call}

-- The static that the bindings document for an event; the handshake's data has none.
abbrev pub event_slot : Event → Option Slot
event_slot handshake_data_ready = none
event_slot connected = some Slot.connected
event_slot (connection_lost reason) = some Slot.connection_lost
event_slot datagram_received = some Slot.datagram_received
event_slot (stream (opened dir)) = some Slot.stream_opened
event_slot (stream (available dir)) = some Slot.stream_available
event_slot (stream (writable id)) = some Slot.stream_writable
event_slot (stream (readable id)) = some Slot.stream_readable
event_slot (stream (finished id)) = some Slot.stream_finished
event_slot (stream (stopped id error_code)) = some Slot.stream_stopped

module _ {P : Proto} where
  -- The function that the setters have left in a static.
  abbrev pub latest_in : Option Slot → List (Slot × ℕ) → World P → Option ℕ
  latest_in none sets w = none
  latest_in (some s) sets w = latest s sets (w.callbacks s)

  -- A function hears the first call; with no function to hear it, it is undefined what happens.
  abbrev pub hears_first :
      Option ℕ
      → List Call
      → ConnectionImpl P × World P
      → Exit (Unit {0}) × (ConnectionImpl P × World P)
  hears_first f [] s = (ok tt, s)
  hears_first none (call ∷ calls) s = (undefined, s)
  hears_first (some f) (call ∷ calls) s =
      (ok tt, (s.0, record s.1 { calls = s.1.calls ++ (f, call) ∷ [] }))

  called-hears_first :
      (f : Option ℕ) (call : Call) (c : ConnectionImpl P) (w : World P)
      → (let (x, w') = called call f w in (x, (c, w'))) ≡ hears_first f (call ∷ []) (c, w)
  called-hears_first none call c w = refl
  called-hears_first (some f) call c w = refl

  invoke-latest :
      (sets : List (Slot × ℕ)) (call : Call) (c : ConnectionImpl P) (w : World P)
      → lift (invoke call) (c, set_callbacks sets w)
        ≡ hears_first (latest_in (some (slot_of call)) sets w) (call ∷ []) (c, set_callbacks sets w)
  invoke-latest sets call c w =
      ap (λ p. (p.0, (c, p.1))) (invoke-called call (set_callbacks sets w))
      ∙ (called-hears_first ((set_callbacks sets w).callbacks (slot_of call)) call c
            (set_callbacks sets w)
          ∙ ap (λ o. hears_first o (call ∷ []) (c, set_callbacks sets w))
              (set_callbacks-static (slot_of call) sets w))

  opened-latest :
      (sets : List (Slot × ℕ)) (con : ℕ) (dir : Dir) (id : Option ℕ) (c : ConnectionImpl P)
      (w : World P)
      → lift (accepted con dir id) (c, set_callbacks sets w)
        ≡ hears_first
            (latest Slot.stream_opened sets (w.callbacks Slot.stream_opened))
            (opened_call P con dir id)
            (c, set_callbacks sets w)
  unfolding accepted opened_call
  opened-latest sets con dir none c w = refl
  opened-latest sets con dir (some id) c w =
      invoke-latest sets (Call.on_stream_opened con (stream_u64 P id) (dir_as_u8 dir)) c w

  app_event-latest :
      (sets : List (Slot × ℕ)) (e : Event) (c : ConnectionImpl P) (w : World P)
      → app_event e (c, set_callbacks sets w)
        ≡ hears_first
            (latest_in (event_slot e) sets w)
            (calls_of P (connection_id c) e c.inner)
            (record c { inner = after_event P e c.inner }, set_callbacks sets w)
  unfolding app_event after_event calls_of connection_id
  app_event-latest sets handshake_data_ready c w = refl
  app_event-latest sets connected c w = invoke-latest sets _ c w
  app_event-latest sets (connection_lost reason) c w = invoke-latest sets _ c w
  app_event-latest sets datagram_received c w = invoke-latest sets _ c w
  app_event-latest sets (stream (opened dir)) c w =
      opened-latest sets (connection_id c) dir (P.accept c.inner dir).0
        (record c { inner = (P.accept c.inner dir).1 }) w
  app_event-latest sets (stream (available dir)) c w = invoke-latest sets _ c w
  app_event-latest sets (stream (writable id)) c w = invoke-latest sets _ c w
  app_event-latest sets (stream (readable id)) c w = invoke-latest sets _ c w
  app_event-latest sets (stream (finished id)) c w = invoke-latest sets _ c w
  app_event-latest sets (stream (stopped id error_code)) c w = invoke-latest sets _ c w

  pollable-latest :
      (sets : List (Slot × ℕ)) (c : ConnectionImpl P) (w : World P)
      → mark_pollable false (c, set_callbacks sets w)
        ≡ hears_first
            (latest_in (some Slot.connection_pollable) sets w)
            (Call.on_connection_pollable (connection_id c) ∷ [])
            (c, set_callbacks sets w)
  unfolding mark_pollable connection_id
  pollable-latest sets c w = invoke-latest sets (Call.on_connection_pollable (connection_id c)) c w

  -- After any calls of the setters, an event of a connection is heard, with that connection's id, by the
  -- function that was last set for its kind of event, and else by the one that was set before; with none
  -- it is undefined what happens. An opened stream is heard if the library has it to accept, and the
  -- handshake's data by nobody. Without `auto-poll`, a connection that becomes pollable is heard by the
  -- function last set for that. The setters call nothing.
  pub set_callbacks-app_event :
      (sets : List (Slot × ℕ)) (e : Event) (c : ConnectionImpl P) (w : World P)
      → let w' : World P = set_callbacks sets w in
        (app_event e (c, w')
          ≡ hears_first
              (latest_in (event_slot e) sets w)
              (calls_of P (connection_id c) e c.inner)
              (record c { inner = after_event P e c.inner }, w'))
        × (mark_pollable false (c, w')
            ≡ hears_first
                (latest_in (some Slot.connection_pollable) sets w)
                (Call.on_connection_pollable (connection_id c) ∷ [])
                (c, w'))
        × (w'.calls ≡ w.calls)
  set_callbacks-app_event sets e c w =
      (app_event-latest sets e c w, pollable-latest sets c w, set_callbacks-calls sets w)
