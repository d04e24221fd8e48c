-- ===== src/Connection/AppEvents.antt =====
-- `ConnectionImpl::handle_app_events` of src/proto_impl/connection.rs.
pub mod Statics
use quinn_ffi.Prelude.{
  ℕ, zero, suc, ◌%◌, ◌^◌, ◌<◌, ◌≤◌, ◌≡◌, refl, ap, ◌∙◌, Option, none, some, List, [], ◌∷◌, ◌++◌,
  arith, length, append-nil, append_assoc,
}
use quinn_ffi.Effect.{ok, lift}
use quinn_ffi.Proto.{
  Proto, IsDraining, Dir, dir_as_u8, Event, handshake_data_ready, connected, connection_lost,
  stream, datagram_received, writable, opened, readable, available, finished, stopped,
}
use quinn_ffi.World.{World, ConnectionImpl, Slot, Call}
use quinn_ffi.Callbacks.{invoke, stream_u64, stream_dir_u8}
use quinn_ffi.Callbacks.Laws.{AllSet, reached, reached-append, invoke-AllSet}
use quinn_ffi.Connection.{connection_id, accepted, app_event, app_event_loop, handle_app_events}

module _ (P : Proto) where
  -- The connection behind an event: only an opened stream is accepted.
  pub after_event : Event → P.Connection → P.Connection
  after_event (stream (opened dir)) i = (P.accept i dir).1
  after_event handshake_data_ready i = i
  after_event connected i = i
  after_event (connection_lost reason) i = i
  after_event datagram_received i = i
  after_event (stream (writable id)) i = i
  after_event (stream (readable id)) i = i
  after_event (stream (available dir)) i = i
  after_event (stream (finished id)) i = i
  after_event (stream (stopped id error_code)) i = i

  opened_call : ℕ → Dir → Option ℕ → List Call
  opened_call con dir none = []
  opened_call con dir (some id) = Call.on_stream_opened con (stream_u64 P id) (dir_as_u8 dir) ∷ []

  -- The calls that an event makes, with the connection's id.
  pub calls_of : ℕ → Event → P.Connection → List Call
  unfolding opened_call
  calls_of con handshake_data_ready i = []
  calls_of con connected i = Call.on_connected con ∷ []
  calls_of con (connection_lost reason) i =
      Call.on_connection_lost con reason (length reason % 2 ^ 32) ∷ []
  calls_of con datagram_received i = Call.on_datagram_received con ∷ []
  calls_of con (stream (opened dir)) i = opened_call con dir (P.accept i dir).0
  calls_of con (stream (available dir)) i = Call.on_stream_available con (dir_as_u8 dir) ∷ []
  calls_of con (stream (writable id)) i =
      Call.on_stream_writable con (stream_u64 P id) (stream_dir_u8 P id) ∷ []
  calls_of con (stream (readable id)) i =
      Call.on_stream_readable con (stream_u64 P id) (stream_dir_u8 P id) ∷ []
  calls_of con (stream (finished id)) i =
      Call.on_stream_finished con (stream_u64 P id) (stream_dir_u8 P id) ∷ []
  calls_of con (stream (stopped id error_code)) i =
      Call.on_stream_stopped con (stream_u64 P id) (stream_dir_u8 P id) ∷ []

-- What a connection makes the application hear until it has no event left.
pub data Hears (P : Proto) (con : ℕ) : P.Connection → List Call → P.Connection → Type 0 where
  stop : {i : P.Connection} (j : P.Connection) → P.poll i ≡ (none, j) → Hears P con i [] j
  more :
      {i : P.Connection} {heard : List Call} {j : P.Connection} (e : Event) (i' : P.Connection)
      (calls : List Call)
      → P.poll i ≡ (some e, i')
      → Hears P con (after_event P e i') heard j
      → calls ≡ calls_of P con e i' ++ heard
      → Hears P con i calls j

module _ {P : Proto} (f : Slot → ℕ) where
  -- The state after one call.
  called :
      (call : Call) (c : ConnectionImpl P) (w : World P)
      → AllSet f w
      → lift (invoke call) (c, w)
        ≡ (ok tt, (c, record w { calls = w.calls ++ reached f (call ∷ []) }))
  called call c w h = ap (λ p. (p.0, (c, p.1))) (invoke-AllSet f call w h)

  opened-calls :
      (con : ℕ) (dir : Dir) (id : Option ℕ) (c : ConnectionImpl P) (w : World P)
      → AllSet f w
      → lift (accepted con dir id) (c, w)
        ≡ (ok tt, (c, record w { calls = w.calls ++ reached f (opened_call P con dir id) }))
  unfolding accepted opened_call
  opened-calls con dir none c w h = ground (arith, append-nil w.calls)
  opened-calls con dir (some id) c w h =
      called (Call.on_stream_opened con (stream_u64 P id) (dir_as_u8 dir)) c w h

  pub app_event-calls :
      (e : Event) (c : ConnectionImpl P) (w : World P)
      → AllSet f w
      → app_event e (c, w) ≡ (
        ok tt,
        (
          record c { inner = after_event P e c.inner },
          record w { calls = w.calls ++ reached f (calls_of P (connection_id c) e c.inner) },
        ),
      )
  unfolding app_event after_event calls_of
  app_event-calls handshake_data_ready c w h = ground (arith, append-nil w.calls)
  app_event-calls connected c w h = called (Call.on_connected (connection_id c)) c w h
  app_event-calls (connection_lost reason) c w h =
      called (Call.on_connection_lost (connection_id c) reason (length reason % 2 ^ 32)) c w h
  app_event-calls datagram_received c w h =
      called (Call.on_datagram_received (connection_id c)) c w h
  app_event-calls (stream (opened dir)) c w h =
      opened-calls (connection_id c) dir (P.accept c.inner dir).0
        (record c { inner = (P.accept c.inner dir).1 }) w h
  app_event-calls (stream (available dir)) c w h =
      called (Call.on_stream_available (connection_id c) (dir_as_u8 dir)) c w h
  app_event-calls (stream (writable id)) c w h =
      called (Call.on_stream_writable (connection_id c) (stream_u64 P id) (stream_dir_u8 P id)) c w
        h
  app_event-calls (stream (readable id)) c w h =
      called (Call.on_stream_readable (connection_id c) (stream_u64 P id) (stream_dir_u8 P id)) c w
        h
  app_event-calls (stream (finished id)) c w h =
      called (Call.on_stream_finished (connection_id c) (stream_u64 P id) (stream_dir_u8 P id)) c w
        h
  app_event-calls (stream (stopped id error_code)) c w h =
      called (Call.on_stream_stopped (connection_id c) (stream_u64 P id) (stream_dir_u8 P id)) c w h

  left-after_event :
      IsDraining P
      → (e : Event) (i : P.Connection) → P.events_left (after_event P e i) ≤ P.events_left i
  unfolding after_event
  left-after_event d (stream (opened dir)) i = d.accept_keeps i dir
  left-after_event d handshake_data_ready i = omega arith
  left-after_event d _ i = omega arith

  Heard : ℕ → ConnectionImpl P → World P → Type 0
  Heard fuel c w =
      (calls : List Call) × (j : P.Connection) × Hears P (connection_id c) c.inner calls j
      × (app_event_loop fuel (c, w)
          ≡ (ok tt, (record c { inner = j }, record w { calls = w.calls ++ reached f calls })))

  loop-stop :
      (fuel : ℕ) (c : ConnectionImpl P) (w : World P) (j : P.Connection)
      → P.poll c.inner ≡ (none, j)
      → app_event_loop (suc fuel) (c, w) ≡ (ok tt, (record c { inner = j }, w))
  unfolding app_event_loop
  loop-stop fuel c w j h = ground arith

  loop-more :
      (fuel : ℕ) (c : ConnectionImpl P) (w : World P) (e : Event) (j : P.Connection)
      → P.poll c.inner ≡ (some e, j)
      → AllSet f w
      → app_event_loop (suc fuel) (c, w)
        ≡ app_event_loop fuel (
          record c { inner = after_event P e j },
          record w { calls = w.calls ++ reached f (calls_of P (connection_id c) e j) },
        )
  unfolding app_event_loop connection_id
  loop-more fuel c w e j h s = ground (arith, app_event-calls e (record c { inner = j }) w s)

  Heard-round :
      IsDraining P
      → (fuel : ℕ) (c : ConnectionImpl P) (w : World P) → P.events_left c.inner < suc fuel
      → AllSet f w
      → (polled : Option Event × P.Connection) → P.poll c.inner ≡ polled
      → ((c' : ConnectionImpl P) (w' : World P)
          → P.events_left c'.inner < fuel
          → AllSet f w'
          → Heard fuel c' w')
      → Heard (suc fuel) c w
  unfolding Heard connection_id
  Heard-round d fuel c w h s (none, j) e rec =
      ([], j, Hears.stop j e, loop-stop fuel c w j e ∙ ground (arith, append-nil w.calls))
  Heard-round d fuel c w h s (some x, j) e rec =
      let made = calls_of P (connection_id c) x j in
      let (heard, j', hears, run) =
        rec (record c { inner = after_event P x j })
          (record w { calls = w.calls ++ reached f made })
          (omega (
            arith,
            left-after_event d x j,
            d.event_falls c.inner x (ap (λ p. p.0) e),
            ap (λ p. P.events_left p.1) e,
          ))
          s in
      (
        made ++ heard,
        j',
        Hears.more x j (made ++ heard) e hears refl,
        loop-more fuel c w x j e s
            ∙ (run
                ∙ ground (
                  arith,
                  append_assoc w.calls (reached f made) (reached f heard),
                  reached-append f made heard,
                )),
      )

  loop-Heard :
      IsDraining P
      → (fuel : ℕ) (c : ConnectionImpl P) (w : World P) → P.events_left c.inner < fuel
      → AllSet f w
      → Heard fuel c w
  loop-Heard d zero c w h s = absurd (omega arith)
  loop-Heard d (suc fuel) c w h s =
      Heard-round d fuel c w h s (P.poll c.inner) refl (λ c' w'. loop-Heard d fuel c' w')

  -- With a library whose queues run dry and every callback set, `handle_app_events` returns: it takes
  -- every event that the connection has, accepting the streams that were opened, and calls the application
  -- for them in order. Nothing else of the shared state changes.
  pub handle_app_events-Hears :
      IsDraining P
      → (c : ConnectionImpl P) (w : World P) → AllSet f w
      → (calls : List Call) × (j : P.Connection) × Hears P (connection_id c) c.inner calls j
        × (handle_app_events (c, w)
            ≡ (ok tt, (record c { inner = j }, record w { calls = w.calls ++ reached f calls })))
  unfolding handle_app_events Heard
  handle_app_events-Hears d c w s = loop-Heard d (suc (P.events_left c.inner)) c w (omega arith) s
