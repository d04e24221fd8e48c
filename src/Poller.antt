-- ===== src/Poller.antt =====
-- `EndpointPoller` of src/proto_impl/endpoint.rs: the thread that polls an endpoint when it is told
-- to. The loop is a step function; between two steps other threads may change the shared state.
pub mod Accounted
pub mod Turns
pub mod Exits
pub mod Stopped
use quinn_ffi.Prelude.{
  ℕ, ◌+◌, ◌-◌, ◌^◌, ◌%◌, ltb, ◌==◌, Bool, true, false, ◌&&◌, ◌||◌, [], ◌∷◌, ◌++◌, bytes,
  if◌then◌else◌,
}
use quinn_ffi.Effect.{M, Exit, ok, err, panic, hang, undefined, Payload, pure, ◌>>◌}
use quinn_ffi.Proto.{Proto}
use quinn_ffi.World.{World, EndpointPoller}
use quinn_ffi.World.Mpsc.{
  new_channel, drop_receiver, try_recv_on, Received, empty, disconnected, message,
}
use quinn_ffi.World.Mutex.{with_try_lock}
use quinn_ffi.Endpoint.{exit_notice}
use quinn_ffi.Endpoint
use quinn_ffi.Handle.{endpoint_cells, put_endpoint_cells, drop_endpoint_arc}

-- How one round of the thread's loop ends: it returned, it waits in `recv`, or it goes round again.
pub data Turn : Type 0 where
  exited waiting : Turn
  again : EndpointPoller → Turn

-- `spin_counter` is an `i32`, written as its bit pattern.
abbrev pub is_thousand : ℕ → Bool
is_thousand n = if ltb n (2 ^ 31) then n % 1000 == 0 else (2 ^ 32 - n) % 1000 == 0

-- `+= 1` as a release build has it: it wraps, where a debug build panics.
abbrev pub count_up : ℕ → ℕ
count_up n = (n + 1) % 2 ^ 32

-- `e.poll().expect(...)`.
abbrev expect_poll : Exit Bool → Exit (Unit {0})
expect_poll (ok b) = ok tt
expect_poll (err e) = panic (Payload.string (bytes "Endpoint polling thread panicked!"))
expect_poll (panic p) = panic p
expect_poll hang = hang
expect_poll undefined = undefined

module _ {P : Proto} where
  -- `EndpointPoller::new`: the poller and the number of the channel that it reads.
  unfoldable pub new_poller : ℕ → M (World P) (EndpointPoller × ℕ)
  new_poller endpoint_ref w = (
    ok (
      record {
        receiver = w.next_id;
        loop_again = false;
        endpoint_ref = endpoint_ref;
        spin_counter = 0;
      },
      w.next_id,
    ),
    record w { notices = new_channel w.next_id w.notices; next_id = w.next_id + 1 },
  )

  -- `start_polling`: a new thread.
  unfoldable pub start_polling : EndpointPoller → M (World P) (Unit {0})
  start_polling p w = (ok tt, record w { pollers = w.pollers ++ p ∷ [] })

  unfoldable pub poll_endpoint : Endpoint.Endp P (Unit {0})
  poll_endpoint s = let (e, s') = Endpoint.poll s in (expect_poll e, s')

  -- `match self.endpoint_ref.try_lock()`.
  unfoldable pub try_poll : EndpointPoller → M (World P) Turn
  unfolding poll_endpoint
  try_poll p =
      with_try_lock endpoint_cells put_endpoint_cells p.endpoint_ref
        (poll_endpoint >> pure (again (record p { spin_counter = 0; loop_again = false })))
        (pure (again (record p { spin_counter = count_up p.spin_counter; loop_again = true })))
        (pure (again p))

  -- The round from the second `if` on.
  unfoldable pub spin : EndpointPoller → M (World P) Turn
  spin p =
      let p' = record p {
        spin_counter = if p.loop_again then count_up p.spin_counter else p.spin_counter;
      } in
      if p'.spin_counter == 0 || (p'.loop_again && is_thousand p'.spin_counter)
      then try_poll p'
      else pure (again p')

  abbrev received : EndpointPoller → Received ℕ → M (World P) Turn
  received p empty = pure waiting
  received p disconnected = spin p
  received p (message code) = if code == exit_notice then pure exited else spin p

  -- One round of `loop`.
  unfoldable pub turn : EndpointPoller → M (World P) Turn
  turn p w =
      if p.loop_again
      then spin p w
      else (let (r, d) = try_recv_on p.receiver w.notices in
          received p r (record w { notices = d }))

  -- The thread's closure is dropped: the poller's receiver, and then its `Arc` of the endpoint.
  unfoldable pub drop_poller : EndpointPoller → World P → World P
  drop_poller p w =
      drop_endpoint_arc p.endpoint_ref (record w { notices = drop_receiver p.receiver w.notices })

  ended : EndpointPoller → Exit Turn → M (World P) Turn
  ended p (ok exited) w = (ok exited, drop_poller p w)
  ended p (ok waiting) w = (ok waiting, w)
  ended p (ok (again p')) w = (ok (again p'), w)
  ended p (err e) w = (err e, drop_poller p w)
  ended p (panic x) w = (panic x, drop_poller p w)
  ended p hang w = (hang, w)
  ended p undefined w = (undefined, w)

  -- A round of the thread. It ends where the loop returns or panics.
  unfoldable pub thread_round : EndpointPoller → M (World P) Turn
  unfolding ended
  thread_round p w = let (x, w') = turn p w in ended p x w'
