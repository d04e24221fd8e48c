-- ===== src/Connection/Timer.antt =====
-- `ConnectionImpl::handle_timer` of src/proto_impl/connection.rs.
use quinn_ffi.Prelude.{ℕ, ◌+◌, ◌<◌, ◌≤◌, ◌≡◌, refl, Option, none, some, Bool, true, false, arith}
use native.Mathlib.Decide.{dec_lt}
use quinn_ffi.Effect.{Exit, ok}
use quinn_ffi.Proto.{Proto}
use quinn_ffi.World.{World, ConnectionImpl}
use quinn_ffi.World.Clock.{now}
use quinn_ffi.Connection.{handle_timer}

-- How `handle_timer` can end, for a connection and a state.
pub data TimerEnd {P : Proto} (c : ConnectionImpl P) (w : World P)
    (end : Exit Bool × (ConnectionImpl P × World P)) : Type 0 where
  due :
      (deadline : ℕ) (i : P.Connection)
      → P.poll_timeout c.inner ≡ (some deadline, i)
      → deadline < w.clock w.reads
      → end ≡ (
        ok true,
        (
          record c { inner = P.handle_timeout i (w.clock (w.reads + 1)); timer_deadline = none },
          record w { reads = w.reads + 1 + 1 },
        ),
      )
      → TimerEnd c w end
  armed :
      (deadline : ℕ) (i : P.Connection)
      → P.poll_timeout c.inner ≡ (some deadline, i)
      → w.clock w.reads ≤ deadline
      → end ≡ (
        ok false,
        (record c { inner = i; timer_deadline = some deadline }, record w { reads = w.reads + 1 }),
      )
      → TimerEnd c w end
  unset :
      (i : P.Connection)
      → P.poll_timeout c.inner ≡ (none, i)
      → end ≡ (ok false, (record c { inner = i; timer_deadline = none }, w))
      → TimerEnd c w end

module _ {P : Proto} where
  -- A timeout strictly in the past is handled, at a second reading of the clock, and disarmed.
  pub handle_timer-due :
      (c : ConnectionImpl P) (w : World P) (deadline : ℕ) (i : P.Connection)
      → P.poll_timeout c.inner ≡ (some deadline, i)
      → deadline < w.clock w.reads
      → handle_timer (c, w) ≡ (
        ok true,
        (
          record c { inner = P.handle_timeout i (w.clock (w.reads + 1)); timer_deadline = none },
          record w { reads = w.reads + 1 + 1 },
        ),
      )
  unfolding handle_timer now
  handle_timer-due c w deadline i h lt = ground arith

  pub handle_timer-armed :
      (c : ConnectionImpl P) (w : World P) (deadline : ℕ) (i : P.Connection)
      → P.poll_timeout c.inner ≡ (some deadline, i)
      → w.clock w.reads ≤ deadline
      → handle_timer (c, w) ≡ (
        ok false,
        (record c { inner = i; timer_deadline = some deadline }, record w { reads = w.reads + 1 }),
      )
  unfolding handle_timer now
  handle_timer-armed c w deadline i h le = ground arith

  pub handle_timer-none :
      (c : ConnectionImpl P) (w : World P) (i : P.Connection)
      → P.poll_timeout c.inner ≡ (none, i)
      → handle_timer (c, w) ≡ (ok false, (record c { inner = i; timer_deadline = none }, w))
  unfolding handle_timer
  handle_timer-none c w i h = ground arith

  timer_end :
      (c : ConnectionImpl P) (w : World P) (polled : Option ℕ × P.Connection)
      → P.poll_timeout c.inner ≡ polled
      → TimerEnd c w (handle_timer (c, w))
  timer_end c w (none, i) h = unset i h (handle_timer-none c w i h)
  timer_end c w (some deadline, i) h = elim (dec_lt deadline (w.clock w.reads)) [
    | yes lt ↦ due deadline i h lt (handle_timer-due c w deadline i h lt)
    | no ge ↦ armed deadline i h (omega arith) (handle_timer-armed c w deadline i h (omega arith))
  ]

  -- `handle_timer` reports a timeout exactly when the connection has one that is strictly past. It is
  -- then handled, at a second reading of the clock, and disarmed; a later one is armed, and with none the
  -- timer is off and the clock is not read.
  pub handle_timer-TimerEnd :
      (c : ConnectionImpl P) (w : World P) → TimerEnd c w (handle_timer (c, w))
  handle_timer-TimerEnd c w = timer_end c w (P.poll_timeout c.inner) refl

  timer_ends :
      (c : ConnectionImpl P) (w : World P) (end : Exit Bool × (ConnectionImpl P × World P))
      → TimerEnd c w end
      → (b : Bool) × (i : P.Connection) × (d : Option ℕ) × (r : ℕ) × (end
          ≡ (ok b, (record c { inner = i; timer_deadline = d }, record w { reads = r })))
  timer_ends c w end (due deadline i h lt e) =
      (true, P.handle_timeout i (w.clock (w.reads + 1)), none, w.reads + 1 + 1, e)
  timer_ends c w end (armed deadline i h le e) = (false, i, some deadline, w.reads + 1, e)
  timer_ends c w end (unset i h e) = (false, i, none, w.reads, e)

  -- The timer touches the library's connection, the deadline and the clock alone.
  pub handle_timer-returns :
      (c : ConnectionImpl P) (w : World P)
      → (b : Bool) × (i : P.Connection) × (d : Option ℕ) × (r : ℕ) × (handle_timer (c, w)
          ≡ (ok b, (record c { inner = i; timer_deadline = d }, record w { reads = r })))
  handle_timer-returns c w = timer_ends c w (handle_timer (c, w)) (handle_timer-TimerEnd c w)
