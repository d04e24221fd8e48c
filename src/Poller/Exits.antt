-- ===== src/Poller/Exits.antt =====
-- When the thread of `EndpointPoller::start_polling` ends.
use quinn_ffi.Prelude.{
  ℕ, zero, suc, ◌≡◌, ◌≢◌, ◌↔◌, refl, sym, insert, ◌∙◌, Bool, true, false, ◌==◌, lookup, some, List,
  ◌∷◌, arith, Dict, Bool-cases, Option-cases, inl, inr, ◌&&◌, ◌||◌, if◌then◌else◌,
}
use quinn_ffi.Effect.{Exit, ok, err, panic, hang, undefined, pure, bind_exit}
use quinn_ffi.Proto.{Proto}
use quinn_ffi.World.{World, EndpointPoller, EndpointImpl, Shared, Channel}
use quinn_ffi.World.Mpsc.{queue_of, try_recv_on, message}
use quinn_ffi.World.Mpsc.Fifo.{Found, nothing, oldest, try_recv_on-Found}
use quinn_ffi.World.Mutex.Laws.{
  with_try_lock-none, with_try_lock-locked, with_try_lock-poisoned, with_try_lock-exit,
}
use quinn_ffi.Endpoint.{exit_notice}
use quinn_ffi.Handle.{endpoint_cells, put_endpoint_cells}
use quinn_ffi.Poller
use quinn_ffi.Poller.{
  Turn, exited, waiting, again, turn, spin, try_poll, is_thousand, count_up, poll_endpoint,
}
use quinn_ffi.Poller.Turns.{turns, turns-suc}

not_exited :
    {S : Type 0} (q : EndpointPoller) (e : Exit (Unit {0})) (s : S)
    → (bind_exit (λ _. pure (again q)) e s).0 ≢ ok exited
not_exited q (ok x) s = λ h. cc
not_exited q (err x) s = λ h. cc
not_exited q (panic x) s = λ h. cc
not_exited q hang s = λ h. cc
not_exited q undefined s = λ h. cc

module _ {P : Proto} where
  try_poll-poisoned :
      (p : EndpointPoller) (cell : Shared (EndpointImpl P)) (w : World P)
      → lookup p.endpoint_ref w.endpoints ≡ some cell
      → cell.locked ≡ false
      → cell.poisoned ≡ true
      → try_poll p w ≡ (ok (again p), w)
  unfolding try_poll
  try_poll-poisoned p cell w h l f =
      with_try_lock-poisoned endpoint_cells put_endpoint_cells p.endpoint_ref _ _ _ cell w h l f

  turn-poisoned :
      (p : EndpointPoller) (cell : Shared (EndpointImpl P)) (w : World P)
      → p.loop_again ≡ true
      → lookup p.endpoint_ref w.endpoints ≡ some cell
      → cell.locked ≡ false
      → cell.poisoned ≡ true
      → turn p w ≡ (ok (again (record p { spin_counter = count_up p.spin_counter })), w)
  unfolding turn spin
  turn-poisoned p cell w l h u f =
      ground (
        arith,
        try_poll-poisoned (record p { spin_counter = count_up p.spin_counter }) cell w h u f,
      )

  -- A poller that spins when its endpoint is poisoned spins on, however many rounds it goes: it changes
  -- nothing and never looks at its channel, so that no exit code ends it.
  pub turns-poisoned :
      (n : ℕ) (p : EndpointPoller) (cell : Shared (EndpointImpl P)) (w : World P)
      → p.loop_again ≡ true
      → lookup p.endpoint_ref w.endpoints ≡ some cell
      → cell.locked ≡ false
      → cell.poisoned ≡ true
      → (p' : EndpointPoller) × (turns n p w ≡ (ok (again p'), w)) × (p'.loop_again ≡ true)
  unfolding turns
  turns-poisoned zero p cell w l h u f = (p, refl, l)
  turns-poisoned (suc n) p cell w l h u f =
      let q = record p { spin_counter = count_up p.spin_counter } in
      let (p', run, l') = turns-poisoned n q cell w l h u f in
      (p', turns-suc n p q w w (turn-poisoned p cell w l h u f) ∙ run, l')

  try_poll-runs : (p : EndpointPoller) (w : World P) → (try_poll p w).0 ≢ ok exited
  unfolding try_poll
  try_poll-runs p w = elim (Option-cases (lookup p.endpoint_ref w.endpoints)) [
    | inl e ↦
        rw (with_try_lock-none endpoint_cells put_endpoint_cells p.endpoint_ref _ _ _ w e) (λ h. cc)
    | inr (c, e) ↦ elim (Bool-cases c.locked) [
      | inl l ↦
          rw (with_try_lock-locked endpoint_cells put_endpoint_cells p.endpoint_ref _ _ _ c w e l)
            (λ h. cc)
      | inr l ↦ elim (Bool-cases c.poisoned) [
        | inl f ↦
            rw
              (with_try_lock-poisoned endpoint_cells put_endpoint_cells p.endpoint_ref _ _ _ c w e l
                f)
              (λ h. cc)
        | inr f ↦
            let s : EndpointImpl P × World P = (
              c.value,
              put_endpoint_cells w (insert p.endpoint_ref (record c { locked = true }) w.endpoints),
            ) in
            λ h.
              not_exited (record p { spin_counter = 0; loop_again = false }) (poll_endpoint s).0
                (poll_endpoint s).1
                (sym (
                    with_try_lock-exit endpoint_cells put_endpoint_cells p.endpoint_ref _ _ _ c w e
                      l f)
                  ∙ h)
      ]
    ]
  ]

  first_message :
      (k m : ℕ) (rest : List ℕ) (w : World P)
      → queue_of k w.notices ≡ m ∷ rest
      → Found k w.notices
      → (d : Dict (Channel ℕ)) × (try_recv_on k w.notices ≡ (message m, d))
  first_message k m rest w e (nothing q r n h) = absurd (cc)
  first_message k m rest w e (oldest m' rest' d q h l) = (d, cc)

  either-runs :
      (b : Bool) (p : EndpointPoller) (w : World P)
      → ((if b then try_poll p else pure (again p)) w).0 ≢ ok exited
  either-runs true p w = try_poll-runs p w
  either-runs false p w = λ h. cc

  spin-runs : (p : EndpointPoller) (w : World P) → (spin p w).0 ≢ ok exited
  unfolding spin
  spin-runs p w =
      let p' = record p {
        spin_counter = if p.loop_again then count_up p.spin_counter else p.spin_counter;
      } in
      either-runs (p'.spin_counter == 0 || (p'.loop_again && is_thousand p'.spin_counter)) p' w

  message-exits :
      (p : EndpointPoller) (m : ℕ) (w : World P)
      → ((Poller.received p (message m) w).0 ≡ ok exited) ↔ (m ≡ exit_notice)
  message-exits p m w = elim (Bool-cases (m == exit_notice)) [
    | inl e ↦ (λ h. ground arith, λ h. rw e refl)
    | inr e ↦ (λ h. absurd (spin-runs p w (ground arith)), λ h. ground arith)
  ]

  turn-message :
      (p : EndpointPoller) (m : ℕ) (w : World P) (d : Dict (Channel ℕ))
      → p.loop_again ≡ false
      → try_recv_on p.receiver w.notices ≡ (message m, d)
      → turn p w ≡ Poller.received p (message m) (record w { notices = d })
  unfolding turn
  turn-message p m w d l r = ground arith

  -- A poller at rest that gets a message ends if the message is the exit code -1, and for no other.
  pub turn-exits :
      (p : EndpointPoller) (m : ℕ) (rest : List ℕ) (w : World P)
      → p.loop_again ≡ false
      → queue_of p.receiver w.notices ≡ m ∷ rest
      → ((turn p w).0 ≡ ok exited) ↔ (m ≡ exit_notice)
  turn-exits p m rest w l q =
      let (d, r) = first_message p.receiver m rest w q (try_recv_on-Found p.receiver w.notices) in
      rw (turn-message p m w d l r) (message-exits p m (record w { notices = d }))
