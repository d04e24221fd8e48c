-- ===== src/Poller/Turns.antt =====
-- The thread of `EndpointPoller::start_polling` over many rounds.
use quinn_ffi.Prelude.{
  ℕ, zero, suc, ◌+◌, ◌<◌, ◌≡◌, refl, ◌∙◌, Bool, true, false, lookup, insert, some, arith,
}
use quinn_ffi.Effect.{M, ok, pure, ◌>>=◌}
use quinn_ffi.Proto.{Proto}
use quinn_ffi.World.{World, EndpointPoller, EndpointImpl, Shared}
use quinn_ffi.World.Mutex.Laws.{with_try_lock-free, with_lock-runs}
use quinn_ffi.Endpoint
use quinn_ffi.Handle.{endpoint_cells, put_endpoint_cells}
use quinn_ffi.Poller.{
  Turn, exited, waiting, again, turn, spin, try_poll, is_thousand, count_up, poll_endpoint,
}

count_up-small : (n : ℕ) → n < 1000 → count_up n ≡ suc n
count_up-small n h = omega arith

is_thousand-small : (n : ℕ) → 0 < n → n < 1000 → is_thousand n ≡ false
is_thousand-small n p h = ground arith

is_thousand-hit : is_thousand 1000 ≡ true
is_thousand-hit = refl

module _ {P : Proto} where
  -- Rounds of the loop one after the other, until it ends or waits.
  abbrev go_on : (EndpointPoller → M (World P) Turn) → Turn → M (World P) Turn
  go_on f exited = pure exited
  go_on f waiting = pure waiting
  go_on f (again p) = f p

  unfoldable pub turns : ℕ → EndpointPoller → M (World P) Turn
  turns zero p = pure (again p)
  turns (suc n) p = turn p >>= go_on (turns n)

  -- A round of a spinning poller that is not at a thousand changes nothing but the counter.
  turn-spins :
      (p : EndpointPoller) (w : World P)
      → p.loop_again ≡ true
      → suc p.spin_counter < 1000
      → turn p w ≡ (ok (again (record p { spin_counter = suc p.spin_counter })), w)
  unfolding turn spin
  turn-spins p w l b =
      let c = count_up-small p.spin_counter (omega arith) in
      ground (arith, c, is_thousand-small (suc p.spin_counter) (omega arith) b)

  -- At a thousand it tries the lock.
  turn-tries :
      (p : EndpointPoller) (w : World P)
      → p.loop_again ≡ true
      → suc p.spin_counter ≡ 1000
      → turn p w ≡ try_poll (record p { spin_counter = 1000 }) w
  unfolding turn spin
  turn-tries p w l b = let c = count_up-small p.spin_counter (omega arith) in ground (arith, c)

  turns-one :
      (p q : EndpointPoller) (w w' : World P)
      → turn p w ≡ (ok (again q), w')
      → turns 1 p w ≡ (ok (again q), w')
  unfolding turns
  turns-one p q w w' h = rw h refl

  pub turns-suc :
      (n : ℕ) (p q : EndpointPoller) (w w' : World P)
      → turn p w ≡ (ok (again q), w')
      → turns (suc n) p w ≡ turns n q w'
  unfolding turns
  turns-suc n p q w w' h = rw h refl

  -- A spinning poller comes to its next try.
  turns-tries :
      (n : ℕ) (p q : EndpointPoller) (w w' : World P)
      → p.loop_again ≡ true
      → p.spin_counter + suc n ≡ 1000
      → try_poll (record p { spin_counter = 1000 }) w ≡ (ok (again q), w')
      → turns (suc n) p w ≡ (ok (again q), w')
  turns-tries zero p q w w' l s h = turns-one p q w w' (turn-tries p w l (omega arith) ∙ h)
  turns-tries (suc n) p q w w' l s h =
      let p' = record p { spin_counter = suc p.spin_counter } in
      turns-suc (suc n) p p' w w (turn-spins p w l (omega arith))
      ∙ turns-tries n p' q w w' l (omega arith) h

  try_poll-polls :
      (p : EndpointPoller) (cell cell' : Shared (EndpointImpl P)) (b : Bool) (e : EndpointImpl P)
      (w w' : World P)
      → lookup p.endpoint_ref w.endpoints ≡ some cell
      → cell.locked ≡ false
      → cell.poisoned ≡ false
      → Endpoint.poll (
        cell.value,
        record w { endpoints = insert p.endpoint_ref (record cell { locked = true }) w.endpoints },
      )
        ≡ (ok b, (e, w'))
      → lookup p.endpoint_ref w'.endpoints ≡ some cell'
      → try_poll p w ≡ (
        ok (again (record p { spin_counter = 0; loop_again = false })),
        record w' {
          endpoints =
              insert p.endpoint_ref
                (record cell' { value = e; locked = false; poisoned = false })
                w'.endpoints;
        },
      )
  unfolding try_poll poll_endpoint
  try_poll-polls p cell cell' b e w w' h l f r h' =
      with_try_lock-free endpoint_cells put_endpoint_cells p.endpoint_ref _ _ _ cell w h l f
      ∙ with_lock-runs endpoint_cells put_endpoint_cells p.endpoint_ref _ cell cell'
          (ok (again (record p { spin_counter = 0; loop_again = false }))) e w w' h l f (rw r refl)
          h'

  -- A spinning poller whose endpoint's lock is free again polls the endpoint when its counter comes to a
  -- thousand, and then it waits for notices again. So it is if that poll returns without an error and the
  -- counter has not passed a thousand yet.
  pub turns-polls :
      (n : ℕ) (p : EndpointPoller) (cell cell' : Shared (EndpointImpl P)) (b : Bool)
      (e : EndpointImpl P) (w w' : World P)
      → p.loop_again ≡ true
      → p.spin_counter + suc n ≡ 1000
      → lookup p.endpoint_ref w.endpoints ≡ some cell
      → cell.locked ≡ false
      → cell.poisoned ≡ false
      → Endpoint.poll (
        cell.value,
        record w { endpoints = insert p.endpoint_ref (record cell { locked = true }) w.endpoints },
      )
        ≡ (ok b, (e, w'))
      → lookup p.endpoint_ref w'.endpoints ≡ some cell'
      → turns (suc n) p w ≡ (
        ok (again (record p { spin_counter = 0; loop_again = false })),
        record w' {
          endpoints =
              insert p.endpoint_ref
                (record cell' { value = e; locked = false; poisoned = false })
                w'.endpoints;
        },
      )
  turns-polls n p cell cell' b e w w' l s h u f r h' =
      turns-tries n p _ w _ l s
        (try_poll-polls (record p { spin_counter = 1000 }) cell cell' b e w w' h u f r h')
