-- ===== src/Poller/Accounted.antt =====
-- A round of the poller's thread, and the counts of the connections' `Arc`s.
use quinn_ffi.Prelude.{ℕ, ◌==◌, ◌||◌, ◌&&◌, refl, arith, if◌then◌else◌}
use quinn_ffi.Effect.{M, Exit, ok, err, panic, hang, undefined, ◌>>◌, pure}
use quinn_ffi.Effect.Laws.{Preserves, >>=-Preserves, if-Preserves, if-ends}
use quinn_ffi.Proto.{Proto}
use quinn_ffi.World.{World, EndpointPoller}
use quinn_ffi.World.Mpsc.{Received, empty, disconnected, message, try_recv_on, drop_receiver}
use quinn_ffi.World.Arcs.Left.{Leaves-refl, Leaves-same}
use quinn_ffi.Endpoint.Preserved.{poll-Preserves}
use quinn_ffi.Endpoint.Refs.Counted.{Outside, AreCounted}
use quinn_ffi.Endpoint.Refs.Parts.{parts-AreCounted}
use quinn_ffi.Handle.Counted.{IsAccounted, Leaves-IsAccounted}
use quinn_ffi.Handle.Counted.Locked.{endpoint_tried-IsAccounted}
use quinn_ffi.Bindings.Endpoints.Accounted.{drop_endpoint_arc-IsAccounted}
use quinn_ffi.Poller.{
  Turn, exited, again, turn, spin, try_poll, poll_endpoint, received, exit_notice, is_thousand,
  count_up, waiting, drop_poller, ended, thread_round,
}

module _ {P : Proto} where
  abbrev KeepsAccounts : {A : Type 0} → M (World P) A → Type 0
  KeepsAccounts m = Preserves (IsAccounted {P = P}) m

  polled-AreCounted :
      (other : Outside P) (t : Turn) → Preserves (AreCounted other) (poll_endpoint >> pure t)
  unfolding poll_endpoint
  polled-AreCounted other t =
      >>=-Preserves (AreCounted other) poll_endpoint (λ _. pure t)
        (λ s i. poll-Preserves (AreCounted other) (parts-AreCounted other) s i) (λ _ s i. i)

  try_poll-IsAccounted : (p : EndpointPoller) → KeepsAccounts (try_poll p)
  unfolding try_poll
  try_poll-IsAccounted p =
      endpoint_tried-IsAccounted p.endpoint_ref _ _ _ (λ other. polled-AreCounted other _)
        (λ w i. i) (λ w i. i)

  spin-IsAccounted : (p : EndpointPoller) → KeepsAccounts (spin p)
  unfolding spin
  spin-IsAccounted p w i =
      let p' = record p {
        spin_counter = if p.loop_again then count_up p.spin_counter else p.spin_counter;
      } in
      if-Preserves IsAccounted
        (p'.spin_counter == 0 || (p'.loop_again && is_thousand p'.spin_counter)) (try_poll p')
        (pure (again p')) (try_poll-IsAccounted p') (λ v j. j) w i

  received-IsAccounted : (p : EndpointPoller) (r : Received ℕ) → KeepsAccounts (received p r)
  received-IsAccounted p empty w i = i
  received-IsAccounted p disconnected w i = spin-IsAccounted p w i
  received-IsAccounted p (message code) w i =
      if-Preserves IsAccounted (code == exit_notice) (pure exited) (spin p) (λ v j. j)
        (spin-IsAccounted p) w i

  turn-IsAccounted : (p : EndpointPoller) → KeepsAccounts (turn p)
  unfolding turn
  turn-IsAccounted p w i =
      let (r, d) = try_recv_on p.receiver w.notices in
      let w' : World P = record w { notices = d } in
      let kept =
        Leaves-IsAccounted w w' (Leaves-same w w w' refl refl (omega arith) refl (Leaves-refl w))
          i in
      if-ends IsAccounted p.loop_again (spin p w) (received p r w') (spin-IsAccounted p w i)
        (received-IsAccounted p r w' kept)

  drop_poller-IsAccounted :
      (p : EndpointPoller) (w : World P) → IsAccounted w → IsAccounted (drop_poller p w)
  unfolding drop_poller
  drop_poller-IsAccounted p w i =
      let w' : World P = record w { notices = drop_receiver p.receiver w.notices } in
      drop_endpoint_arc-IsAccounted p.endpoint_ref w' (
        Leaves-IsAccounted w w' (Leaves-same w w w' refl refl (omega arith) refl (Leaves-refl w)) i)

  ended-IsAccounted : (p : EndpointPoller) (x : Exit Turn) → KeepsAccounts (ended p x)
  unfolding ended
  ended-IsAccounted p (ok exited) w i = drop_poller-IsAccounted p w i
  ended-IsAccounted p (ok waiting) w i = i
  ended-IsAccounted p (ok (again p')) w i = i
  ended-IsAccounted p (err e) w i = drop_poller-IsAccounted p w i
  ended-IsAccounted p (panic x) w i = drop_poller-IsAccounted p w i
  ended-IsAccounted p hang w i = i
  ended-IsAccounted p undefined w i = i

  pub thread_round-IsAccounted : (p : EndpointPoller) → KeepsAccounts (thread_round p)
  unfolding thread_round
  thread_round-IsAccounted p w i =
      let (x, w') = turn p w in ended-IsAccounted p x w' (turn-IsAccounted p w i)
