-- ===== src/Endpoint/Loop.antt =====
-- The bounded loop of `EndpointImpl::handle_connection_events`.
use quinn_ffi.Prelude.{
  ℕ, zero, suc, ◌<◌, ◌≡◌, ◌≢◌, refl, ◌∙◌, ◌⊎◌, Option, none, some, Bool, true, false, List, [], ◌∷◌,
  length, ◌++◌, Dict, subst, ap, sym, arith,
}
use quinn_ffi.Effect.{Exit, ok, err, panic, hang, undefined, when, bind_exit, pure}
use quinn_ffi.Effect.Laws.{>>=-Keeps, when-Keeps}
use quinn_ffi.Proto.{Proto}
use quinn_ffi.Addr.{from_socket_addr}
use quinn_ffi.World.{World, EndpointImpl, EndpointEvent, Channel}
use quinn_ffi.World.Mpsc.{queue_of, try_recv_on, Received, empty, disconnected, message}
use quinn_ffi.World.Mpsc.Fifo.{Found, nothing, oldest, try_recv_on-Found}
use quinn_ffi.Callbacks.{invoke, on_transmit}
use quinn_ffi.Sending.{send_connection_event}
use quinn_ffi.Endpoint.{
  event_loop, recv_endpoint_event, endpoint_event, answer, inner, forward_event_to_connection,
  remove_sender, notify_transmit, handle_connection_events, io_loop_bound,
}

module _ {P : Proto} where
  -- The messages that wait for the endpoint.
  abbrev pub inbox : EndpointImpl P × World P → List (ℕ × EndpointEvent P)
  inbox s = queue_of s.0.endpoint_events_rx s.1.endpoint_events

  on_transmit-keeps :
      (id : ℕ) (t : P.Transmit) (w : World P)
      → (on_transmit P id t w).1.endpoint_events ≡ w.endpoint_events
  unfolding on_transmit from_socket_addr invoke
  on_transmit-keeps id t w = ground arith

  forward-inbox :
      (handle : ℕ) (event : P.ConnectionEvent) (s : EndpointImpl P × World P)
      → inbox (forward_event_to_connection handle event s).1 ≡ inbox s
  unfolding forward_event_to_connection send_connection_event
  forward-inbox handle event s = ground arith

  notify-inbox :
      (t : P.Transmit) (s : EndpointImpl P × World P) → inbox (notify_transmit t s).1 ≡ inbox s
  unfolding notify_transmit
  notify-inbox t s = ground (arith, on_transmit-keeps s.0.id t s.1)

  remove_sender-inbox :
      (handle : ℕ) (s : EndpointImpl P × World P) → inbox (remove_sender handle s).1 ≡ inbox s
  unfolding remove_sender
  remove_sender-inbox handle s = ground arith

  answer-inbox :
      (handle : ℕ) (event : Option P.ConnectionEvent) (s : EndpointImpl P × World P)
      → inbox (answer handle event s).1 ≡ inbox s
  unfolding answer
  answer-inbox handle none s = refl
  answer-inbox handle (some event) s = forward-inbox handle event s

  -- Handling a message puts none in the endpoint's own channel.
  endpoint_event-inbox :
      (handle : ℕ) (event : EndpointEvent P) (s : EndpointImpl P × World P)
      → inbox (endpoint_event handle event s).1 ≡ inbox s
  unfolding endpoint_event
  endpoint_event-inbox handle (EndpointEvent.proto proto) s =
      >>=-Keeps inbox (when (P.is_drained proto) (remove_sender handle)) _
        (when-Keeps inbox (P.is_drained proto) (remove_sender handle) (remove_sender-inbox handle))
        (λ _.
          >>=-Keeps inbox (inner λ i. P.endpoint_handle_event i handle proto) (answer handle)
            (λ s. refl) (answer-inbox handle))
        s
  endpoint_event-inbox handle (EndpointEvent.transmit t) s = notify-inbox t s

  -- Messages that are received one after the other and handled without a failure, from a state to a
  -- state.
  pub data Handles
      : List (ℕ × EndpointEvent P)
        → EndpointImpl P × World P
        → EndpointImpl P × World P
        → Type 0 where
    all : {s : EndpointImpl P × World P} → Handles [] s s
    each :
        {ms : List (ℕ × EndpointEvent P)} {s s₁ s' : EndpointImpl P × World P}
        (m : ℕ × EndpointEvent P) (d : Dict (Channel (ℕ × EndpointEvent P)))
        → try_recv_on s.0.endpoint_events_rx s.1.endpoint_events ≡ (message m, d)
        → endpoint_event m.0 m.1 (s.0, record s.1 { endpoint_events = d }) ≡ (ok tt, s₁)
        → Handles ms s₁ s'
        → Handles (m ∷ ms) s s'

  -- How the loop ends, for the rounds that it has and the state before: its bound was met; no message was
  -- left; or, within the rounds, a message failed behind those that were handled.
  pub data LoopEnd (rounds : ℕ) (s : EndpointImpl P × World P)
      (end : Exit Bool × (EndpointImpl P × World P)) : Type 0 where
    bound :
        (handled : List (ℕ × EndpointEvent P))
        → Handles handled s end.1
        → end.0 ≡ ok true
        → length handled ≡ rounds
        → inbox s ≡ handled ++ inbox end.1
        → LoopEnd rounds s end
    drained :
        Handles (inbox s) s end.1
        → end.0 ≡ ok false
        → length (inbox s) < rounds
        → inbox end.1 ≡ []
        → LoopEnd rounds s end
    failed :
        (handled : List (ℕ × EndpointEvent P)) (s₁ : EndpointImpl P × World P)
        (m : ℕ × EndpointEvent P) (d : Dict (Channel (ℕ × EndpointEvent P))) (x : Exit (Unit {0}))
        → Handles handled s s₁
        → try_recv_on s₁.0.endpoint_events_rx s₁.1.endpoint_events ≡ (message m, d)
        → endpoint_event m.0 m.1 (s₁.0, record s₁.1 { endpoint_events = d }) ≡ (x, end.1)
        → x ≢ ok tt
        → end ≡ bind_exit (λ _. pure true) x end.1
        → length handled < rounds
        → inbox s ≡ handled ++ m ∷ inbox end.1
        → LoopEnd rounds s end

  -- A message that was handled, and the end of the loop behind it.
  next_end :
      (rounds : ℕ) (m : ℕ × EndpointEvent P) (d : Dict (Channel (ℕ × EndpointEvent P)))
      (s s₁ : EndpointImpl P × World P) (end : Exit Bool × (EndpointImpl P × World P))
      → inbox s ≡ m ∷ inbox s₁
      → try_recv_on s.0.endpoint_events_rx s.1.endpoint_events ≡ (message m, d)
      → endpoint_event m.0 m.1 (s.0, record s.1 { endpoint_events = d }) ≡ (ok tt, s₁)
      → LoopEnd rounds s₁ end
      → LoopEnd (suc rounds) s end
  next_end rounds m d s s₁ end q h e (bound handled c r l i) =
      bound (m ∷ handled) (each m d h e c) r (omega arith) (q ∙ ap (◌∷◌ m) i)
  next_end rounds m d s s₁ end q h e (drained c r l i) =
      drained (subst (λ ms. Handles ms s end.1) (sym q) (each m d h e c)) r (rw q (omega arith)) i
  next_end rounds m d s s₁ end q h e (failed handled s₂ n d₂ x c t f nx r l i) =
      failed (m ∷ handled) s₂ n d₂ x (each m d h e c) t f nx r (omega arith) (q ∙ ap (◌∷◌ m) i)

  -- A message that failed.
  fail_end :
      (rounds : ℕ) (m : ℕ × EndpointEvent P) (d : Dict (Channel (ℕ × EndpointEvent P)))
      (s s₁ : EndpointImpl P × World P) (x : Exit (Unit {0}))
      (end : Exit Bool × (EndpointImpl P × World P))
      → inbox s ≡ m ∷ inbox s₁
      → try_recv_on s.0.endpoint_events_rx s.1.endpoint_events ≡ (message m, d)
      → endpoint_event m.0 m.1 (s.0, record s.1 { endpoint_events = d }) ≡ (x, s₁)
      → x ≢ ok tt
      → end ≡ bind_exit (λ _. pure true) x s₁
      → end.1 ≡ s₁
      → LoopEnd (suc rounds) s end
  fail_end rounds m d s s₁ x end q h e nx r k =
      failed [] s m d x all h (e ∙ ap (λ t. (x, t)) (sym k)) nx
        (r ∙ ap (bind_exit (λ _. pure true) x) (sym k)) (omega arith)
        (q ∙ ap (λ t. m ∷ inbox t) (sym k))

  round_end :
      (rounds : ℕ) (m : ℕ × EndpointEvent P) (d : Dict (Channel (ℕ × EndpointEvent P)))
      (s : EndpointImpl P × World P) (x : Exit (Unit {0})) (s₁ : EndpointImpl P × World P)
      → inbox s ≡ m ∷ inbox s₁
      → try_recv_on s.0.endpoint_events_rx s.1.endpoint_events ≡ (message m, d)
      → endpoint_event m.0 m.1 (s.0, record s.1 { endpoint_events = d }) ≡ (x, s₁)
      → LoopEnd rounds s₁ (event_loop rounds s₁)
      → LoopEnd (suc rounds) s (bind_exit (λ _. event_loop rounds) x s₁)
  round_end rounds m d s (ok tt) s₁ q h e rec = next_end rounds m d s s₁ _ q h e rec
  round_end rounds m d s (err x) s₁ q h e rec =
      fail_end rounds m d s s₁ (err x) (err x, s₁) q h e (λ p. cc) refl refl
  round_end rounds m d s (panic x) s₁ q h e rec =
      fail_end rounds m d s s₁ (panic x) (panic x, s₁) q h e (λ p. cc) refl refl
  round_end rounds m d s hang s₁ q h e rec =
      fail_end rounds m d s s₁ hang (hang, s₁) q h e (λ p. cc) refl refl
  round_end rounds m d s undefined s₁ q h e rec =
      fail_end rounds m d s s₁ undefined (undefined, s₁) q h e (λ p. cc) refl refl

  pub loop-oldest :
      (rounds : ℕ) (m : ℕ × EndpointEvent P) (e : EndpointImpl P) (w : World P)
      (d : Dict (Channel (ℕ × EndpointEvent P)))
      → try_recv_on e.endpoint_events_rx w.endpoint_events ≡ (message m, d)
      → event_loop (suc rounds) (e, w) ≡ (
          let (x, s) = endpoint_event m.0 m.1 (e, record w { endpoint_events = d }) in
          bind_exit (λ _. event_loop rounds) x s)
  unfolding event_loop recv_endpoint_event
  loop-oldest rounds m e w d h = ground arith

  pub loop-nothing :
      (rounds : ℕ) (e : EndpointImpl P) (w : World P) (r : Received (ℕ × EndpointEvent P))
      → (r ≡ empty) ⊎ (r ≡ disconnected)
      → try_recv_on e.endpoint_events_rx w.endpoint_events ≡ (r, w.endpoint_events)
      → event_loop (suc rounds) (e, w) ≡ (ok false, (e, w))
  unfolding event_loop recv_endpoint_event
  loop-nothing rounds e w r n h = ground arith

  Found-end :
      (rounds : ℕ) (s : EndpointImpl P × World P)
      → ((s' : EndpointImpl P × World P) → LoopEnd rounds s' (event_loop rounds s'))
      → Found s.0.endpoint_events_rx s.1.endpoint_events
      → LoopEnd (suc rounds) s (event_loop (suc rounds) s)
  Found-end rounds s rec (nothing q r n h) =
      rw (loop-nothing rounds s.0 s.1 r n h)
        (drained (subst (λ ms. Handles ms s s) (sym q) all) refl (rw q (omega arith)) q)
  Found-end rounds s rec (oldest m rest d q h l) =
      let s₁ : EndpointImpl P × World P = (s.0, record s.1 { endpoint_events = d }) in
      let handled = endpoint_event m.0 m.1 s₁ in
      rw (loop-oldest rounds m s.0 s.1 d h) (
        round_end rounds m d s handled.0 handled.1
          (q ∙ ap (◌∷◌ m) (sym (endpoint_event-inbox m.0 m.1 s₁ ∙ l))) h refl (rec handled.1))

  event_loop_end :
      (rounds : ℕ) (s : EndpointImpl P × World P) → LoopEnd rounds s (event_loop rounds s)
  unfolding event_loop
  event_loop_end zero s = bound [] all refl refl refl
  event_loop_end (suc rounds) s =
      Found-end rounds s (event_loop_end rounds)
        (try_recv_on-Found s.0.endpoint_events_rx s.1.endpoint_events)

  -- However it ends, the loop has received the oldest waiting messages, each of them once, and has handled
  -- them in order, every one in the state that the one before has left. It returns `true` when it has
  -- handled 160, and `false` when it has handled all that waited, fewer than 160. A failure of one of the
  -- first 160 is the loop's own, and what waits behind it stays.
  pub handle_connection_events-LoopEnd :
      (s : EndpointImpl P × World P) → LoopEnd io_loop_bound s (handle_connection_events s)
  unfolding handle_connection_events
  handle_connection_events-LoopEnd s = event_loop_end io_loop_bound s
