-- ===== src/Endpoint/Poll.antt =====
-- `EndpointImpl::poll` of src/proto_impl/endpoint.rs as a whole.
use quinn_ffi.Prelude.{
  ℕ, zero, suc, ◌<◌, ◌≡◌, refl, ◌∙◌, ap, sym, none, some, false, List, [], ◌∷◌, ◌++◌, length, arith,
  append_assoc, append-nil,
}
use quinn_ffi.Effect.{ok}
use quinn_ffi.Proto.{Proto, IsDraining, v4}
use quinn_ffi.World.{World, EndpointImpl, Slot, Call}
use quinn_ffi.Connection.Transmits.{transmit_messages}
use quinn_ffi.Endpoint.{poll, transmit_loop, notify_transmit, io_loop_bound}
use quinn_ffi.Endpoint.Loop.{inbox}
use quinn_ffi.Endpoint.Delivery.{
  HandedOn, by, address_of, on_transmit-v4, handle_connection_events-delivers,
}

-- The datagrams that an endpoint gives until it gives none, and the endpoint behind them.
pub data Emits (P : Proto) : P.Endpoint → List P.Transmit → P.Endpoint → Type 0 where
  stop : {i : P.Endpoint} (j : P.Endpoint) → P.endpoint_poll_transmit i ≡ (none, j) → Emits P i [] j
  more :
      {i : P.Endpoint} {ts : List P.Transmit} {j : P.Endpoint} (t : P.Transmit) (i' : P.Endpoint)
      → P.endpoint_poll_transmit i ≡ (some t, i')
      → Emits P i' ts j
      → Emits P i (t ∷ ts) j

by-append : (f : ℕ) (cs cs' : List Call) → by f (cs ++ cs') ≡ by f cs ++ by f cs'
by-append f [] cs' = refl
by-append f (c ∷ cs) cs' = ap (◌∷◌ (f, c)) (by-append f cs cs')

module _ {P : Proto} where
  loop-stop :
      (fuel : ℕ) (e : EndpointImpl P) (w : World P) (j : P.Endpoint)
      → P.endpoint_poll_transmit e.inner ≡ (none, j)
      → transmit_loop (suc fuel) (e, w) ≡ (ok tt, (record e { inner = j }, w))
  unfolding transmit_loop
  loop-stop fuel e w j h = ground arith

  loop-more :
      (fuel f a b c d port : ℕ) (e : EndpointImpl P) (w : World P) (t : P.Transmit) (j : P.Endpoint)
      → P.endpoint_poll_transmit e.inner ≡ (some t, j)
      → w.callbacks Slot.transmit ≡ some f
      → P.destination t ≡ v4 a b c d port
      → transmit_loop (suc fuel) (e, w)
        ≡ transmit_loop fuel (
          record e { inner = j },
          record w {
            calls =
                w.calls
                ++ (
                  f,
                  Call.on_transmit e.id
                      (P.contents t)
                      (length (P.contents t))
                      (address_of a b c d port),
                )
                  ∷ [];
          },
        )
  unfolding transmit_loop notify_transmit
  loop-more fuel f a b c d port e w t j h hf v =
      ground (arith, on_transmit-v4 f e.id a b c d port t w hf v)

  transmit_loop-Emits :
      IsDraining P
      → (fuel f : ℕ) (e : EndpointImpl P) (w : World P) (ts : List P.Transmit) (j : P.Endpoint)
        (cs : List Call)
      → P.endpoint_transmits_left e.inner < fuel
      → w.callbacks Slot.transmit ≡ some f
      → Emits P e.inner ts j
      → HandedOn P e.id ts cs
      → transmit_loop fuel (e, w)
        ≡ (ok tt, (record e { inner = j }, record w { calls = w.calls ++ by f cs }))
  transmit_loop-Emits d zero f e w ts j cs l h m x = absurd (omega arith)
  transmit_loop-Emits d (suc fuel) f e w _ _ _ l h (Emits.stop j p) HandedOn.stop =
      loop-stop fuel e w j p ∙ ground (arith, append-nil w.calls)
  transmit_loop-Emits d (suc fuel) f e w _ _ _ l h (Emits.more {ts} {j} t i p m)
        (HandedOn.more {cs} _ a b c d' port v x) =
      let call =
        Call.on_transmit e.id (P.contents t) (length (P.contents t)) (address_of a b c d' port) in
      loop-more fuel f a b c d' port e w t i p h v
      ∙ transmit_loop-Emits d fuel f (record e { inner = i })
          (record w { calls = w.calls ++ (f, call) ∷ [] }) ts j cs
          (ground (arith, d.endpoint_transmit_falls e.inner t (ap (λ q. q.0) p))) h m x
      ∙ ground (arith, append_assoc w.calls ((f, call) ∷ []) (by f cs))

  -- A poll of an endpoint returns `false`, and the application's callback gets every datagram: those that
  -- the endpoint itself gives come first, then those that a connection has sent it, each list in order. So
  -- it is with a library whose queues run dry and the callback set, if all go to IPv4 addresses, and what
  -- waits for the endpoint is fewer than 160 datagrams of one connection.
  pub poll-delivers :
      IsDraining P
      → (f handle : ℕ) (e : EndpointImpl P) (w : World P) (own waiting : List P.Transmit)
        (j : P.Endpoint) (cs cs' : List Call)
      → w.callbacks Slot.transmit ≡ some f
      → Emits P e.inner own j
      → HandedOn P e.id own cs
      → inbox (e, w) ≡ transmit_messages handle waiting
      → length waiting < io_loop_bound
      → HandedOn P e.id waiting cs'
      → (w' : World P) × (poll (e, w) ≡ (ok false, (record e { inner = j }, w')))
        × (inbox (record e { inner = j }, w') ≡ [])
        × (w'.calls ≡ w.calls ++ by f (cs ++ cs'))
  unfolding poll
  poll-delivers d f handle e w own waiting j cs cs' h m x q l x' =
      let w₁ : World P = record w { calls = w.calls ++ by f cs } in
      let (w', run, none_left, made) =
        handle_connection_events-delivers f handle waiting cs' (record e { inner = j }) w₁ l h q
          x' in
      let own_run =
        transmit_loop-Emits d (suc (P.endpoint_transmits_left e.inner)) f e w own j cs (omega arith)
          h m x in
      (
        w',
        rw own_run run,
        none_left,
        made
            ∙ (append_assoc w.calls (by f cs) (by f cs')
                ∙ ap (◌++◌ w.calls) (sym (by-append f cs cs'))),
      )
