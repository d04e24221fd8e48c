-- ===== src/Endpoint/Refs/Closed.antt =====
-- `EndpointImpl::close` of src/proto_impl/endpoint.rs.
use quinn_ffi.Prelude.{ℕ, ◌≡◌, refl, ◌∙◌, Option, some, [], ◌∷◌, Dict, arith}
use quinn_ffi.Effect.{ok}
use quinn_ffi.Proto.{Proto}
use quinn_ffi.World.{World, EndpointImpl}
use quinn_ffi.World.Mpsc.{IsOpen}
use quinn_ffi.World.Mpsc.Fifo.{push}
use quinn_ffi.World.Arcs.{drop_connection, drop_connection_arc, drop_connection_arcs}
use quinn_ffi.Sending.Laws.{send_notice-push}
use quinn_ffi.Endpoint.{drop_connection_sender, exit_notice}
use quinn_ffi.Endpoint.Refs.{close, drop_senders, send_exit}

module _ {P : Proto} where
  -- The notices, the endpoints and their boxes are the same in both states.
  abbrev pub SameEndpoints : World P → World P → Type 0
  SameEndpoints w w' =
      (w'.notices ≡ w.notices)
      × (w'.endpoints ≡ w.endpoints)
      × (w'.endpoint_boxes ≡ w.endpoint_boxes)

  trans : (w w' w'' : World P) → SameEndpoints w w' → SameEndpoints w' w'' → SameEndpoints w w''
  trans w w' w'' (a, b, c) (a', b', c') = (a' ∙ a, b' ∙ b, c' ∙ c)

  pub drop_senders-SameEndpoints : (d : Dict ℕ) (w : World P) → SameEndpoints w (drop_senders d w)
  unfolding drop_senders drop_connection_sender
  drop_senders-SameEndpoints [] w = (refl, refl, refl)
  drop_senders-SameEndpoints ((handle, k) ∷ d) w =
      drop_senders-SameEndpoints d (drop_connection_sender (some k) w)

  pub drop_connection_arc-SameEndpoints :
      (k : ℕ) (w : World P) → SameEndpoints w (drop_connection_arc k w)
  unfolding drop_connection_arc drop_connection
  drop_connection_arc-SameEndpoints k w = (ground arith, ground arith, ground arith)

  pub drop_connection_arcs-SameEndpoints :
      (d : Dict ℕ) (w : World P) → SameEndpoints w (drop_connection_arcs d w)
  unfolding drop_connection_arcs
  drop_connection_arcs-SameEndpoints [] w = (refl, refl, refl)
  drop_connection_arcs-SameEndpoints ((handle, k) ∷ d) w =
      trans w (drop_connection_arc k w) (drop_connection_arcs d (drop_connection_arc k w))
        (drop_connection_arc-SameEndpoints k w)
        (drop_connection_arcs-SameEndpoints d (drop_connection_arc k w))

  send_exit-push :
      (n : Option ℕ) (k : ℕ) (w : World P)
      → n ≡ some k
      → IsOpen k w.notices
      → send_exit n w ≡ (ok tt, record w { notices = push k exit_notice w.notices })
  unfolding send_exit
  send_exit-push n k w h o = rw (h, send_notice-push k exit_notice w o) refl

  -- The exit code is sent, and then both maps are dropped.
  pub close-exit :
      (k : ℕ) (e : EndpointImpl P) (w : World P)
      → e.endpoint_poll_notifier ≡ some k
      → IsOpen k w.notices
      → (w' : World P) × (close (e, w)
          ≡ (ok tt, (record e { connections = []; connection_refs = [] }, w')))
        × SameEndpoints (record w { notices = push k exit_notice w.notices }) w'
  unfolding close
  close-exit k e w h o =
      let w₁ : World P = record w { notices = push k exit_notice w.notices } in
      let w₂ : World P = drop_senders e.connections w₁ in
      (
        drop_connection_arcs e.connection_refs w₂,
        rw (send_exit-push e.endpoint_poll_notifier k w h o) refl,
        trans w₁ w₂ (drop_connection_arcs e.connection_refs w₂)
            (drop_senders-SameEndpoints e.connections w₁)
            (drop_connection_arcs-SameEndpoints e.connection_refs w₂),
      )
