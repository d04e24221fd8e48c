-- ===== src/Connection/Events/Sent.antt =====
-- `ConnectionImpl::handle_endpoint_events` as a whole.
use quinn_ffi.Prelude.{
  ℕ, suc, ◌≡◌, refl, sym, ap, some, Bool, List, [], ◌∷◌, ◌++◌, arith, if◌then◌else◌, Bool-cases,
  inl, inr, ◌∙◌, append-nil,
}
use quinn_ffi.Effect.{ok}
use quinn_ffi.Proto.{Proto, IsDraining}
use quinn_ffi.World.{World, ConnectionImpl, EndpointEvent}
use quinn_ffi.World.Mpsc.{IsOpen, queue_of}
use quinn_ffi.World.Mpsc.Fifo.{push, push_all, queue-push_all}
use quinn_ffi.Connection.{handle_endpoint_events}
use quinn_ffi.Connection.Events.{
  Gives, event_messages, zeros, notify_one, told, notify_one-events, Told, loop-Told,
}

module _ {P : Proto} (auto_poll : Bool) where
  pub told-events :
      (k handle n : ℕ) (es : List P.EndpointEvent) (w : World P)
      → (told auto_poll k handle n es w).endpoint_events
        ≡ push_all k (event_messages handle es) w.endpoint_events
  unfolding told push_all
  told-events k handle n [] w = refl
  told-events k handle n (e ∷ es) w =
      let w₁ : World P = record w {
        endpoint_events = push k (handle, EndpointEvent.proto e) w.endpoint_events;
      } in
      told-events k handle n es (notify_one auto_poll n w₁)
      ∙ ap (push_all k (event_messages handle es)) (notify_one-events auto_poll n w₁)

  notify_one-notices :
      (n : ℕ) (w : World P)
      → (notify_one auto_poll n w).notices ≡ (if auto_poll then push n 0 w.notices else w.notices)
  notify_one-notices n w = ground arith

  pub told-notices :
      (k handle n : ℕ) (es : List P.EndpointEvent) (w : World P)
      → (told auto_poll k handle n es w).notices
        ≡ (if auto_poll then push_all n (zeros es) w.notices else w.notices)
  unfolding told push_all
  told-notices k handle n [] w = ground arith
  told-notices k handle n (e ∷ es) w =
      let w₁ : World P = record w {
        endpoint_events = push k (handle, EndpointEvent.proto e) w.endpoint_events;
      } in
      ground
        (arith, told-notices k handle n es (notify_one auto_poll n w₁), notify_one-notices n w₁)

  pub notice_queue :
      (n : ℕ) (es : List P.EndpointEvent) (w : World P)
      → IsOpen n w.notices
      → queue_of n (if auto_poll then push_all n (zeros es) w.notices else w.notices)
        ≡ queue_of n w.notices ++ (if auto_poll then zeros es else [])
  notice_queue n es w o = elim (Bool-cases auto_poll) [
    | inl e ↦ rw e (queue-push_all n (zeros es) w.notices o)
    | inr e ↦ rw e (sym (append-nil (queue_of n w.notices)))
  ]

  pub told-rest :
      (k handle n : ℕ) (es : List P.EndpointEvent) (w : World P)
      → ((told auto_poll k handle n es w).connection_events ≡ w.connection_events)
        × ((told auto_poll k handle n es w).callbacks ≡ w.callbacks)
        × ((told auto_poll k handle n es w).calls ≡ w.calls)
  unfolding told
  told-rest k handle n [] w = (refl, refl, refl)
  told-rest k handle n (e ∷ es) w =
      let w₁ : World P = record w {
        endpoint_events = push k (handle, EndpointEvent.proto e) w.endpoint_events;
      } in
      let rest = told-rest k handle n es (notify_one auto_poll n w₁) in
      (rest.0 ∙ ground arith, rest.1 ∙ ground arith, rest.2 ∙ ground arith)

  pub told-clock :
      (k handle n : ℕ) (es : List P.EndpointEvent) (w : World P)
      → ((told auto_poll k handle n es w).clock ≡ w.clock)
        × ((told auto_poll k handle n es w).reads ≡ w.reads)
  unfolding told
  told-clock k handle n [] w = (refl, refl)
  told-clock k handle n (e ∷ es) w =
      let w₁ : World P = record w {
        endpoint_events = push k (handle, EndpointEvent.proto e) w.endpoint_events;
      } in
      let rest = told-clock k handle n es (notify_one auto_poll n w₁) in
      (rest.0 ∙ ground arith, rest.1 ∙ ground arith)

  pub handle_endpoint_events-told :
      IsDraining P
      → (n : ℕ) (c : ConnectionImpl P) (w : World P) → IsOpen c.endpoint_events w.endpoint_events
      → c.endpoint_poll_notifier ≡ some n
      → IsOpen n w.notices
      → (es : List P.EndpointEvent) × (j : P.Connection) × Gives P c.inner es j
        × (handle_endpoint_events auto_poll (c, w) ≡ (
          ok tt,
          (record c { inner = j }, told auto_poll c.endpoint_events c.connection_handle n es w),
        ))
  unfolding handle_endpoint_events Told
  handle_endpoint_events-told d n c w o hn on =
      loop-Told auto_poll d (suc (P.endpoint_events_left c.inner)) n c w (omega arith) o hn on

  -- With a library whose queues run dry, `handle_endpoint_events` returns while the receivers of the
  -- endpoint and of the poller are there: it takes every event that the connection has for its endpoint
  -- and sends them in order behind what waits there; the poller's channel gets one 0 for each event with
  -- `auto-poll`, and nothing without.
  pub handle_endpoint_events-Gives :
      IsDraining P
      → (n : ℕ) (c : ConnectionImpl P) (w : World P) → IsOpen c.endpoint_events w.endpoint_events
      → c.endpoint_poll_notifier ≡ some n
      → IsOpen n w.notices
      → (es : List P.EndpointEvent) × (j : P.Connection) × (w' : World P) × Gives P c.inner es j
        × (handle_endpoint_events auto_poll (c, w) ≡ (ok tt, (record c { inner = j }, w')))
        × (queue_of c.endpoint_events w'.endpoint_events
            ≡ queue_of c.endpoint_events w.endpoint_events ++ event_messages c.connection_handle es)
        × (queue_of n w'.notices ≡ queue_of n w.notices ++ (if auto_poll then zeros es else []))
  unfolding handle_endpoint_events Told
  handle_endpoint_events-Gives d n c w o hn on =
      let (es, j, gives, run) =
        loop-Told auto_poll d (suc (P.endpoint_events_left c.inner)) n c w (omega arith) o hn on in
      (
        es,
        j,
        told auto_poll c.endpoint_events c.connection_handle n es w,
        gives,
        run,
        ap (queue_of c.endpoint_events) (told-events c.endpoint_events c.connection_handle n es w)
            ∙ queue-push_all c.endpoint_events (event_messages c.connection_handle es)
                w.endpoint_events o,
        ap (queue_of n) (told-notices c.endpoint_events c.connection_handle n es w)
            ∙ notice_queue n es w on,
      )
