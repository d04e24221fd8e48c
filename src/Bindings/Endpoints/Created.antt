-- ===== src/Bindings/Endpoints/Created.antt =====
-- `create_client_endpoint` with a configuration whose lock is free and not poisoned.
use quinn_ffi.Prelude.{
  ℕ, ◌+◌, ◌%◌, ◌≡◌, ◌≢◌, refl, sym, ◌∙◌, none, some, true, false, [], ◌∷◌, ◌++◌, Dict, lookup,
  insert, lookup-insert_self, lookup-insert_ne,
}
use quinn_ffi.Effect.{ok, gets}
use quinn_ffi.Proto.{Proto}
use quinn_ffi.World.{World, Channel, Shared, EndpointImpl, EndpointPoller}
use quinn_ffi.World.Mpsc.{new_channel, IsOpen}
use quinn_ffi.World.Mutex.{release}
use quinn_ffi.World.Mutex.Laws.{with_lock-runs}
use quinn_ffi.World.Arcs.{new_shared, clone_arc}
use quinn_ffi.Endpoint
use quinn_ffi.Endpoint.{set_poll_notifier, set_default_client_config}
use quinn_ffi.FfiResult.{ok_result}
use quinn_ffi.FfiResult.Laws.{clear_last, catch-ok}
use quinn_ffi.Api.Laws.{safe_ffi-catch, first_null}
use quinn_ffi.Handle.{
  client_config_access, new_endpoint_handle, clone_endpoint, deref_endpoint, endpoint_access,
}
use quinn_ffi.Handle.Poison.{endpoint_access-runs}
use quinn_ffi.Handle.Trait.Cells.{live}
use quinn_ffi.Handle.Trait.Values.{endpoint_cell}
use quinn_ffi.Poller.{new_poller, start_polling}
use quinn_ffi.Bindings.Endpoints.{
  create_client_endpoint, create_client_body, create_client_args, configured, start_poller,
}
use quinn_ffi.World.Memory.Slices.{init-writes}

new_channel-IsOpen : (n : ℕ) (d : Dict (Channel ℕ)) → IsOpen n (new_channel n d)
unfolding new_channel
new_channel-IsOpen n d = (
  record { queue = []; sender_alive = true; receiver_alive = true },
  lookup-insert_self n _ d,
  refl,
)

-- The thread that polls an endpoint, before its first round.
abbrev pub at_rest : ℕ → ℕ → EndpointPoller
at_rest n k = record { receiver = n; loop_again = false; endpoint_ref = k; spin_counter = 0 }

module _ {P : Proto} where
  client_config_access-reads :
      (p : ℕ) (c : Shared P.ClientConfig) (w : World P)
      → lookup p w.client_configs ≡ some c
      → c.locked ≡ false
      → c.poisoned ≡ false
      → client_config_access p (gets λ s. s.0) w ≡ (
        ok c.value,
        record w {
          client_configs =
              insert p
                (release {B = P.ClientConfig} (ok c.value) c.value (record c { locked = true }))
                (insert p (record c { locked = true }) w.client_configs);
        },
      )
  unfolding client_config_access
  client_config_access-reads p c w h l s =
      with_lock-runs (λ w. w.client_configs) (λ w d. record w { client_configs = d }) p
        (gets λ s. s.0) c (record c { locked = true }) (ok c.value) c.value w
        (record w { client_configs = insert p (record c { locked = true }) w.client_configs }) h l s
        refl (lookup-insert_self p (record c { locked = true }) w.client_configs)

  start_poller-starts :
      (p k : ℕ) (c : Shared (EndpointImpl P)) (w : World P)
      → lookup p w.endpoint_boxes ≡ some k
      → lookup k w.endpoints ≡ some c
      → start_poller p w ≡ (
        ok w.next_id,
        record w {
          endpoints = insert k (record c { strong = c.strong + 1 }) w.endpoints;
          notices = new_channel w.next_id w.notices;
          next_id = w.next_id + 1;
          pollers = w.pollers ++ at_rest w.next_id k ∷ [];
        },
      )
  unfolding clone_endpoint deref_endpoint clone_arc new_poller start_polling
  start_poller-starts p k c w b s = rw (b, s, clone_arc) refl

  set_poll_notifier-sets :
      (p k n : ℕ) (c : Shared (EndpointImpl P)) (w : World P)
      → lookup p w.endpoint_boxes ≡ some k
      → lookup k w.endpoints ≡ some c
      → c.locked ≡ false
      → c.poisoned ≡ false
      → endpoint_access p (set_poll_notifier n) w ≡ (
        ok tt,
        record w {
          endpoints =
              insert k
                (record c {
                  locked = false;
                  poisoned = false;
                  value = record c.value { endpoint_poll_notifier = some n };
                })
                (insert k (record c { locked = true }) w.endpoints);
        },
      )
  unfolding set_poll_notifier
  set_poll_notifier-sets p k n c w b s l h =
      endpoint_access-runs p k (set_poll_notifier n) c (record c { locked = true }) (ok tt)
        (record c.value { endpoint_poll_notifier = some n }) w
        (record w { endpoints = insert k (record c { locked = true }) w.endpoints }) b s l h refl
        (lookup-insert_self k (record c { locked = true }) w.endpoints)

-- The states that `create_client_endpoint` goes through.
module _ {P : Proto} (p out out_id : ℕ) (c : Shared P.ClientConfig) (w : World P) where
  abbrev pub configured_endpoint : EndpointImpl P
  configured_endpoint = record {
    id = (w.endpoint_id + 1) % 256;
    inner = P.new_endpoint none;
    endpoint_events_rx = w.next_id;
    endpoint_events_tx = w.next_id;
    endpoint_poll_notifier = none;
    default_client_config = some c.value;
    connections = [];
    connection_refs = [];
  }

  abbrev pub notifying : EndpointImpl P
  notifying = record configured_endpoint { endpoint_poll_notifier = some (w.next_id + 1 + 2) }

  -- The configuration is read and the endpoint stands in its box.
  abbrev boxed : World P
  boxed = record w {
    client_configs =
        insert p (release {B = P.ClientConfig} (ok c.value) c.value (record c { locked = true }))
          (insert p (record c { locked = true }) w.client_configs);
    endpoint_events = new_channel w.next_id w.endpoint_events;
    endpoints = insert (w.next_id + 1) (new_shared configured_endpoint) w.endpoints;
    endpoint_boxes = insert (w.next_id + 1 + 1) (w.next_id + 1) w.endpoint_boxes;
    next_id = w.next_id + 1 + 2;
  }

  -- Its thread runs.
  abbrev polled : World P
  polled = record boxed {
    endpoints =
        insert (w.next_id + 1) (record (new_shared configured_endpoint) { strong = 2 })
          boxed.endpoints;
    notices = new_channel (w.next_id + 1 + 2) w.notices;
    next_id = w.next_id + 1 + 2 + 1;
    pollers = w.pollers ++ at_rest (w.next_id + 1 + 2) (w.next_id + 1) ∷ [];
  }

  abbrev pub created : World P
  created = record polled {
    endpoints =
        insert (w.next_id + 1) (record (new_shared notifying) { strong = 2 })
          (insert (w.next_id + 1)
            (record (new_shared configured_endpoint) { strong = 2; locked = true })
            polled.endpoints);
    words = insert out (w.next_id + 1 + 1) (insert out_id ((w.endpoint_id + 1) % 256) w.words);
  }

  pub create_client_body-creates :
      (a b : ℕ)
      → lookup p w.client_configs ≡ some c
      → c.locked ≡ false
      → c.poisoned ≡ false
      → lookup out_id w.words ≡ some a
      → lookup out w.words ≡ some b
      → out_id ≢ out
      → create_client_body p out_id out w ≡ (ok ok_result, created)
  unfolding create_client_body Endpoint.new_endpoint configured set_default_client_config
      new_endpoint_handle
  create_client_body-creates a b hc hl hp ha hb n =
      let k : ℕ = w.next_id + 1 in
      let q : ℕ = w.next_id + 1 + 1 in
      let id : ℕ = (w.endpoint_id + 1) % 256 in
      let fresh : World P = record w {
        endpoint_events = new_channel w.next_id w.endpoint_events;
        next_id = w.next_id + 1;
      } in
      let w₃ : World P = record polled { endpoints = created.endpoints } in
      rw
        (
          client_config_access-reads p c fresh hc hl hp,
          start_poller-starts q k (new_shared configured_endpoint) boxed
              (lookup-insert_self q k w.endpoint_boxes)
              (lookup-insert_self k (new_shared configured_endpoint) w.endpoints),
          set_poll_notifier-sets q k (w.next_id + 1 + 2)
              (record (new_shared configured_endpoint) { strong = 2 }) polled
              (lookup-insert_self q k w.endpoint_boxes)
              (lookup-insert_self k (record (new_shared configured_endpoint) { strong = 2 })
                boxed.endpoints)
              refl refl,
          init-writes out_id id a w₃ ha,
          init-writes out q b (record w₃ { words = insert out_id id w.words })
              (lookup-insert_ne out out_id id w.words n ∙ hb),
        )
        refl

module _ {P : Proto} where
  -- With a valid handle of a client configuration and valid pointers, `create_client_endpoint` returns `Ok`
  -- and writes the endpoint's id and handle out. The handle leads to an endpoint that is live, has that
  -- configuration, and notifies a channel; the thread that reads this channel runs, has not gone round yet,
  -- and polls this endpoint. The configuration's lock must be free and not poisoned.
  pub create_client_endpoint-live :
      (p out out_id a b : ℕ) (c : Shared P.ClientConfig) (w : World P)
      → first_null (create_client_args p out_id out) ≡ none
      → lookup p w.client_configs ≡ some c
      → c.locked ≡ false
      → c.poisoned ≡ false
      → lookup out_id w.words ≡ some a
      → lookup out w.words ≡ some b
      → out_id ≢ out
      → let (x, w') = create_client_endpoint p out_id out w in
        (handle : ℕ) × (arc : ℕ) × (notifier : ℕ) × (e : EndpointImpl P) × (x ≡ ok ok_result)
        × (lookup out w'.words ≡ some handle)
        × (lookup out_id w'.words ≡ some e.id)
        × (endpoint_cell handle w' ≡ live e)
        × (e.default_client_config ≡ some c.value)
        × (e.endpoint_poll_notifier ≡ some notifier)
        × IsOpen notifier w'.notices
        × (lookup handle w'.endpoint_boxes ≡ some arc)
        × (w'.pollers ≡ w.pollers ++ at_rest notifier arc ∷ [])
  unfolding create_client_endpoint
  create_client_endpoint-live p out out_id a b c w n hc hl hp ha hb apart =
      let w' : World P = created p out out_id c (clear_last w) in
      let q : ℕ = w.next_id + 1 + 1 in
      let id : ℕ = (w.endpoint_id + 1) % 256 in
      let run = create_client_body-creates p out out_id c (clear_last w) a b hc hl hp ha hb apart in
      let boxed_lem : lookup q w'.endpoint_boxes ≡ some (w.next_id + 1) =
        lookup-insert_self q (w.next_id + 1) w.endpoint_boxes in
      rw
        (
          safe_ffi-catch (create_client_args p out_id out) (create_client_body p out_id out) n,
          catch-ok (create_client_body p out_id out) ok_result w w' run,
        )
        (
          q,
          w.next_id + 1,
          w.next_id + 1 + 2,
          notifying p out out_id c w,
          refl,
          lookup-insert_self out q (insert out_id id w.words),
          lookup-insert_ne out_id out q (insert out_id id w.words) (λ e. apart (sym e))
              ∙ lookup-insert_self out_id id w.words,
          rw
              (
                boxed_lem,
                lookup-insert_self (w.next_id + 1)
                    (record (new_shared (notifying p out out_id c w)) { strong = 2 }) _,
              )
              refl,
          refl,
          refl,
          new_channel-IsOpen (w.next_id + 1 + 2) w.notices,
          boxed_lem,
          refl,
        )
