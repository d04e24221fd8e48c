-- ===== src/Bindings/Connections/Freed.antt =====
-- `free_connection` on a connection that its endpoint knows.
use quinn_ffi.Prelude.{
  ℕ, ◌≡◌, refl, ◌∙◌, ap, Option-cases, inl, inr, none, some, false, true, [], ◌∷◌, Dict, lookup,
  insert, erase, lookup-insert_self, lookup-erase_self, arith, bytes,
}
use quinn_ffi.Effect.{ok, undefined, ignore, pure}
use quinn_ffi.Proto.{Proto}
use quinn_ffi.World.{World, Shared, Channel, EndpointImpl, ConnectionImpl, ConnectionEvent}
use quinn_ffi.World.Memory.{is_null}
use quinn_ffi.World.Mpsc.{drop_receiver, drop_sender, send_on}
use quinn_ffi.World.Mutex.{release}
use quinn_ffi.World.Mutex.Laws.{with_lock-runs}
use quinn_ffi.World.Arcs.{drop_connection_arc, drop_connection}
use quinn_ffi.Endpoint.{remove_sender}
use quinn_ffi.Endpoint.Refs.{remove_connection, remove_ref}
use quinn_ffi.FfiResult.{ok_result}
use quinn_ffi.FfiResult.Laws.{clear_last, catch-ok}
use quinn_ffi.Api.Laws.{first_null, safe_ffi-catch}
use quinn_ffi.Handle.{connection_access, connection_access_in, deref_connection, dealloc_connection}
use quinn_ffi.Handle.Poison.{endpoint_access-runs}
use quinn_ffi.Bindings.Connections.{free_connection, free_body, free_result, forget, forgotten}

-- The handles lead to an endpoint and a connection whose locks are free and not poisoned. The endpoint has
-- the connection in both of its maps, and nothing else but the handle refers to it.
pub record IsRegistered {P : Proto} (endpoint handle : ℕ) (w : World P) : Type 0 where
  pub endpoint_arc : ℕ
  pub endpoint_cell : Shared (EndpointImpl P)
  pub connection_arc : ℕ
  pub connection_cell : Shared (ConnectionImpl P)
  pub sender : ℕ
  pub endpoint_boxed : lookup endpoint w.endpoint_boxes ≡ some endpoint_arc
  pub endpoint_stored : lookup endpoint_arc w.endpoints ≡ some endpoint_cell
  pub endpoint_free : endpoint_cell.locked ≡ false
  pub endpoint_sound : endpoint_cell.poisoned ≡ false
  pub connection_boxed : lookup handle w.connection_boxes ≡ some connection_arc
  pub connection_stored : lookup connection_arc w.connections ≡ some connection_cell
  pub connection_free : connection_cell.locked ≡ false
  pub connection_sound : connection_cell.poisoned ≡ false
  pub referred :
      lookup connection_cell.value.connection_handle endpoint_cell.value.connection_refs
      ≡ some connection_arc
  pub sends :
      lookup connection_cell.value.connection_handle endpoint_cell.value.connections ≡ some sender
  pub two : connection_cell.strong ≡ 2

pub first_null-free :
    (p q : ℕ)
    → is_null p ≡ false
    → is_null q ≡ false
    → first_null ((bytes "endpoint", is_null p) ∷ (bytes "handle", is_null q) ∷ []) ≡ none
first_null-free p q h k = ground arith

module _ {P : Proto} where
  -- The `Arc` of a connection is dropped: one reference less, or the connection goes.
  drop_connection_arc-more :
      (k : ℕ) (c : Shared (ConnectionImpl P)) (w : World P)
      → lookup k w.connections ≡ some c
      → c.strong ≡ 2
      → drop_connection_arc k w
        ≡ record w { connections = insert k (record c { strong = 1 }) w.connections }
  unfolding drop_connection_arc
  drop_connection_arc-more k c w h s = rw (h, drop_connection_arc, s) refl

  drop_connection_arc-last :
      (k : ℕ) (c : Shared (ConnectionImpl P)) (w : World P)
      → lookup k w.connections ≡ some c
      → c.strong ≡ 1
      → drop_connection_arc k w ≡ record w {
        connections = erase k w.connections;
        connection_events = drop_receiver c.value.connection_events w.connection_events;
      }
  unfolding drop_connection_arc drop_connection
  drop_connection_arc-last k c w h s = rw (h, drop_connection_arc, s) refl

  remove_connection-drops :
      (handle k n : ℕ) (c : Shared (ConnectionImpl P)) (e : EndpointImpl P) (w : World P)
      → lookup handle e.connection_refs ≡ some k
      → lookup handle e.connections ≡ some n
      → lookup k w.connections ≡ some c
      → c.strong ≡ 2
      → remove_connection handle (e, w) ≡ (
        ok tt,
        (
          record e {
            connection_refs = erase handle e.connection_refs;
            connections = erase handle e.connections;
          },
          record w {
            connections = insert k (record c { strong = 1 }) w.connections;
            connection_events = drop_sender n w.connection_events;
          },
        ),
      )
  unfolding remove_connection remove_ref remove_sender
  remove_connection-drops handle k n c e w r s l t =
      rw (r, s, drop_connection_arc-more k c w l t) refl

-- The steps of the call, over the handles and cells that the hypothesis names.
module _ {P : Proto} (p q : ℕ) (w : World P) (r : IsRegistered p q w) where
  abbrev served : EndpointImpl P
  served = r.endpoint_cell.value

  abbrev conn : ConnectionImpl P
  conn = r.connection_cell.value

  abbrev locked_connection : Shared (ConnectionImpl P)
  locked_connection = record r.connection_cell { locked = true }

  abbrev locked_endpoint : Shared (EndpointImpl P)
  locked_endpoint = record r.endpoint_cell { locked = true }

  -- The endpoint without the connection.
  abbrev pub without : EndpointImpl P
  without = record served {
    connection_refs = erase conn.connection_handle served.connection_refs;
    connections = erase conn.connection_handle served.connections;
  }

  -- The stores after `remove_connection`, with both locks held.
  abbrev removed : World P → World P
  removed v = record v {
    connections =
        insert r.connection_arc (record locked_connection { strong = 1 })
          (insert r.connection_arc locked_connection v.connections);
    connection_events = drop_sender r.sender v.connection_events;
  }

  abbrev released : World P → World P
  released v = record (removed v) {
    connections =
        insert r.connection_arc
          (release {B = Unit {0}} (ok tt) conn (record locked_connection { strong = 1 }))
          (removed v).connections;
  }

  forget-runs :
      (v : World P)
      → v.connection_boxes ≡ w.connection_boxes
      → v.connections ≡ w.connections
      → forget q (served, v) ≡ (ok tt, (without, released v))
  unfolding forget connection_access_in deref_connection
  forget-runs v b s =
      let stored : lookup r.connection_arc v.connections ≡ some r.connection_cell =
        ap (lookup r.connection_arc) s ∙ r.connection_stored in
      rw
        (
          ap (lookup q) b ∙ r.connection_boxed,
          with_lock-runs (λ (s : EndpointImpl P × World P). s.1.connections)
              (λ s d. (s.0, record s.1 { connections = d })) r.connection_arc forgotten
              r.connection_cell (record locked_connection { strong = 1 }) (ok tt) conn (served, v)
              (without, removed v) stored r.connection_free r.connection_sound
              (rw
                (remove_connection-drops conn.connection_handle r.connection_arc r.sender
                  locked_connection served
                  (record v {
                    connections = insert r.connection_arc locked_connection v.connections;
                  })
                  r.referred r.sends
                  (lookup-insert_self r.connection_arc locked_connection v.connections) r.two)
                refl)
              (lookup-insert_self r.connection_arc (record locked_connection { strong = 1 })
                (insert r.connection_arc locked_connection v.connections)),
        )
        refl

  -- What is left of the stores when the endpoint's lock is given back.
  abbrev unlocked : World P → World P
  unlocked v = record (released v) {
    endpoints =
        insert r.endpoint_arc (release {B = Unit {0}} (ok tt) without locked_endpoint)
          (insert r.endpoint_arc locked_endpoint v.endpoints);
  }

  abbrev last_cell : Shared (ConnectionImpl P)
  last_cell = release {B = Unit {0}} (ok tt) conn (record locked_connection { strong = 1 })

  -- The state after the call.
  abbrev pub after_free : World P
  after_free = record (unlocked (clear_last w)) {
    connection_boxes = erase q w.connection_boxes;
    connections = erase r.connection_arc (released w).connections;
    connection_events =
        drop_receiver conn.connection_events (drop_sender r.sender w.connection_events);
  }

  free_body-runs : free_body p q (clear_last w) ≡ (ok ok_result, after_free)
  unfolding free_body free_result dealloc_connection deref_connection
  free_body-runs =
      let held : World P = record (clear_last w) {
        endpoints = insert r.endpoint_arc locked_endpoint w.endpoints;
      } in
      let access =
        endpoint_access-runs p r.endpoint_arc (ignore (forget q)) r.endpoint_cell locked_endpoint
          (ok tt) without (clear_last w) (released held) r.endpoint_boxed r.endpoint_stored
          r.endpoint_free r.endpoint_sound (rw (forget-runs held refl refl) refl)
          (lookup-insert_self r.endpoint_arc locked_endpoint w.endpoints) in
      rw
        (
          access,
          r.connection_boxed,
          drop_connection_arc-last r.connection_arc last_cell
              (record (unlocked (clear_last w)) { connection_boxes = erase q w.connection_boxes })
              (lookup-insert_self r.connection_arc last_cell (removed w).connections) refl,
        )
        refl

-- A channel whose receiver was dropped takes no message.
pub send_on-drop_receiver :
    {A : Type 0} (k : ℕ) (a : A) (d : Dict (Channel A)) → send_on k a (drop_receiver k d) ≡ none
unfolding send_on drop_receiver
send_on-drop_receiver k a d = elim (Option-cases (lookup k d)) [
  | inl n ↦ rw (n, drop_receiver) (rw (n, send_on) refl)
  | inr (ch, n) ↦
      rw (n, drop_receiver)
        (rw (lookup-insert_self k (record ch { receiver_alive = false; queue = [] }) d, send_on)
          refl)
]

module _ {P : Proto} where
  -- Freeing a connection that its endpoint has registered returns `Ok`. The handle's box and the connection
  -- are gone, its channel takes no more events, the endpoint has lost it from both maps and is unlocked
  -- again, and an access through the handle right after the call is undefined. So it is for handles whose
  -- locks are free and not poisoned, while nothing else refers to the connection.
  pub free_connection-frees :
      (p q : ℕ) (event : ConnectionEvent P) (w : World P) (r : IsRegistered p q w)
      → is_null p ≡ false
      → is_null q ≡ false
      → let c : ConnectionImpl P = r.connection_cell.value in
        let e : EndpointImpl P = r.endpoint_cell.value in
        let (x, w') = free_connection p q w in
        (x ≡ ok ok_result)
        × (lookup q w'.connection_boxes ≡ none)
        × (lookup r.connection_arc w'.connections ≡ none)
        × (send_on c.connection_events event w'.connection_events ≡ none)
        × (lookup r.endpoint_arc w'.endpoints
            ≡ some (record r.endpoint_cell {
              locked = false;
              poisoned = false;
              value = record e {
                connection_refs = erase c.connection_handle e.connection_refs;
                connections = erase c.connection_handle e.connections;
              };
            }))
        × ((connection_access q (pure tt) w').0 ≡ undefined)
  unfolding free_connection connection_access deref_connection
  free_connection-frees p q event w r zp zq =
      let c : ConnectionImpl P = r.connection_cell.value in
      rw
        (
          safe_ffi-catch _ (free_body p q) (first_null-free p q zp zq),
          catch-ok (free_body p q) ok_result w (after_free p q w r) (free_body-runs p q w r),
        )
        (
          refl,
          lookup-erase_self q w.connection_boxes,
          lookup-erase_self r.connection_arc (released p q w r w).connections,
          send_on-drop_receiver c.connection_events event
              (drop_sender r.sender w.connection_events),
          lookup-insert_self r.endpoint_arc
              (release {B = Unit {0}} (ok tt) (without p q w r) (locked_endpoint p q w r))
              (insert r.endpoint_arc (locked_endpoint p q w r) w.endpoints),
          rw (lookup-erase_self q w.connection_boxes) refl,
        )
