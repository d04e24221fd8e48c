-- ===== src/Bindings/Connections/Stuck.antt =====
-- `free_connection` on a connection whose lock is poisoned.
use quinn_ffi.Prelude.{ℕ, ◌≡◌, refl, none, some, false, true, lookup, insert, lookup-insert_self}
use quinn_ffi.Effect.{ok, panic, ignore}
use quinn_ffi.Proto.{Proto}
use quinn_ffi.World.{World, Shared, EndpointImpl, ConnectionImpl}
use quinn_ffi.World.Memory.{is_null}
use quinn_ffi.World.Mutex.{poison_panic, release}
use quinn_ffi.World.Mutex.Laws.{with_lock-poisoned}
use quinn_ffi.FfiResult.{err_result}
use quinn_ffi.FfiResult.Laws.{clear_last, catch-panic_unset}
use quinn_ffi.Api.Laws.{safe_ffi-catch}
use quinn_ffi.Handle.{connection_access_in, deref_connection}
use quinn_ffi.Handle.Poison.{IsPoisoned, endpoint_access-runs}
use quinn_ffi.Bindings.Connections.{free_connection, free_body, free_result, forget, forgotten}
use quinn_ffi.Bindings.Connections.Freed.{first_null-free}

module _ {P : Proto} where
  forget-poisoned :
      (q k : ℕ) (cell : Shared (ConnectionImpl P)) (e : EndpointImpl P) (v : World P)
      → lookup q v.connection_boxes ≡ some k
      → lookup k v.connections ≡ some cell
      → cell.locked ≡ false
      → cell.poisoned ≡ true
      → forget q (e, v) ≡ (panic poison_panic, (e, v))
  unfolding forget connection_access_in deref_connection
  forget-poisoned q k cell e v b s l p =
      rw
        (
          b,
          with_lock-poisoned (λ (s : EndpointImpl P × World P). s.1.connections)
              (λ s d. (s.0, record s.1 { connections = d })) k forgotten cell (e, v) s l p,
        )
        refl

  -- A connection that is poisoned cannot be freed, and takes its endpoint with it: `free_connection` unwraps
  -- the connection's lock under the endpoint's. The call returns `Error` and stores no error; the handle's
  -- box and the connection stay, and the endpoint is poisoned too. So it is for an endpoint whose lock is
  -- free and not poisoned, while nobody holds the connection.
  pub free_connection-poisons :
      (p q j k : ℕ) (endpoint : Shared (EndpointImpl P)) (connection : Shared (ConnectionImpl P))
      (w : World P)
      → is_null p ≡ false
      → is_null q ≡ false
      → lookup p w.endpoint_boxes ≡ some j
      → lookup j w.endpoints ≡ some endpoint
      → endpoint.locked ≡ false
      → endpoint.poisoned ≡ false
      → lookup q w.connection_boxes ≡ some k
      → lookup k w.connections ≡ some connection
      → connection.locked ≡ false
      → connection.poisoned ≡ true
      → let (x, w') = free_connection p q w in
        (x ≡ ok err_result)
        × (w'.last_result ≡ none)
        × (w'.connection_boxes ≡ w.connection_boxes)
        × (w'.connections ≡ w.connections)
        × IsPoisoned p w'
  unfolding free_connection free_body free_result
  free_connection-poisons p q j k endpoint connection w zp zq eb es el ep cb cs cl cp =
      let locked : Shared (EndpointImpl P) = record endpoint { locked = true } in
      let held : World P = record (clear_last w) { endpoints = insert j locked w.endpoints } in
      let run : ignore (forget q) (endpoint.value, held)
          ≡ (panic poison_panic, (endpoint.value, held)) =
        rw (forget-poisoned q k connection endpoint.value held cb cs cl cp) refl in
      let there = lookup-insert_self j locked w.endpoints in
      let access =
        endpoint_access-runs p j (ignore (forget q)) endpoint locked (panic poison_panic)
          endpoint.value (clear_last w) held eb es el ep run there in
      let after : World P = record held {
        endpoints =
            insert j (release {B = Unit {0}} (panic poison_panic) endpoint.value locked)
              held.endpoints;
      } in
      rw
        (
          safe_ffi-catch _ (free_body p q) (first_null-free p q zp zq),
          catch-panic_unset (free_body p q) poison_panic w after (rw access refl) refl,
        )
        (
          refl,
          refl,
          refl,
          refl,
          record {
            arc = j;
            cell = record endpoint { locked = false; poisoned = true };
            boxed = eb;
            stored = lookup-insert_self j _ held.endpoints;
            free = refl;
            poison = refl;
          },
        )
