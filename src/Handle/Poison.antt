-- ===== src/Handle/Poison.antt =====
-- Poisoned endpoints: the accesses of src/ffi/safe_api.rs whose callback panics.
use quinn_ffi.Prelude.{ℕ, ◌≡◌, refl, some, true, false, lookup, insert, lookup-insert_self}
use quinn_ffi.Effect.{Exit, panic, Payload}
use quinn_ffi.Proto.{Proto}
use quinn_ffi.World.{World, Shared, EndpointImpl}
use quinn_ffi.World.Mutex.{poison_panic, release}
use quinn_ffi.World.Mutex.Laws.{with_lock-poisoned, with_lock-runs}
use quinn_ffi.Endpoint.{Endp}
use quinn_ffi.Handle.{endpoint_access, endpoint_cells, put_endpoint_cells}

module _ {P : Proto} where
  -- The handle points to a cell that nobody holds.
  pub record IsPoisoned (p : ℕ) (w : World P) : Type 0 where
    pub arc : ℕ
    pub cell : Shared (EndpointImpl P)
    pub boxed : lookup p w.endpoint_boxes ≡ some arc
    pub stored : lookup arc w.endpoints ≡ some cell
    pub free : cell.locked ≡ false
    pub poison : cell.poisoned ≡ true

  pub endpoint_access-IsPoisoned :
      {A : Type 0} (p : ℕ) (cb : Endp P A) (w : World P)
      → IsPoisoned p w
      → endpoint_access p cb w ≡ (panic poison_panic, w)
  unfolding endpoint_access
  endpoint_access-IsPoisoned p cb w h = rw h.boxed (
      with_lock-poisoned endpoint_cells put_endpoint_cells h.arc cb h.cell w h.stored h.free
        h.poison)

  pub endpoint_access-runs :
      {A : Type 0} (p k : ℕ) (cb : Endp P A) (c c' : Shared (EndpointImpl P)) (x : Exit A)
      (e : EndpointImpl P) (w w' : World P)
      → lookup p w.endpoint_boxes ≡ some k
      → lookup k w.endpoints ≡ some c
      → c.locked ≡ false
      → c.poisoned ≡ false
      → cb (c.value, record w { endpoints = insert k (record c { locked = true }) w.endpoints })
        ≡ (x, (e, w'))
      → lookup k w'.endpoints ≡ some c'
      → endpoint_access p cb w
        ≡ (x, record w' { endpoints = insert k (release x e c') w'.endpoints })
  unfolding endpoint_access
  endpoint_access-runs p k cb c c' x e w w' b s l po r s' =
      rw b (with_lock-runs endpoint_cells put_endpoint_cells k cb c c' x e w w' s l po r s')

  -- A callback that panics leaves the endpoint poisoned.
  pub endpoint_access-poisons :
      {A : Type 0} (p k : ℕ) (cb : Endp P A) (c c' : Shared (EndpointImpl P)) (x : Payload)
      (e : EndpointImpl P) (w w' : World P)
      → lookup p w.endpoint_boxes ≡ some k
      → lookup k w.endpoints ≡ some c
      → c.locked ≡ false
      → c.poisoned ≡ false
      → cb (c.value, record w { endpoints = insert k (record c { locked = true }) w.endpoints })
        ≡ (panic x, (e, w'))
      → lookup k w'.endpoints ≡ some c'
      → lookup p w'.endpoint_boxes ≡ some k
      → ((endpoint_access p cb w).0 ≡ panic x) × IsPoisoned p (endpoint_access p cb w).1
  endpoint_access-poisons p k cb c c' x e w w' b s l po r s' b' =
      rw (endpoint_access-runs p k cb c c' (panic x) e w w' b s l po r s') (
        refl,
        record {
          arc = k;
          cell = release {B = Unit {0}} (panic x) e c';
          boxed = b';
          stored = lookup-insert_self k _ w'.endpoints;
          free = refl;
          poison = refl;
        },
      )
