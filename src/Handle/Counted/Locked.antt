-- ===== src/Handle/Counted/Locked.antt =====
-- What a call on an endpoint or on a connection, under its lock, keeps of the counts of the connections' `Arc`s.
use quinn_ffi.Prelude.{
  ℕ, ◌+◌, ◌-◌, ◌≡◌, refl, some, Option-cases, Bool-cases, inl, inr, true, lookup, insert, arith,
  lookup-insert_self,
}
use quinn_ffi.Effect.{M, Exit}
use quinn_ffi.Effect.Laws.{Preserves}
use quinn_ffi.Proto.{Proto}
use quinn_ffi.World.{World, Shared, EndpointImpl}
use quinn_ffi.World.Arcs.Counts.{KeysApart-insert, insert-Every}
use quinn_ffi.World.Arcs.Left.{Leaves, Leaves-refl, Leaves-writes}
use quinn_ffi.World.Mutex.Locked.{locked-Preserves}
use quinn_ffi.Connection.{Conn}
use quinn_ffi.World.Arcs.Counted.{IsCounted-ext}
use quinn_ffi.World.Mutex.{with_lock, with_try_lock, guarded, settle, release}
use quinn_ffi.World.Mutex.Laws.{
  with_lock-none, with_lock-guarded, with_lock-locked, with_lock-poisoned, with_try_lock-none,
  with_try_lock-locked, with_try_lock-poisoned, with_try_lock-guarded,
}
use quinn_ffi.Endpoint.{Endp, connection_cells, put_connection_cells}
use quinn_ffi.Endpoint.Refs.Counted.{Outside, references, AreCounted}
use quinn_ffi.Handle.Counted.{
  known, known_by, known-at, known-replace, absent-insert, RefsApart, IsAccounted, IsCounted-cells,
  Leaves-IsAccounted,
}
use quinn_ffi.Handle.{
  endpoint_cells, put_endpoint_cells, endpoint_access, deref_endpoint, connection_access,
  deref_connection,
}

module _ {P : Proto} where
  -- What is outside the endpoint of the cell `c`, when the cell is locked.
  abbrev around : ℕ → Shared (EndpointImpl P) → World P → Outside P
  around k c w = record {
    refs = λ j. known j w.endpoints - known_by j c;
    endpoints = insert k (record c { locked = true }) w.endpoints;
    next = w.next_id;
  }

  locked-AreCounted :
      (k : ℕ) (c : Shared (EndpointImpl P)) (w : World P)
      → lookup k w.endpoints ≡ some c
      → IsAccounted w
      → AreCounted
          (around k c w)
          (c.value, put_endpoint_cells w (insert k (record c { locked = true }) w.endpoints))
  locked-AreCounted k c w l i = record {
    shared =
        IsCounted-cells (references (around k c w) c.value) w
          (insert k (record c { locked = true }) w.endpoints)
          (IsCounted-ext (λ j. known j w.endpoints) (references (around k c w) c.value) w
            (λ j. omega (arith, known-at j k c w.endpoints l)) i.counted);
    refs_apart = i.refs_apart k c l;
    cells_same = refl;
    later = omega arith;
  }

  settled-known :
      (j k : ℕ) (c new : Shared (EndpointImpl P)) (w : World P)
      → lookup k w.endpoints ≡ some c
      → known j (insert k new (around k c w).endpoints)
        ≡ known_by j new + (known j w.endpoints - known_by j c)
  settled-known j k c new w l =
      let b = record c { locked = true } in
      omega (
        arith,
        known-replace j k c b w.endpoints l,
        known-replace j k b new (insert k b w.endpoints) (lookup-insert_self k b w.endpoints),
        known-at j k c w.endpoints l,
      )

  settled-IsAccounted :
      {B : Type 0} (k : ℕ) (c : Shared (EndpointImpl P)) (w : World P) (x : Exit B)
      (e : EndpointImpl P) (v : World P)
      → lookup k w.endpoints ≡ some c
      → IsAccounted w
      → AreCounted (around k c w) (e, v)
      → IsAccounted (settle endpoint_cells put_endpoint_cells k x e v (lookup k v.endpoints))
  settled-IsAccounted k c w x e v l i a =
      let b = record c { locked = true } in
      let new = release x e b in
      let d = insert k b w.endpoints in
      let there : lookup k v.endpoints ≡ some b =
        rw a.cells_same (lookup-insert_self k b w.endpoints) in
      rw there (record {
        counted =
            IsCounted-cells (λ j. known j (insert k new v.endpoints)) v (insert k new v.endpoints)
              (IsCounted-ext (references (around k c w) e) (λ j. known j (insert k new v.endpoints))
                v (λ j. rw a.cells_same (settled-known j k c new w l)) a.shared);
        cells_apart =
            rw a.cells_same
              (KeysApart-insert k new d (KeysApart-insert k b w.endpoints i.cells_apart));
        refs_apart = rw a.cells_same (
            insert-Every RefsApart k new d a.refs_apart
              (insert-Every RefsApart k b w.endpoints (i.refs_apart k c l) i.refs_apart));
        fresh_cell = λ j n. rw a.cells_same (
            absent-insert j k b new d (lookup-insert_self k b w.endpoints)
              (absent-insert j k c b w.endpoints l (i.fresh_cell j (omega (arith, a.later, n)))));
      })

  guarded-IsAccounted :
      {B : Type 0} (k : ℕ) (cb : Endp P B) (c : Shared (EndpointImpl P)) (w : World P)
      → ((other : Outside P) → Preserves (AreCounted other) cb)
      → lookup k w.endpoints ≡ some c
      → IsAccounted w
      → IsAccounted (guarded endpoint_cells put_endpoint_cells k cb c w).1
  unfolding guarded
  guarded-IsAccounted k cb c w h l i =
      let held : World P = record w {
        endpoints = insert k (record c { locked = true }) w.endpoints;
      } in
      let (x, (e, v)) = cb (c.value, held) in
      settled-IsAccounted k c w x e v l i
        (h (around k c w) (c.value, held) (locked-AreCounted k c w l i))

  -- A call on an endpoint, for each state of its lock and however the callback ends.
  pub endpoint_access-IsAccounted :
      {B : Type 0} (p : ℕ) (cb : Endp P B)
      → ((other : Outside P) → Preserves (AreCounted other) cb)
      → Preserves IsAccounted (endpoint_access p cb)
  unfolding endpoint_access deref_endpoint
  endpoint_access-IsAccounted p cb h w i = elim (Option-cases (lookup p w.endpoint_boxes)) [
    | inl n ↦ rw (n, endpoint_access) i
    | inr (k, n) ↦
        rw (n, endpoint_access)
          (elim (Option-cases (lookup k w.endpoints)) [
            | inl e ↦ rw (with_lock-none endpoint_cells put_endpoint_cells k cb w e) i
            | inr (c, e) ↦ elim (Bool-cases c.locked) [
              | inl l ↦ rw (with_lock-locked endpoint_cells put_endpoint_cells k cb c w e l) i
              | inr l ↦ elim (Bool-cases c.poisoned) [
                | inl f ↦ rw (with_lock-poisoned endpoint_cells put_endpoint_cells k cb c w e l f) i
                | inr f ↦
                    rw (with_lock-guarded endpoint_cells put_endpoint_cells k cb c w e l f)
                      (guarded-IsAccounted k cb c w h e i)
              ]
            ]
          ])
  ]

  -- `try_lock` on an endpoint.
  pub endpoint_tried-IsAccounted :
      {B : Type 0} (k : ℕ) (cb : Endp P B) (blocked poisoned : M (World P) B)
      → ((other : Outside P) → Preserves (AreCounted other) cb)
      → Preserves IsAccounted blocked
      → Preserves IsAccounted poisoned
      → Preserves IsAccounted
          (with_try_lock endpoint_cells put_endpoint_cells k cb blocked poisoned)
  endpoint_tried-IsAccounted k cb blocked poisoned h b q w i =
      elim (Option-cases (lookup k w.endpoints)) [
        | inl e ↦
            rw (with_try_lock-none endpoint_cells put_endpoint_cells k cb blocked poisoned w e) i
        | inr (c, e) ↦ elim (Bool-cases c.locked) [
          | inl l ↦
              rw
                (with_try_lock-locked endpoint_cells put_endpoint_cells k cb blocked poisoned c w e
                  l)
                (b w i)
          | inr l ↦ elim (Bool-cases c.poisoned) [
            | inl f ↦
                rw
                  (with_try_lock-poisoned endpoint_cells put_endpoint_cells k cb blocked poisoned c
                    w e l f)
                  (q w i)
            | inr f ↦
                rw
                  (with_try_lock-guarded endpoint_cells put_endpoint_cells k cb blocked poisoned c w
                    e l f)
                  (guarded-IsAccounted k cb c w h e i)
          ]
        ]
      ]

  -- A call on a connection.
  pub connection_access-IsAccounted :
      {B : Type 0} (p : ℕ) (m : Conn P B)
      → ((w : World P) → Preserves (λ t. Leaves w t.1) m)
      → Preserves IsAccounted (connection_access p m)
  unfolding connection_access deref_connection
  connection_access-IsAccounted p m h w i = elim (Option-cases (lookup p w.connection_boxes)) [
    | inl n ↦ rw (n, connection_access) i
    | inr (k, n) ↦
        rw (n, connection_access)
          (Leaves-IsAccounted w (with_lock connection_cells put_connection_cells k m w).1
            (locked-Preserves connection_cells put_connection_cells (Leaves w) (Leaves-writes w) k m
              (h w) w (Leaves-refl w))
            i)
  ]
