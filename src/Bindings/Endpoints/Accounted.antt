-- ===== src/Bindings/Endpoints/Accounted.antt =====
-- The functions that make and free endpoints, and the counts of the connections' `Arc`s.
pub mod Exported
use quinn_ffi.Prelude.{
  ℕ, Bool, true, false, ◌+◌, ◌-◌, ◌≤◌, ◌≡◌, refl, sym, ◌∙◌, Option-cases, Bool-cases, inl, inr,
  List, none, some, Option, lookup, insert, erase, [], ◌∷◌, ◌==◌, arith, lookup-insert,
  lookup-erase, Dict, if◌then◌else◌,
}
use quinn_ffi.Effect.{M, Exit, ok, err, panic, hang, undefined, ignore, ◌>>=◌, ◌>>◌, pure, lift}
use quinn_ffi.Effect.Laws.{Preserves, >>=-Preserves}
use quinn_ffi.Proto.{Proto}
use quinn_ffi.World.{World, Shared, EndpointImpl}
use quinn_ffi.World.Memory.{init}
use quinn_ffi.World.Arcs.{new_shared, clone_arc, drop_connection_arcs}
use quinn_ffi.World.Arcs.Left.{Leaves, Leaves-IsCounted, Leaves-refl, Leaves-same}
use quinn_ffi.World.Arcs.Counts.{
  occurs, KeysApart-insert, KeysApart-erase, insert-Every, erase-Every,
}
use quinn_ffi.World.Arcs.Counted.{IsCounted, IsCounted-ext, drop_connection_arcs-IsCounted}
use quinn_ffi.Handle.{
  drop_endpoint, drop_endpoint_arc, dealloc_endpoint, deref_endpoint, new_endpoint_handle,
  clone_endpoint,
}
use quinn_ffi.Handle.Counted.{
  IsAccounted, known, known_by, RefsApart, IsCounted-cells, known-erase, known-insert,
  known-replace, absent-insert, Leaves-IsAccounted,
}
use quinn_ffi.Endpoint.Refs.{drop_senders}
use quinn_ffi.Endpoint.Refs.Counted.{drop_senders-Leaves, drop_connection_arcs-next}
use quinn_ffi.Endpoint.Refs.Closed.{drop_connection_arcs-SameEndpoints}
use quinn_ffi.World.Mpsc.{drop_receiver}

module _ {P : Proto} where
  -- The count of an endpoint's `Arc` is changed.
  recount-IsAccounted :
      (k : ℕ) (c b : Shared (EndpointImpl P)) (w : World P)
      → lookup k w.endpoints ≡ some c
      → b.value ≡ c.value
      → IsAccounted w
      → IsAccounted (record w { endpoints = insert k b w.endpoints })
  recount-IsAccounted k c b w l v i =
      let d = insert k b w.endpoints in
      let same : (j : ℕ) → known_by j b ≡ known_by j c = λ j. rw v refl in
      record {
        counted =
            IsCounted-cells (λ j. known j d) w d
              (IsCounted-ext (λ j. known j w.endpoints) (λ j. known j d) w
                (λ j. omega (arith, known-replace j k c b w.endpoints l, same j)) i.counted);
        cells_apart = KeysApart-insert k b w.endpoints i.cells_apart;
        refs_apart =
            insert-Every RefsApart k b w.endpoints (rw v (i.refs_apart k c l)) i.refs_apart;
        fresh_cell = λ j n. absent-insert j k c b w.endpoints l (i.fresh_cell j n);
      }

  -- The last `Arc` of an endpoint is dropped, and its connections' `Arc`s with it.
  drop_endpoint-IsAccounted :
      (k : ℕ) (c : Shared (EndpointImpl P)) (w : World P)
      → lookup k w.endpoints ≡ some c
      → IsAccounted w
      → IsAccounted (drop_endpoint c.value (record w { endpoints = erase k w.endpoints }))
  unfolding drop_endpoint
  drop_endpoint-IsAccounted k c w l i =
      let refs = c.value.connection_refs in
      let gone = erase k w.endpoints in
      let v : World P = record w {
        endpoints = gone;
        endpoint_events = drop_receiver c.value.endpoint_events_rx w.endpoint_events;
      } in
      let u : World P = drop_senders c.value.connections v in
      let lv = drop_senders-Leaves c.value.connections v in
      let d : (drop_connection_arcs refs u).endpoints ≡ gone =
        (drop_connection_arcs-SameEndpoints refs u).1 ∙ lv.endpoints in
      let n : (drop_connection_arcs refs u).next_id ≡ u.next_id =
        drop_connection_arcs-next refs u in
      let was : IsCounted (λ j. known j w.endpoints) u =
        Leaves-IsCounted (λ j. known j w.endpoints) v u lv
          (record {
            counted = i.counted.counted;
            positive = i.counted.positive;
            apart = i.counted.apart;
            fresh_cell = i.counted.fresh_cell;
            fresh_box = i.counted.fresh_box;
          }) in
      let now_counted =
        drop_connection_arcs-IsCounted refs (λ j. known j w.endpoints) (λ j. known j gone) u
          (λ j. known-erase j k c w.endpoints i.cells_apart l) was in
      record {
        counted =
            IsCounted-ext (λ j. known j gone) (λ j. known j (drop_connection_arcs refs u).endpoints)
              (drop_connection_arcs refs u) (λ j. rw d refl) now_counted;
        cells_apart = rw d (KeysApart-erase k w.endpoints i.cells_apart);
        refs_apart = rw d (erase-Every RefsApart k w.endpoints i.refs_apart);
        fresh_cell = λ j m. rw d (
            ground
              (arith, lookup-erase j k w.endpoints, i.fresh_cell j (omega (arith, lv.next, n, m))));
      }

  pub drop_endpoint_arc-IsAccounted :
      (k : ℕ) (w : World P) → IsAccounted w → IsAccounted (drop_endpoint_arc k w)
  unfolding drop_endpoint_arc
  drop_endpoint_arc-IsAccounted k w i = elim (Option-cases (lookup k w.endpoints)) [
    | inl e ↦ rw (e, drop_endpoint_arc) i
    | inr (c, e) ↦ elim (Bool-cases (c.strong == 1)) [
      | inl o ↦ rw (e, drop_endpoint_arc, o) (drop_endpoint-IsAccounted k c w e i)
      | inr o ↦
          rw (e, drop_endpoint_arc, o)
            (recount-IsAccounted k c (record c { strong = c.strong - 1 }) w e refl i)
    ]
  ]

  boxes-IsAccounted :
      (d : Dict ℕ) (w : World P) → IsAccounted w → IsAccounted (record w { endpoint_boxes = d })
  boxes-IsAccounted d w =
      Leaves-IsAccounted w (record w { endpoint_boxes = d })
        (Leaves-same w w (record w { endpoint_boxes = d }) refl refl (omega arith) refl
          (Leaves-refl w))

  -- An endpoint that stands in no `Arc` and knows no connection is dropped.
  pub drop_fresh-IsAccounted :
      (e : EndpointImpl P) (w : World P)
      → e.connections ≡ []
      → e.connection_refs ≡ []
      → IsAccounted w
      → IsAccounted (drop_endpoint e w)
  unfolding drop_endpoint drop_senders drop_connection_arcs
  drop_fresh-IsAccounted e w c r i =
      let v : World P = record w {
        endpoint_events = drop_receiver e.endpoint_events_rx w.endpoint_events;
      } in
      rw (c, r)
        (Leaves-IsAccounted w v (Leaves-same w w v refl refl (omega arith) refl (Leaves-refl w)) i)

  pub dealloc_endpoint-IsAccounted : (p : ℕ) → Preserves (IsAccounted {P = P}) (dealloc_endpoint p)
  unfolding dealloc_endpoint deref_endpoint
  dealloc_endpoint-IsAccounted p w i = elim (Option-cases (lookup p w.endpoint_boxes)) [
    | inl e ↦ rw (e, dealloc_endpoint) i
    | inr (k, e) ↦
        rw (e, dealloc_endpoint)
          (drop_endpoint_arc-IsAccounted k (record w { endpoint_boxes = erase p w.endpoint_boxes })
            (boxes-IsAccounted (erase p w.endpoint_boxes) w i))
  ]

  known-nothing :
      (j : ℕ) (e : EndpointImpl P) → e.connection_refs ≡ [] → known_by j (new_shared e) ≡ 0
  unfolding occurs
  known-nothing j e r = rw r refl

  -- A new endpoint knows no connection.
  pub new_endpoint_handle-IsAccounted :
      (e : EndpointImpl P) → e.connection_refs ≡ [] → Preserves IsAccounted (new_endpoint_handle e)
  unfolding new_endpoint_handle
  new_endpoint_handle-IsAccounted e r w i =
      let n = w.next_id in
      let d = insert n (new_shared e) w.endpoints in
      let none_there : lookup n w.endpoints ≡ none = i.fresh_cell n (omega arith) in
      let knows : (j : ℕ) → known_by j (new_shared e) ≡ 0 = λ j. known-nothing j e r in
      let new_counted : (j : ℕ) → known j d ≡ known j w.endpoints = λ j.
        let z = rw none_there at (known-insert j n (new_shared e) w.endpoints) in
        omega (arith, knows j, z) in
      let v : World P = record w {
        endpoints = d;
        endpoint_boxes = insert (n + 1) n w.endpoint_boxes;
        next_id = n + 2;
      } in
      record {
        counted = record {
          counted = λ j. omega (arith, i.counted.counted j, new_counted j);
          positive = i.counted.positive;
          apart = i.counted.apart;
          fresh_cell = λ j l. i.counted.fresh_cell j (omega arith);
          fresh_box = λ q l. i.counted.fresh_box q (omega arith);
        };
        cells_apart = KeysApart-insert n (new_shared e) w.endpoints i.cells_apart;
        refs_apart = insert-Every RefsApart n (new_shared e) w.endpoints (rw r tt) i.refs_apart;
        fresh_cell = λ j l.
            ground
              (arith, lookup-insert j n (new_shared e) w.endpoints, i.fresh_cell j (omega arith));
      }

  pub clone_endpoint-IsAccounted : (p : ℕ) → Preserves (IsAccounted {P = P}) (clone_endpoint p)
  unfolding clone_endpoint deref_endpoint clone_arc lookup
  clone_endpoint-IsAccounted p w i = elim (Option-cases (lookup p w.endpoint_boxes)) [
    | inl e ↦ rw (e, clone_endpoint) i
    | inr (k, e) ↦ elim (Option-cases (lookup k w.endpoints)) [
      | inl f ↦ rw (e, clone_endpoint, f) i
      | inr (c, f) ↦
          rw (e, clone_endpoint, f)
            (recount-IsAccounted k c (record c { strong = c.strong + 1 }) w f refl i)
    ]
  ]
