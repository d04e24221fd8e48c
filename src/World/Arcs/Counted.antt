-- ===== src/World/Arcs/Counted.antt =====
-- What the count of every connection's `Arc` amounts to: the boxes that hold it, and what else refers to it.
use quinn_ffi.Prelude.{
  ℕ, ◌+◌, ◌<◌, ◌≤◌, ◌≡◌, refl, sym, none, some, Bool-cases, Option-cases, inl, inr, [], ◌∷◌, Dict,
  lookup, insert, erase, lookup-insert, lookup-erase, ◌==◌, ==_iff, arith,
}
use quinn_ffi.Effect.Laws.{Preserves}
use quinn_ffi.Handle.{new_connection_handle, clone_connection, dealloc_connection, deref_connection}
use quinn_ffi.Proto.{Proto}
use quinn_ffi.World.{World, ConnectionImpl}
use quinn_ffi.World.Arcs.{
  new_shared, clone_arc, drop_connection, drop_connection_arc, drop_connection_arcs,
}
use quinn_ffi.World.Arcs.Counts.{
  one, occurs, KeysApart, occurs-insert, occurs-erase, KeysApart-insert, KeysApart-erase,
  lookup-occurs, strong_in, strong_of, AllReferred, IsPositive, insert-Every,
  drop_connection_arc-strong, drop_connection_arc-AllReferred,
}

-- `refs` tells how often each `Arc` is held outside the boxes.
pub record IsCounted {P : Proto} (refs : ℕ → ℕ) (w : World P) : Type 0 where
  pub counted : (k : ℕ) → strong_of k w ≡ occurs k w.connection_boxes + refs k
  pub positive : AllReferred w
  pub apart : KeysApart w.connection_boxes
  pub fresh_cell : (k : ℕ) → w.next_id ≤ k → strong_of k w ≡ 0
  pub fresh_box : (p : ℕ) → w.next_id ≤ p → lookup p w.connection_boxes ≡ none

occurs-insert_new :
    (k h v : ℕ) (d : Dict ℕ)
    → lookup h d ≡ none
    → occurs k (insert h v d) ≡ occurs k d + one k (some v)
occurs-insert_new k h v d n = let z = rw n at (occurs-insert k h v d) in omega arith

occurs-erase_entry :
    (k h v : ℕ) (d : Dict ℕ)
    → KeysApart d
    → lookup h d ≡ some v
    → occurs k (erase h d) + one k (some v) ≡ occurs k d
occurs-erase_entry k h v d a l = rw l at (occurs-erase k h d a)

module _ {P : Proto} where
  -- The boxes and the next number are as they were.
  abbrev pub SameBoxes : World P → World P → Type 0
  SameBoxes w w' = (w'.connection_boxes ≡ w.connection_boxes) × (w'.next_id ≡ w.next_id)

  pub drop_connection_arc-SameBoxes : (k : ℕ) (w : World P) → SameBoxes w (drop_connection_arc k w)
  unfolding drop_connection_arc drop_connection
  drop_connection_arc-SameBoxes k w = (ground arith, ground arith)

  pub drop_connection_arc-IsCounted :
      (k : ℕ) (refs refs' : ℕ → ℕ) (w : World P)
      → ((j : ℕ) → refs' j + one j (some k) ≡ refs j)
      → IsCounted refs w
      → IsCounted refs' (drop_connection_arc k w)
  drop_connection_arc-IsCounted k refs refs' w h i =
      let (b, n) = drop_connection_arc-SameBoxes k w in
      let held : 0 < strong_of k w = ground (arith, i.counted k, h k) in
      let s : (j : ℕ) → strong_of j (drop_connection_arc k w) + one j (some k) ≡ strong_of j w =
        λ j. drop_connection_arc-strong k j w i.positive held in
      record {
        counted = λ j. rw b (omega (arith, s j, i.counted j, h j));
        positive = drop_connection_arc-AllReferred k w i.positive;
        apart = rw b i.apart;
        fresh_cell = λ j l. omega (arith, s j, i.fresh_cell j (rw n at l));
        fresh_box = λ p l. rw b (i.fresh_box p (rw n at l));
      }

  -- An `Arc` that is held has a number that is used up.
  held-below :
      (refs : ℕ → ℕ) (k : ℕ) (w : World P) → IsCounted refs w → 0 < strong_of k w → k < w.next_id
  held-below refs k w i a = ground (arith, i.fresh_cell k, a)

  -- An `Arc` that is held is cloned.
  clone_arc-IsCounted :
      (k : ℕ) (refs refs' : ℕ → ℕ) (w : World P)
      → ((j : ℕ) → refs' j ≡ refs j + one j (some k))
      → 0 < strong_of k w
      → IsCounted refs w
      → IsCounted refs' (record w { connections = clone_arc k w.connections })
  unfolding clone_arc
  clone_arc-IsCounted k refs refs' w h a i = elim (Option-cases (lookup k w.connections)) [
    | inl e ↦ absurd (let z : 0 < strong_in {A = ConnectionImpl P} none = rw e at a in omega arith)
    | inr (c, e) ↦
        let v = record w {
          connections = insert k (record c { strong = c.strong + 1 }) w.connections;
        } in
        let s : (j : ℕ) → strong_of j v ≡ strong_of j w + one j (some k) = λ j.
          elim (Bool-cases (k == j)) [
            | inl q ↦
                rw
                  (
                    lookup-insert j k (record c { strong = c.strong + 1 }) w.connections,
                    q,
                    sym ((==_iff k j).0 q),
                    e,
                  )
                  refl
            | inr q ↦
                rw (lookup-insert j k (record c { strong = c.strong + 1 }) w.connections, q)
                  (omega arith)
          ] in
        rw (e, clone_arc)
          (record {
            counted = λ j. omega (arith, s j, i.counted j, h j);
            positive =
                insert-Every IsPositive k (record c { strong = c.strong + 1 }) w.connections
                  (omega arith) i.positive;
            apart = i.apart;
            fresh_cell = λ j l. ground (arith, s j, i.fresh_cell j l, held-below refs k w i a);
            fresh_box = i.fresh_box;
          })
  ]

  -- A connection is put into an `Arc`, and the `Arc` into a box.
  pub new_connection_handle-IsCounted :
      (c : ConnectionImpl P) (refs : ℕ → ℕ) → Preserves (IsCounted refs) (new_connection_handle c)
  unfolding new_connection_handle
  new_connection_handle-IsCounted c refs w i =
      let k = w.next_id in
      let n : lookup (k + 1) w.connection_boxes ≡ none = i.fresh_box (k + 1) (omega arith) in
      let o : (j : ℕ)
          → occurs j (insert (k + 1) k w.connection_boxes)
            ≡ occurs j w.connection_boxes + one j (some k) =
        λ j. occurs-insert_new j (k + 1) k w.connection_boxes n in
      let s : (j : ℕ)
          → strong_in (lookup j (insert k (new_shared c) w.connections))
            ≡ strong_of j w + one j (some k) =
        λ j. elim (Bool-cases (k == j)) [
          | inl q ↦
              rw (lookup-insert j k (new_shared c) w.connections, q)
                (omega (arith, i.fresh_cell j (ground (arith, (==_iff k j).0 q))))
          | inr q ↦ rw (lookup-insert j k (new_shared c) w.connections, q) (omega arith)
        ] in
      record {
        counted = λ j. omega (arith, s j, i.counted j, o j);
        positive = insert-Every IsPositive k (new_shared c) w.connections (omega arith) i.positive;
        apart = KeysApart-insert (k + 1) k w.connection_boxes i.apart;
        fresh_cell = λ j l. ground (arith, s j, i.fresh_cell j);
        fresh_box =
            λ p l. ground (arith, lookup-insert p (k + 1) k w.connection_boxes, i.fresh_box p);
      }

  pub clone_connection-IsCounted :
      (p k : ℕ) (refs refs' : ℕ → ℕ) (w : World P)
      → lookup p w.connection_boxes ≡ some k
      → ((j : ℕ) → refs' j ≡ refs j + one j (some k))
      → IsCounted refs w
      → IsCounted refs' (clone_connection p w).1
  unfolding clone_connection deref_connection
  clone_connection-IsCounted p k refs refs' w b h i =
      let held : 0 < strong_of k w =
        omega (arith, i.counted k, lookup-occurs p k w.connection_boxes b) in
      rw (b, clone_connection) (clone_arc-IsCounted k refs refs' w h held i)

  -- A box is freed, and its `Arc` dropped. Where no box is, nothing changes.
  pub dealloc_connection-IsCounted :
      (p : ℕ) (refs : ℕ → ℕ) → Preserves (IsCounted {P = P} refs) (dealloc_connection p)
  unfolding dealloc_connection deref_connection
  dealloc_connection-IsCounted p refs w i = elim (Option-cases (lookup p w.connection_boxes)) [
    | inl e ↦ rw (e, dealloc_connection) i
    | inr (k, e) ↦
        rw (e, dealloc_connection)
          (drop_connection_arc-IsCounted k (λ j. refs j + one j (some k)) refs
            (record w { connection_boxes = erase p w.connection_boxes }) (λ j. refl)
            (record {
              counted = λ j.
                  omega (arith, i.counted j, occurs-erase_entry j p k w.connection_boxes i.apart e);
              positive = i.positive;
              apart = KeysApart-erase p w.connection_boxes i.apart;
              fresh_cell = i.fresh_cell;
              fresh_box =
                  λ q l. ground (arith, lookup-erase q p w.connection_boxes, i.fresh_box q l);
            }))
  ]

  -- The numbers of references can be given in another form.
  pub IsCounted-ext :
      (refs refs' : ℕ → ℕ) (w : World P)
      → ((j : ℕ) → refs' j ≡ refs j)
      → IsCounted refs w
      → IsCounted refs' w
  IsCounted-ext refs refs' w h i = record {
    counted = λ j. omega (arith, i.counted j, h j);
    positive = i.positive;
    apart = i.apart;
    fresh_cell = i.fresh_cell;
    fresh_box = i.fresh_box;
  }

  pub drop_connection_arcs-IsCounted :
      (d : Dict ℕ) (refs refs' : ℕ → ℕ) (w : World P)
      → ((j : ℕ) → refs' j + occurs j d ≡ refs j)
      → IsCounted refs w
      → IsCounted refs' (drop_connection_arcs d w)
  unfolding drop_connection_arcs occurs
  drop_connection_arcs-IsCounted [] refs refs' w h i =
      IsCounted-ext refs refs' w (λ j. omega (arith, h j)) i
  drop_connection_arcs-IsCounted ((handle, k) ∷ d) refs refs' w h i =
      let rest : ℕ → ℕ = λ j. refs' j + occurs j d in
      drop_connection_arcs-IsCounted d rest refs' (drop_connection_arc k w) (λ j. refl)
        (drop_connection_arc-IsCounted k refs rest w (λ j. omega (arith, h j)) i)
