-- ===== src/Handle/Counted.antt =====
-- The counts of the connections' `Arc`s in the whole shared state.
pub mod Locked
use quinn_ffi.Prelude.{
  ℕ, ◌+◌, ◌-◌, ◌≤◌, ◌≡◌, refl, sym, subst, ◌∙◌, Option, none, some, Option-cases, Bool-cases, inl,
  inr, true, [], ◌∷◌, Dict, lookup, insert, erase, arith, ◌==◌, ==_iff, lookup-insert_self,
  lookup-insert,
}
use quinn_ffi.Effect.{M, Exit}
use quinn_ffi.Effect.Laws.{Preserves}
use quinn_ffi.Proto.{Proto}
use quinn_ffi.World.{World, Shared, EndpointImpl}
use quinn_ffi.World.Arcs.Counts.{occurs, KeysApart, KeysApart-insert, Every, insert-Every}
use quinn_ffi.World.Arcs.Left.{Leaves, Leaves-refl, Leaves-writes, Leaves-IsCounted}
use quinn_ffi.World.Mutex.Locked.{locked-Preserves}
use quinn_ffi.Connection.{Conn}
use quinn_ffi.World.Arcs.Counted.{
  IsCounted, IsCounted-ext, drop_connection_arc-SameBoxes, dealloc_connection-IsCounted,
}
use quinn_ffi.Endpoint.Refs.Closed.{drop_connection_arc-SameEndpoints}
use quinn_ffi.World.Mutex.{with_lock, with_try_lock, guarded, settle, release}
use quinn_ffi.World.Mutex.Laws.{
  with_lock-none, with_lock-guarded, with_lock-locked, with_lock-poisoned, with_try_lock-none,
  with_try_lock-locked, with_try_lock-poisoned, with_try_lock-guarded,
}
use quinn_ffi.Endpoint.{Endp, connection_cells, put_connection_cells}
use quinn_ffi.Endpoint.Refs.Counted.{Outside, references, AreCounted}
use quinn_ffi.Handle.{
  endpoint_cells, put_endpoint_cells, endpoint_access, deref_endpoint, connection_access,
  deref_connection, dealloc_connection,
}

module _ {P : Proto} where
  -- How often an endpoint knows the `Arc`.
  abbrev pub known_by : ℕ → Shared (EndpointImpl P) → ℕ
  known_by j c = occurs j c.value.connection_refs

  abbrev known_at : ℕ → Option (Shared (EndpointImpl P)) → ℕ
  known_at j none = 0
  known_at j (some c) = known_by j c

  -- How often the endpoints know the `Arc`, together.
  unfoldable pub known : ℕ → Dict (Shared (EndpointImpl P)) → ℕ
  known j [] = 0
  known j ((k, c) ∷ d) = known_by j c + known j d

  pub known-insert :
      (j h : ℕ) (c : Shared (EndpointImpl P)) (d : Dict (Shared (EndpointImpl P)))
      → known j (insert h c d) + known_at j (lookup h d) ≡ known j d + known_by j c
  unfolding known insert lookup
  known-insert j h c [] = omega arith
  known-insert j h c ((k, b) ∷ d) = elim (Bool-cases (k == h)) [
    | inl e ↦ rw e (omega arith)
    | inr e ↦ rw e (omega (arith, known-insert j h c d))
  ]

  known-erase_missing :
      (j h : ℕ) (d : Dict (Shared (EndpointImpl P)))
      → lookup h d ≡ none
      → known j (erase h d) ≡ known j d
  unfolding known erase lookup
  known-erase_missing j h [] n = refl
  known-erase_missing j h ((k, b) ∷ d) n = elim (Bool-cases (k == h)) [
    | inl e ↦ let no : some b ≡ none = rw e at n in cc
    | inr e ↦ rw e (omega (arith, known-erase_missing j h d (rw e at n)))
  ]

  pub known-erase :
      (j h : ℕ) (c : Shared (EndpointImpl P)) (d : Dict (Shared (EndpointImpl P)))
      → KeysApart d
      → lookup h d ≡ some c
      → known j (erase h d) + known_by j c ≡ known j d
  unfolding known erase lookup
  known-erase j h c [] a l = cc
  known-erase j h c ((k, b) ∷ d) a l = elim (Bool-cases (k == h)) [
    | inl e ↦
        let q : some b ≡ some c = rw e at l in
        let n : lookup h d ≡ none = subst (λ i. lookup i d ≡ none) ((==_iff k h).0 e) a.0 in
        rw e (ground (arith, known-erase_missing j h d n))
    | inr e ↦ rw e (omega (arith, known-erase j h c d a.1 (rw e at l)))
  ]

  -- A cell is replaced.
  pub known-replace :
      (j h : ℕ) (b c : Shared (EndpointImpl P)) (d : Dict (Shared (EndpointImpl P)))
      → lookup h d ≡ some b
      → known j (insert h c d) + known_by j b ≡ known j d + known_by j c
  known-replace j h b c d l = rw l at (known-insert j h c d)

  abbrev pub RefsApart : Shared (EndpointImpl P) → Type 0
  RefsApart c = KeysApart c.value.connection_refs

  -- Each `Arc` counts the boxes with it and the handles by which endpoints know it.
  pub record IsAccounted (w : World P) : Type 0 where
    pub counted : IsCounted (λ j. known j w.endpoints) w
    pub cells_apart : KeysApart w.endpoints
    pub refs_apart : Every RefsApart w.endpoints
    pub fresh_cell : (k : ℕ) → w.next_id ≤ k → lookup k w.endpoints ≡ none

  -- A key that is not there stays so when another is written.
  pub absent-insert :
      (j h : ℕ) (b c : Shared (EndpointImpl P)) (d : Dict (Shared (EndpointImpl P)))
      → lookup h d ≡ some b
      → lookup j d ≡ none
      → lookup j (insert h c d) ≡ none
  absent-insert j h b c d l n = elim (Bool-cases (h == j)) [
    | inl e ↦ absurd (
        let q : lookup h d ≡ none = rw (sym ((==_iff h j).0 e)) at n in
        let z : some b ≡ none = sym l ∙ q in cc)
    | inr e ↦ rw (lookup-insert j h c d, e) n
  ]

  pub known-at :
      (j h : ℕ) (c : Shared (EndpointImpl P)) (d : Dict (Shared (EndpointImpl P)))
      → lookup h d ≡ some c
      → known_by j c ≤ known j d
  unfolding known lookup
  known-at j h c [] l = cc
  known-at j h c ((k, b) ∷ d) l = elim (Bool-cases (k == h)) [
    | inl e ↦ let q : some b ≡ some c = rw e at l in ground arith
    | inr e ↦ omega (arith, known-at j h c d (rw e at l))
  ]

  -- The counts do not hang on the endpoints.
  pub IsCounted-cells :
      (refs : ℕ → ℕ) (w : World P) (d : Dict (Shared (EndpointImpl P)))
      → IsCounted refs w
      → IsCounted refs (record w { endpoints = d })
  IsCounted-cells refs w d i = record {
    counted = i.counted;
    positive = i.positive;
    apart = i.apart;
    fresh_cell = i.fresh_cell;
    fresh_box = i.fresh_box;
  }

  -- Other code, that makes and drops no reference.
  pub Leaves-IsAccounted : (w w' : World P) → Leaves w w' → IsAccounted w → IsAccounted w'
  Leaves-IsAccounted w w' l i = record {
    counted =
        IsCounted-ext (λ j. known j w.endpoints) (λ j. known j w'.endpoints) w'
          (λ j. rw l.endpoints refl) (Leaves-IsCounted (λ j. known j w.endpoints) w w' l i.counted);
    cells_apart = rw l.endpoints i.cells_apart;
    refs_apart = rw l.endpoints i.refs_apart;
    fresh_cell = λ k n. rw l.endpoints (i.fresh_cell k (omega (arith, l.next)));
  }

  -- The endpoints are as they were, and what refers to connections besides still counts.
  counted-IsAccounted :
      (w w' : World P)
      → w'.endpoints ≡ w.endpoints
      → w.next_id ≤ w'.next_id
      → IsCounted (λ j. known j w.endpoints) w'
      → IsAccounted w
      → IsAccounted w'
  counted-IsAccounted w w' d n c i = record {
    counted =
        IsCounted-ext (λ j. known j w.endpoints) (λ j. known j w'.endpoints) w' (λ j. rw d refl) c;
    cells_apart = rw d i.cells_apart;
    refs_apart = rw d i.refs_apart;
    fresh_cell = λ k l. rw d (i.fresh_cell k (omega arith));
  }

  dealloc_connection-same :
      (p : ℕ) (w : World P)
      → ((dealloc_connection p w).1.endpoints ≡ w.endpoints)
        × ((dealloc_connection p w).1.next_id ≡ w.next_id)
  unfolding dealloc_connection deref_connection
  dealloc_connection-same p w = elim (Option-cases (lookup p w.connection_boxes)) [
    | inl e ↦ rw (e, dealloc_connection) (refl, refl)
    | inr (k, e) ↦
        let v : World P = record w { connection_boxes = erase p w.connection_boxes } in
        rw (e, dealloc_connection)
          ((drop_connection_arc-SameEndpoints k v).1, (drop_connection_arc-SameBoxes k v).1)
  ]

  -- A box is freed, whether it is there or not.
  pub dealloc_connection-IsAccounted : (p : ℕ) → Preserves IsAccounted (dealloc_connection p)
  dealloc_connection-IsAccounted p w i =
      let (d, n) = dealloc_connection-same p w in
      counted-IsAccounted w (dealloc_connection p w).1 d (omega arith)
        (dealloc_connection-IsCounted p (λ j. known j w.endpoints) w i.counted) i
