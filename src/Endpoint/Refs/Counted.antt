-- ===== src/Endpoint/Refs/Counted.antt =====
-- The references to connections that an endpoint's methods, and the boxes of handles, come and go with.
use quinn_ffi.Prelude.{
  ℕ, ◌+◌, ◌≡◌, ◌≤◌, ◌∙◌, refl, Option, none, some, [], ◌∷◌, Dict, lookup, insert, erase, arith,
}
use quinn_ffi.Effect.{lift, modify, ◌>>◌}
use quinn_ffi.Effect.Laws.{Preserves, >>=-Preserves}
use quinn_ffi.Proto.{Proto}
use quinn_ffi.World.{World, Shared, EndpointImpl}
use quinn_ffi.World.Arcs.Counts.{
  one, occurs, KeysApart, occurs-insert, occurs-erase, KeysApart-insert, KeysApart-erase,
}
use quinn_ffi.World.Arcs.Left.{Leaves, Leaves-IsCounted}
use quinn_ffi.World.Arcs.Counted.{
  IsCounted, drop_connection_arc-SameBoxes, IsCounted-ext, drop_connection_arc-IsCounted,
  drop_connection_arcs-IsCounted,
}
use quinn_ffi.Sending.{send_notice}
use quinn_ffi.World.Arcs.{drop_connection_arc, drop_connection_arcs}
use quinn_ffi.Endpoint.{Endp, remove_sender, drop_connection_sender}
use quinn_ffi.Endpoint.Refs.Closed.{
  drop_connection_arc-SameEndpoints, drop_connection_arcs-SameEndpoints,
}
use quinn_ffi.Endpoint.Refs.{
  drop_ref, drop_senders, send_exit, register_pollable_connection, remove_ref, remove_connection,
  close,
}

-- What stays outside an endpoint while its methods run: the references that others hold, and the cells of
-- the endpoints, its own with what it held before; and the number up to which numbers are used up.
pub record Outside (P : Proto) : Type 0 where
  pub refs : ℕ → ℕ
  pub endpoints : Dict (Shared (EndpointImpl P))
  pub next : ℕ

module _ {P : Proto} (other : Outside P) where
  -- What refers to a connection is the boxes, the map of the endpoint, and `other`.
  abbrev pub references : EndpointImpl P → ℕ → ℕ
  references e j = occurs j e.connection_refs + other.refs j

  pub record AreCounted (s : EndpointImpl P × World P) : Type 0 where
    pub shared : IsCounted (references s.0) s.1
    pub refs_apart : KeysApart s.0.connection_refs
    pub cells_same : s.1.endpoints ≡ other.endpoints
    pub later : other.next ≤ s.1.next_id

module _ {P : Proto} where
  drop_ref-IsCounted :
      (o : Option ℕ) (refs refs' : ℕ → ℕ) (w : World P)
      → ((j : ℕ) → refs' j + one j o ≡ refs j)
      → IsCounted refs w
      → IsCounted refs' (drop_ref o w)
  unfolding drop_ref
  drop_ref-IsCounted none refs refs' w h i = IsCounted-ext refs refs' w (λ j. omega (arith, h j)) i
  drop_ref-IsCounted (some k) refs refs' w h i = drop_connection_arc-IsCounted k refs refs' w h i

  drop_ref-endpoints : (o : Option ℕ) (w : World P) → (drop_ref o w).endpoints ≡ w.endpoints
  unfolding drop_ref
  drop_ref-endpoints none w = refl
  drop_ref-endpoints (some k) w = (drop_connection_arc-SameEndpoints k w).1

  drop_ref-next : (o : Option ℕ) (w : World P) → (drop_ref o w).next_id ≡ w.next_id
  unfolding drop_ref
  drop_ref-next none w = refl
  drop_ref-next (some k) w = (drop_connection_arc-SameBoxes k w).1

  pub drop_connection_arcs-next :
      (d : Dict ℕ) (w : World P) → (drop_connection_arcs d w).next_id ≡ w.next_id
  unfolding drop_connection_arcs
  drop_connection_arcs-next [] w = refl
  drop_connection_arcs-next ((handle, k) ∷ d) w =
      drop_connection_arcs-next d (drop_connection_arc k w) ∙ (drop_connection_arc-SameBoxes k w).1

  -- The connection of a box is registered.
  pub register-AreCounted :
      (other : Outside P) (handle k : ℕ) (e : EndpointImpl P) (w : World P)
      → IsCounted (λ j. references other e j + one j (some k)) w
      → KeysApart e.connection_refs
      → w.endpoints ≡ other.endpoints
      → other.next ≤ w.next_id
      → AreCounted other (register_pollable_connection handle k (e, w)).1
  unfolding register_pollable_connection
  register-AreCounted other handle k e w i a c l = record {
    shared =
        drop_ref-IsCounted (lookup handle e.connection_refs)
          (λ j. references other e j + one j (some k))
          (references other (record e { connection_refs = insert handle k e.connection_refs })) w
          (λ j. omega (arith, occurs-insert j handle k e.connection_refs)) i;
    refs_apart = KeysApart-insert handle k e.connection_refs a;
    cells_same = drop_ref-endpoints (lookup handle e.connection_refs) w ∙ c;
    later = rw (drop_ref-next (lookup handle e.connection_refs) w) l;
  }

  remove_ref-AreCounted :
      (other : Outside P) (handle : ℕ) → Preserves (AreCounted {P = P} other) (remove_ref handle)
  unfolding remove_ref
  remove_ref-AreCounted other handle (e, w) i = record {
    shared =
        drop_ref-IsCounted (lookup handle e.connection_refs) (references other e)
          (references other (record e { connection_refs = erase handle e.connection_refs })) w
          (λ j. omega (arith, occurs-erase j handle e.connection_refs i.refs_apart)) i.shared;
    refs_apart = KeysApart-erase handle e.connection_refs i.refs_apart;
    cells_same = drop_ref-endpoints (lookup handle e.connection_refs) w ∙ i.cells_same;
    later = rw (drop_ref-next (lookup handle e.connection_refs) w) i.later;
  }

  -- The map and the counts are as they were.
  pub Leaves-AreCounted :
      (other : Outside P) (e e' : EndpointImpl P) (w w' : World P)
      → e'.connection_refs ≡ e.connection_refs
      → Leaves w w'
      → AreCounted other (e, w)
      → AreCounted other (e', w')
  Leaves-AreCounted other e e' w w' r l i = record {
    shared =
        IsCounted-ext (references other e) (references other e') w' (λ j. rw r refl)
          (Leaves-IsCounted (references other e) w w' l i.shared);
    refs_apart = rw r i.refs_apart;
    cells_same = l.endpoints ∙ i.cells_same;
    later = omega (arith, i.later, l.next);
  }

  pub remove_sender-AreCounted :
      (other : Outside P) (handle : ℕ) → Preserves (AreCounted {P = P} other) (remove_sender handle)
  unfolding remove_sender drop_connection_sender
  remove_sender-AreCounted other handle (e, w) i =
      Leaves-AreCounted other e (remove_sender handle (e, w)).1.0 w
        (remove_sender handle (e, w)).1.1 refl
        (record {
          boxes = ground arith;
          next = ground arith;
          endpoints = ground arith;
          counts = λ k. ground arith;
        })
        i

  pub remove_connection-AreCounted :
      (other : Outside P) (handle : ℕ)
      → Preserves (AreCounted {P = P} other) (remove_connection handle)
  unfolding remove_connection
  remove_connection-AreCounted other handle =
      >>=-Preserves (AreCounted {P = P} other) (remove_ref handle) (λ _. remove_sender handle)
        (remove_ref-AreCounted other handle) (λ _. remove_sender-AreCounted other handle)

  pub drop_senders-Leaves : (d : Dict ℕ) (w : World P) → Leaves w (drop_senders d w)
  unfolding drop_senders drop_connection_sender
  drop_senders-Leaves [] w = record {
    boxes = refl;
    next = omega arith;
    endpoints = refl;
    counts = λ k. refl;
  }
  drop_senders-Leaves ((handle, k) ∷ d) w =
      let l = drop_senders-Leaves d (drop_connection_sender (some k) w) in
      record { boxes = l.boxes; next = l.next; endpoints = l.endpoints; counts = l.counts }

  send_exit-AreCounted :
      (other : Outside P) (o : Option ℕ) → Preserves (AreCounted {P = P} other) (lift (send_exit o))
  unfolding send_exit send_notice
  send_exit-AreCounted other none (e, w) i = i
  send_exit-AreCounted other (some k) (e, w) i =
      Leaves-AreCounted other e e w (lift {R = EndpointImpl P} (send_exit (some k)) (e, w)).1.1 refl
        (record {
          boxes = ground arith;
          next = ground arith;
          endpoints = ground arith;
          counts = λ j. ground arith;
        })
        i

  -- Both maps are dropped.
  abbrev clear_senders : Endp P (Unit {0})
  clear_senders = modify λ s. (record s.0 { connections = [] }, drop_senders s.0.connections s.1)

  abbrev clear_refs : Endp P (Unit {0})
  clear_refs =
      modify
        λ s. (record s.0 { connection_refs = [] }, drop_connection_arcs s.0.connection_refs s.1)

  clear_senders-AreCounted :
      (other : Outside P) → Preserves (AreCounted {P = P} other) clear_senders
  clear_senders-AreCounted other (e, w) i =
      Leaves-AreCounted other e (record e { connections = [] }) w (drop_senders e.connections w)
        refl (drop_senders-Leaves e.connections w) i

  clear_refs-AreCounted : (other : Outside P) → Preserves (AreCounted {P = P} other) clear_refs
  unfolding occurs
  clear_refs-AreCounted other (e, w) i = record {
    shared =
        drop_connection_arcs-IsCounted e.connection_refs (references other e)
          (references other (record e { connection_refs = [] })) w (λ j. omega arith) i.shared;
    refs_apart = tt;
    cells_same = (drop_connection_arcs-SameEndpoints e.connection_refs w).1 ∙ i.cells_same;
    later = rw (drop_connection_arcs-next e.connection_refs w) i.later;
  }

  pub close-AreCounted : (other : Outside P) → Preserves (AreCounted {P = P} other) close
  unfolding close
  close-AreCounted other s =
      >>=-Preserves (AreCounted {P = P} other) (lift (send_exit s.0.endpoint_poll_notifier))
        (λ _. clear_senders >> clear_refs) (send_exit-AreCounted other s.0.endpoint_poll_notifier)
        (λ _.
          >>=-Preserves (AreCounted {P = P} other) clear_senders (λ _. clear_refs)
            (clear_senders-AreCounted other) (λ _. clear_refs-AreCounted other))
        s
