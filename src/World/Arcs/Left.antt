-- ===== src/World/Arcs/Left.antt =====
-- Code that neither makes nor drops a reference to a connection.
use quinn_ffi.Prelude.{
  ℕ, ◌<◌, ◌≤◌, ◌≡◌, refl, sym, ◌∙◌, Option, none, some, Bool-cases, inl, inr, lookup, insert,
  lookup-insert, ◌==◌, ==_iff, subst, arith,
}
use quinn_ffi.Proto.{Proto}
use quinn_ffi.World.{World, Shared, ConnectionImpl}
use quinn_ffi.World.Arcs.Counts.{strong_in, strong_of}
use quinn_ffi.World.Arcs.Counted.{IsCounted}

-- The count of a cell, if it is there.
abbrev pub count : {A : Type 0} → Option (Shared A) → Option ℕ
count none = none
count (some c) = some c.strong

count-strong :
    {A : Type 0} (o o' : Option (Shared A)) → count o ≡ count o' → strong_in o ≡ strong_in o'
count-strong none none h = refl
count-strong none (some c') h = cc
count-strong (some c) none h = cc
count-strong (some c) (some c') h = cc

count-positive :
    {A : Type 0} (o o' : Option (Shared A)) (c : Shared A)
    → ((c' : Shared A) → o' ≡ some c' → 0 < c'.strong)
    → count o ≡ count o'
    → o ≡ some c
    → 0 < c.strong
count-positive o none c p h q =
    let z : count (some c) ≡ none = subst (λ x. count x ≡ none) q h in cc
count-positive o (some c') c p h q =
    let z : count (some c) ≡ some c'.strong = subst (λ x. count x ≡ some c'.strong) q h in
    let y : c.strong ≡ c'.strong = cc in omega (arith, y, p c' refl)

module _ {P : Proto} where
  -- Code that leaves the boxes, the endpoints and the counts of the cells as they are, and uses up no number
  -- twice.
  pub record Leaves (w w' : World P) : Type 0 where
    pub boxes : w'.connection_boxes ≡ w.connection_boxes
    pub next : w.next_id ≤ w'.next_id
    pub endpoints : w'.endpoints ≡ w.endpoints
    pub counts : (k : ℕ) → count (lookup k w'.connections) ≡ count (lookup k w.connections)

  Leaves-strong : (w w' : World P) → Leaves w w' → (k : ℕ) → strong_of k w' ≡ strong_of k w
  Leaves-strong w w' l k = count-strong _ _ (l.counts k)

  pub Leaves-IsCounted :
      (refs : ℕ → ℕ) (w w' : World P) → Leaves w w' → IsCounted refs w → IsCounted refs w'
  Leaves-IsCounted refs w w' l i = record {
    counted = λ k. rw l.boxes (Leaves-strong w w' l k ∙ i.counted k);
    positive = λ k c h.
        count-positive (lookup k w'.connections) (lookup k w.connections) c (i.positive k)
          (l.counts k) h;
    apart = rw l.boxes i.apart;
    fresh_cell = λ k h. Leaves-strong w w' l k ∙ i.fresh_cell k (omega (arith, l.next));
    fresh_box = λ p h. rw l.boxes (i.fresh_box p (omega (arith, l.next)));
  }

  pub Leaves-refl : (w : World P) → Leaves w w
  Leaves-refl w = record { boxes = refl; next = omega arith; endpoints = refl; counts = λ k. refl }

  -- The cells are as they were.
  pub Leaves-same :
      (w w' w'' : World P)
      → w''.connections ≡ w'.connections
      → w''.connection_boxes ≡ w'.connection_boxes
      → w'.next_id ≤ w''.next_id
      → w''.endpoints ≡ w'.endpoints
      → Leaves w w'
      → Leaves w w''
  Leaves-same w w' w'' c b n d l = record {
    endpoints = d ∙ l.endpoints;
    boxes = b ∙ l.boxes;
    next = omega (arith, l.next);
    counts = λ k. rw c (l.counts k);
  }

  -- A cell is replaced by one with the same count.
  pub Leaves-writes :
      (w₀ : World P) (k : ℕ) (c c' : Shared (ConnectionImpl P)) (w : World P)
      → lookup k w.connections ≡ some c
      → c'.strong ≡ c.strong
      → Leaves w₀ w
      → Leaves w₀ (record w { connections = insert k c' w.connections })
  Leaves-writes w₀ k c c' w e s l = record {
    endpoints = l.endpoints;
    boxes = l.boxes;
    next = l.next;
    counts = λ j. elim (Bool-cases (k == j)) [
      | inl q ↦
          rw (lookup-insert j k c' w.connections, q, s, sym (l.counts j), sym ((==_iff k j).0 q), e)
            refl
      | inr q ↦ rw (lookup-insert j k c' w.connections, q) (l.counts j)
    ];
  }
