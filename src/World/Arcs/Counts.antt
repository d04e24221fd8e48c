-- ===== src/World/Arcs/Counts.antt =====
-- How often a number stands in a finite map, and the count of an `Arc`.
use quinn_ffi.Prelude.{
  ℕ, ◌+◌, ◌-◌, ◌<◌, ◌≡◌, refl, sym, Option, none, some, Bool-cases, Option-cases, inl, inr, [], ◌∷◌,
  Dict, lookup, insert, erase, true, lookup-insert, lookup-erase, ◌==◌, ==_iff, subst,
  if◌then◌else◌, arith,
}
use quinn_ffi.Proto.{Proto}
use quinn_ffi.World.{World, Shared, ConnectionImpl}
use quinn_ffi.World.Arcs.{drop_connection, drop_connection_arc}

abbrev pub one : ℕ → Option ℕ → ℕ
one k none = 0
one k (some v) = if v == k then 1 else 0

-- The entries with the value `k`.
unfoldable pub occurs : ℕ → Dict ℕ → ℕ
occurs k [] = 0
occurs k ((j, v) ∷ d) = one k (some v) + occurs k d

-- No key stands twice.
abbrev pub KeysApart : {V : Type 0} → Dict V → Type 0
KeysApart [] = Unit {0}
KeysApart ((j, v) ∷ d) = (lookup j d ≡ none) × KeysApart d

pub occurs-insert :
    (k h v : ℕ) (d : Dict ℕ)
    → occurs k (insert h v d) + one k (lookup h d) ≡ occurs k d + one k (some v)
unfolding occurs insert lookup
occurs-insert k h v [] = omega arith
occurs-insert k h v ((j, u) ∷ d) = elim (Bool-cases (j == h)) [
  | inl e ↦ rw e (omega arith)
  | inr e ↦ rw e (omega (arith, occurs-insert k h v d))
]

occurs-erase_missing :
    (k h : ℕ) (d : Dict ℕ) → lookup h d ≡ none → occurs k (erase h d) ≡ occurs k d
unfolding occurs erase lookup
occurs-erase_missing k h [] n = refl
occurs-erase_missing k h ((j, u) ∷ d) n = elim (Bool-cases (j == h)) [
  | inl e ↦ let no : some u ≡ none = rw e at n in cc
  | inr e ↦ rw e (omega (arith, occurs-erase_missing k h d (rw e at n)))
]

same : {V : Type 0} (j h : ℕ) (d : Dict V) → (j == h) ≡ true → lookup j d ≡ none → lookup h d ≡ none
same j h d e n = subst (λ i. lookup i d ≡ none) ((==_iff j h).0 e) n

pub occurs-erase :
    (k h : ℕ) (d : Dict ℕ) → KeysApart d → occurs k (erase h d) + one k (lookup h d) ≡ occurs k d
unfolding occurs erase lookup
occurs-erase k h [] a = omega arith
occurs-erase k h ((j, u) ∷ d) a = elim (Bool-cases (j == h)) [
  | inl e ↦ rw e (omega (arith, occurs-erase_missing k h d (same j h d e a.0)))
  | inr e ↦ rw e (omega (arith, occurs-erase k h d a.1))
]

pub KeysApart-insert :
    {V : Type 0} (h : ℕ) (v : V) (d : Dict V) → KeysApart d → KeysApart (insert h v d)
unfolding insert lookup
KeysApart-insert h v [] a = (refl, tt)
KeysApart-insert h v ((j, u) ∷ d) a = elim (Bool-cases (j == h)) [
  | inl e ↦ rw e (same j h d e a.0, a.1)
  | inr e ↦ rw e (ground (arith, lookup-insert j h v d, a.0), KeysApart-insert h v d a.1)
]

pub KeysApart-erase : {V : Type 0} (h : ℕ) (d : Dict V) → KeysApart d → KeysApart (erase h d)
unfolding erase
KeysApart-erase h [] a = tt
KeysApart-erase h ((j, u) ∷ d) a = elim (Bool-cases (j == h)) [
  | inl e ↦ rw e (KeysApart-erase h d a.1)
  | inr e ↦ rw e (ground (arith, lookup-erase j h d, a.0), KeysApart-erase h d a.1)
]

-- A key with the value shows it.
pub lookup-occurs : (h k : ℕ) (d : Dict ℕ) → lookup h d ≡ some k → 0 < occurs k d
unfolding occurs lookup
lookup-occurs h k [] q = cc
lookup-occurs h k ((j, u) ∷ d) q = elim (Bool-cases (j == h)) [
  | inl e ↦ let q' : some u ≡ some k = rw e at q in ground arith
  | inr e ↦ omega (arith, lookup-occurs h k d (rw e at q))
]

-- How often a cell is referred to; 0 if it is gone.
abbrev pub strong_in : {A : Type 0} → Option (Shared A) → ℕ
strong_in none = 0
strong_in (some c) = c.strong

-- Each value of a map has the property.
abbrev pub Every : {V : Type 0} → (V → Type 0) → Dict V → Type 0
Every {V} Q d = (k : ℕ) (v : V) → lookup k d ≡ some v → Q v

module _ {V : Type 0} (Q : V → Type 0) where
  abbrev IfSome : Option V → Type 0
  IfSome none = Unit {0}
  IfSome (some v) = Q v

  pub insert-Every : (h : ℕ) (v : V) (d : Dict V) → Q v → Every Q d → Every Q (insert h v d)
  insert-Every h v d p a j v' l = elim (Bool-cases (h == j)) [
    | inl e ↦ let q : some v ≡ some v' = rw (lookup-insert j h v d, e) at l in subst IfSome q p
    | inr e ↦ a j v' (rw (lookup-insert j h v d, e) at l)
  ]

  pub erase-Every : (h : ℕ) (d : Dict V) → Every Q d → Every Q (erase h d)
  erase-Every h d a j v' l = elim (Bool-cases (h == j)) [
    | inl e ↦ let q : none ≡ some v' = rw (lookup-erase j h d, e) at l in cc
    | inr e ↦ a j v' (rw (lookup-erase j h d, e) at l)
  ]

-- A cell that is there is referred to.
abbrev pub IsPositive : {A : Type 0} → Shared A → Type 0
IsPositive c = 0 < c.strong

module _ {P : Proto} where
  abbrev pub strong_of : ℕ → World P → ℕ
  strong_of k w = strong_in (lookup k w.connections)

  abbrev pub AllReferred : World P → Type 0
  AllReferred w = Every IsPositive w.connections

  drop_strong :
      (k j : ℕ) (w : World P) (c : Shared (ConnectionImpl P))
      → lookup k w.connections ≡ some c
      → 0 < c.strong
      → strong_in (
            lookup j (
              if c.strong == 1
              then erase k w.connections
              else insert k (record c { strong = c.strong - 1 }) w.connections))
          + one j (some k)
        ≡ strong_of j w
  drop_strong k j w c e h = elim (Bool-cases (c.strong == 1)) [
    | inl o ↦ elim (Bool-cases (k == j)) [
      | inl q ↦ rw (o, lookup-erase j k w.connections, q, sym ((==_iff k j).0 q), e) (ground arith)
      | inr q ↦ rw (o, lookup-erase j k w.connections, q) (ground arith)
    ]
    | inr o ↦ elim (Bool-cases (k == j)) [
      | inl q ↦
          rw
            (
              o,
              lookup-insert j k (record c { strong = c.strong - 1 }) w.connections,
              q,
              sym ((==_iff k j).0 q),
              e,
            )
            (ground arith)
      | inr q ↦
          rw (o, lookup-insert j k (record c { strong = c.strong - 1 }) w.connections, q)
            (ground arith)
    ]
  ]

  drop_connections :
      (k : ℕ) (w : World P) (c : Shared (ConnectionImpl P))
      → lookup k w.connections ≡ some c
      → (drop_connection_arc k w).connections ≡ (
          if c.strong == 1
          then erase k w.connections
          else insert k (record c { strong = c.strong - 1 }) w.connections)
  unfolding drop_connection_arc drop_connection
  drop_connections k w c e = rw (e, drop_connection_arc) (ground arith)

  -- Dropping a reference lowers the count of its cell by one, and no other.
  pub drop_connection_arc-strong :
      (k j : ℕ) (w : World P)
      → AllReferred w
      → 0 < strong_of k w
      → strong_of j (drop_connection_arc k w) + one j (some k) ≡ strong_of j w
  drop_connection_arc-strong k j w a h = elim (Option-cases (lookup k w.connections)) [
    | inl e ↦ absurd (let z : 0 < strong_in {A = ConnectionImpl P} none = rw e at h in omega arith)
    | inr (c, e) ↦ rw (drop_connections k w c e) (drop_strong k j w c e (a k c e))
  ]

  -- The last reference takes the cell away.
  pub drop_connection_arc-AllReferred :
      (k : ℕ) (w : World P) → AllReferred w → AllReferred (drop_connection_arc k w)
  unfolding drop_connection_arc
  drop_connection_arc-AllReferred k w a = elim (Option-cases (lookup k w.connections)) [
    | inl e ↦ rw (e, drop_connection_arc) a
    | inr (c, e) ↦ rw (drop_connections k w c e) (elim (Bool-cases (c.strong == 1)) [
      | inl o ↦ rw o (erase-Every IsPositive k w.connections a)
      | inr o ↦ rw o (
          insert-Every IsPositive k (record c { strong = c.strong - 1 }) w.connections
            (ground (arith, a k c e)) a)
    ])
  ]
