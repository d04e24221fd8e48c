-- ===== src/Handle/Trait/Cells.antt =====
-- What a handle promises: it names a cell, which is live until a callback on it panics or never returns.
use quinn_ffi.Prelude.{
  ℕ, ◌≡◌, refl, Option, none, some, true, false, Dict, lookup, insert, lookup-insert_self,
  if◌then◌else◌, Bool-cases, Option-cases, inl, inr, ap, ◌∙◌,
}
use quinn_ffi.Effect.{◌>>=◌, Exit, ok, err, panic, hang, undefined}
use quinn_ffi.Proto.{Proto}
use quinn_ffi.World.{World, Shared}
use quinn_ffi.World.Mutex.{with_lock, release, poison_panic}
use quinn_ffi.World.Mutex.Laws.{
  with_lock-runs, with_lock-none, with_lock-poisoned, with_lock-locked,
}
use quinn_ffi.Handle.{deref_box}
use quinn_ffi.Handle.Trait.{HandleMut}

-- The state of the value behind a handle: it can be locked, its lock was left poisoned, its lock is never
-- given back, or its memory is freed.
pub data Cell (A : Type 0) : Type 0 where
  live : A → Cell A
  poisoned held gone : Cell A

module _ {A : Type 0} where
  -- How an access ends with a callback that ends as `x` of the value.
  abbrev pub access_exit : (A → Exit (Unit {0})) → Cell A → Exit (Unit {0})
  access_exit x (live a) = x a
  access_exit x poisoned = panic poison_panic
  access_exit x held = hang
  access_exit x gone = undefined

  abbrev pub closed : Exit (Unit {0}) → A → Cell A
  closed (ok u) a = live a
  closed (err e) a = live a
  closed (panic p) a = poisoned
  closed hang a = held
  closed undefined a = live a

  -- What the cell is after it, where the callback makes `f a` of the value `a`.
  abbrev pub accessed : (A → A) → (A → Exit (Unit {0})) → Cell A → Cell A
  accessed f x (live a) = closed (x a) (f a)
  accessed f x poisoned = poisoned
  accessed f x held = held
  accessed f x gone = gone

  abbrev pub cell_of : Option (Shared A) → Cell A
  cell_of none = gone
  cell_of (some c) = if c.locked then held else if c.poisoned then poisoned else live c.value

  cell_of-live :
      (c : Shared A) → c.locked ≡ false → c.poisoned ≡ false → cell_of (some c) ≡ live c.value
  cell_of-live c l p = rw (l, p)

  cell_of-release :
      (x : Exit (Unit {0})) (a : A) (c : Shared A) → cell_of (some (release x a c)) ≡ closed x a
  cell_of-release (ok b) a c = refl
  cell_of-release (err e) a c = refl
  cell_of-release (panic p) a c = refl
  cell_of-release hang a c = refl
  cell_of-release undefined a c = refl

  abbrev pub behind : Option ℕ → (ℕ → Cell A) → Cell A
  behind none cell = gone
  behind (some k) cell = cell k

module _ {P : Proto} {Inner : Type 0} where
  -- `cell p w` is the state of the value behind the handle `p`.
  pub record IsCell (h : HandleMut P Inner) (cell : ℕ → World P → Cell Inner) : Type 0 where
    -- A new handle is live, with the value that it is made of.
    pub holds :
        (a : Inner) (w : World P)
        → let (x, w') = h.new a w in (p : ℕ) × (x ≡ ok p) × (cell p w' ≡ live a)
    -- `mut_access` keeps what the callback makes of the value, also behind an error.
    pub mutates :
        (p : ℕ) (f : Inner → Inner) (x : Inner → Exit (Unit {0})) (w : World P)
        → let (y, w') = h.mut_access p (λ s. (x s.0, (f s.0, s.1))) w in
          (y ≡ access_exit x (cell p w)) × (cell p w' ≡ accessed f x (cell p w))
    -- `ref_access` leaves the value as it was.
    pub reads :
        (p : ℕ) (x : Inner → Exit (Unit {0})) (w : World P)
        → let (y, w') = h.ref_access p (λ b v. (x b, v)) w in
          (y ≡ access_exit x (cell p w)) × (cell p w' ≡ accessed (λ a. a) x (cell p w))

  -- A store of cells that stands in the state, and a store of boxes that stands beside it.
  module _ (get : World P → Dict (Shared Inner))
      (put : World P → Dict (Shared Inner) → World P) where
    abbrev pub cell_at : ℕ → World P → Cell Inner
    cell_at k w = cell_of (lookup k (get w))

    -- The lock, the cell after it, and the boxes, which stay.
    abbrev pub Accessed :
        (World P → Dict ℕ) → ℕ → (Inner → Inner) → (Inner → Exit (Unit {0})) → World P → Type 0
    Accessed boxes k f x w =
        let (y, w') = with_lock get put k (λ s. (x s.0, (f s.0, s.1))) w in
        (y ≡ access_exit x (cell_at k w))
        × (cell_at k w' ≡ accessed f x (cell_at k w))
        × (boxes w' ≡ boxes w)

    module _ (get-put : (w : World P) (d : Dict (Shared Inner)) → get (put w d) ≡ d)
        (boxes : World P → Dict ℕ)
        (boxes-put : (w : World P) (d : Dict (Shared Inner)) → boxes (put w d) ≡ boxes w) where
      with_lock-live :
          (k : ℕ) (f : Inner → Inner) (x : Inner → Exit (Unit {0})) (w : World P) (c : Shared Inner)
          → lookup k (get w) ≡ some c
          → c.locked ≡ false
          → c.poisoned ≡ false
          → Accessed boxes k f x w
      with_lock-live k f x w c found free sound =
          let locked : Shared Inner = record c { locked = true } in
          let w₁ : World P = put w (insert k locked (get w)) in
          rw
            (
              with_lock-runs get put k (λ s. (x s.0, (f s.0, s.1))) c locked (x c.value) (f c.value)
                  w w₁ found free sound refl
                  (ap (lookup k) (get-put w _) ∙ lookup-insert_self k locked (get w)),
              found,
              cell_of-live c free sound,
            )
            (
              refl,
              ap (λ d. cell_of (lookup k d)) (get-put w₁ _)
                  ∙ ap cell_of
                      (lookup-insert_self k (release (x c.value) (f c.value) locked) (get w₁))
                  ∙ cell_of-release (x c.value) (f c.value) locked,
              boxes-put w₁ _ ∙ boxes-put w _,
            )

      pub with_lock-Accessed :
          (k : ℕ) (f : Inner → Inner) (x : Inner → Exit (Unit {0})) (w : World P)
          → Accessed boxes k f x w
      with_lock-Accessed k f x w = elim (Option-cases (lookup k (get w))) [
        | inl e ↦
            rw (with_lock-none get put k (λ s. (x s.0, (f s.0, s.1))) w e, e) (refl, refl, refl)
        | inr (c, e) ↦ elim (Bool-cases c.locked) [
          | inl l ↦
              rw (with_lock-locked get put k (λ s. (x s.0, (f s.0, s.1))) c w e l, e, l)
                (refl, refl, refl)
          | inr l ↦ elim (Bool-cases c.poisoned) [
            | inl p ↦
                rw (with_lock-poisoned get put k (λ s. (x s.0, (f s.0, s.1))) c w e l p, e, l, p)
                  (refl, refl, refl)
            | inr p ↦ with_lock-live k f x w c e l p
          ]
        ]
      ]

      -- The cell that a box leads to.
      abbrev pub boxed_cell : ℕ → World P → Cell Inner
      boxed_cell p w = behind (lookup p (boxes w)) (λ k. cell_at k w)

      pub access-cell :
          (p : ℕ) (f : Inner → Inner) (x : Inner → Exit (Unit {0})) (w : World P)
          → let (y, w') =
              (deref_box (lookup p (boxes w)) >>= λ k.
              with_lock get put k (λ s. (x s.0, (f s.0, s.1))))
                w in
            (y ≡ access_exit x (boxed_cell p w)) × (boxed_cell p w' ≡ accessed f x (boxed_cell p w))
      access-cell p f x w = elim (Option-cases (lookup p (boxes w))) [
        | inl e ↦ rw e (refl, rw e refl)
        | inr (k, e) ↦
            let (y, cell, same) = with_lock-Accessed k f x w in
            let w' : World P = (with_lock get put k (λ s. (x s.0, (f s.0, s.1))) w).1 in
            rw e (
              y,
              ap (λ d. behind (lookup p d) (λ j. cell_at j w')) same
                  ∙ ap (λ o. behind o (λ j. cell_at j w')) e
                  ∙ cell,
            )
      ]
