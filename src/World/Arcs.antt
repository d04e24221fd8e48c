-- ===== src/World/Arcs.antt =====
-- The count of an `Arc<Mutex<ConnectionImpl>>`, and what is dropped with the last reference.
pub mod Counts
pub mod Counted
pub mod Left
use quinn_ffi.Prelude.{
  ℕ, ◌+◌, ◌-◌, ◌==◌, none, some, false, [], ◌∷◌, Dict, lookup, insert, erase, if◌then◌else◌,
}
use quinn_ffi.Proto.{Proto}
use quinn_ffi.World.{World, Shared, ConnectionImpl}
use quinn_ffi.World.Mpsc.{drop_receiver}

-- A new cell has one reference.
abbrev pub new_shared : {A : Type 0} → A → Shared A
new_shared a = record { strong = 1; locked = false; poisoned = false; value = a }

-- `Arc::clone`.
unfoldable pub clone_arc : {A : Type 0} → ℕ → Dict (Shared A) → Dict (Shared A)
clone_arc k d = elim (lookup k d) [
  | none ↦ d
  | some c ↦ insert k (record c { strong = c.strong + 1 }) d
]

module _ {P : Proto} where
  -- A `ConnectionImpl` is dropped, with its receiver.
  unfoldable pub drop_connection : ConnectionImpl P → World P → World P
  drop_connection c w = record w {
    connection_events = drop_receiver c.connection_events w.connection_events;
  }

  unfoldable pub drop_connection_arc : ℕ → World P → World P
  unfolding drop_connection
  drop_connection_arc k w = elim (lookup k w.connections) [
    | none ↦ w
    | some c ↦
        if c.strong == 1
        then drop_connection c.value (record w { connections = erase k w.connections })
        else record w { connections = insert k (record c { strong = c.strong - 1 }) w.connections }
  ]

  -- Every `Arc` of a list is dropped.
  unfoldable pub drop_connection_arcs : Dict ℕ → World P → World P
  drop_connection_arcs [] w = w
  drop_connection_arcs ((handle, k) ∷ d) w = drop_connection_arcs d (drop_connection_arc k w)
