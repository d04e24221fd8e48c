-- ===== src/Handle/Trait.antt =====
-- The trait `HandleMut` of src/ffi.rs; SafeApi and UnsafeApi are its implementations, and Cells is what
-- each of them promises.
pub mod SafeApi
pub mod UnsafeApi
pub mod Cells
pub mod Values
pub mod Refines
use quinn_ffi.Prelude.{ℕ}
use quinn_ffi.Effect.{M, lift}
use quinn_ffi.Proto.{Proto}
use quinn_ffi.World.{World}

-- A handle is an address. A callback gets the value, or a reference that it cannot write through; it
-- returns a `Result<(), FFIErrorKind>`.
pub record HandleMut (P : Proto) (Inner : Type 0) : Type 0 where
  pub new : Inner → M (World P) ℕ
  pub ref_access : ℕ → (Inner → M (World P) (Unit {0})) → M (World P) (Unit {0})
  pub mut_access : ℕ → M (Inner × World P) (Unit {0}) → M (World P) (Unit {0})

module _ {P : Proto} where
  -- A callback on a shared reference, as one that leaves the value alone.
  abbrev pub by_ref :
      {Inner : Type 0} → (Inner → M (World P) (Unit {0})) → M (Inner × World P) (Unit {0})
  by_ref cb (a, w) = lift (cb a) (a, w)
