-- ===== src/World/Mutex.antt =====
-- `Arc<Mutex<T>>`: lock, unlock and poisoning.
pub mod Laws
pub mod Locked
use quinn_ffi.Prelude.{
  ℕ, ◌+◌, ◌-◌, Bool, true, false, Option, none, some, bytes, Dict, lookup, insert, if◌then◌else◌,
}
use quinn_ffi.Effect.{Exit, M, Payload, ok, err, panic, hang, undefined, never, throw, misbehave}
use quinn_ffi.World.{World, Shared}

-- `PoisonError` met by `unwrap`.
abbrev pub poison_panic : Payload
poison_panic =
    Payload.string (bytes "called `Result::unwrap()` on an `Err` value: PoisonError { .. }")

abbrev pub is_panic : {A : Type 0} → Exit A → Bool
is_panic (panic p) = true
is_panic (ok a) = false
is_panic (err e) = false
is_panic hang = false
is_panic undefined = false

-- A call that does not return keeps the lock.
abbrev pub is_hang : {A : Type 0} → Exit A → Bool
is_hang hang = true
is_hang (panic p) = false
is_hang (ok a) = false
is_hang (err e) = false
is_hang undefined = false

module _ {A : Type 0} where
  -- How the cell is left when the code that held it ends: after a panic it is poisoned, and a call
  -- that hangs never lets go.
  abbrev pub release : {B : Type 0} → Exit B → A → Shared A → Shared A
  release e a c = record c { value = a; locked = is_hang e; poisoned = is_panic e }

module _ {S A : Type 0} (get : S → Dict (Shared A)) (put : S → Dict (Shared A) → S) where
  abbrev pub settle : {B : Type 0} → ℕ → Exit B → A → S → Option (Shared A) → S
  settle k e a s none = s
  settle k e a s (some c) = put s (insert k (release e a c) (get s))

  -- A guard is held while `body` runs, on the value beside the state.
  unfoldable pub guarded : {B : Type 0} → ℕ → M (A × S) B → Shared A → M S B
  guarded k body c s =
      let (e, (a, s')) = body (c.value, put s (insert k (record c { locked = true }) (get s))) in
      (e, settle k e a s' (lookup k (get s')))

  abbrev pub lock_cell : {B : Type 0} → ℕ → M (A × S) B → Option (Shared A) → M S B
  lock_cell k body none = misbehave
  lock_cell k body (some c) =
      if c.locked then never else if c.poisoned then throw poison_panic else guarded k body c

  -- `arc.lock().unwrap()`, and `body` with the guard: waits for a lock that is held.
  unfoldable pub with_lock : {B : Type 0} → ℕ → M (A × S) B → M S B
  with_lock k body s = lock_cell k body (lookup k (get s)) s

  abbrev pub try_cell : {B : Type 0} → ℕ → M (A × S) B → M S B → M S B → Option (Shared A) → M S B
  try_cell k body would_block poisoned none = misbehave
  try_cell k body would_block poisoned (some c) =
      if c.locked then would_block else if c.poisoned then poisoned else guarded k body c

  -- `arc.try_lock()`, with what to do in each case.
  unfoldable pub with_try_lock : {B : Type 0} → ℕ → M (A × S) B → M S B → M S B → M S B
  with_try_lock k body would_block poisoned s =
      try_cell k body would_block poisoned (lookup k (get s)) s
