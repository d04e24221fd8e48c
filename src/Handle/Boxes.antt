-- ===== src/Handle/Boxes.antt =====
-- `FFIHandleMut<T>` of src/ffi/handle_mut.rs and `FFIHandleRef<T>` of src/ffi/handle_shared.rs for any
-- `T`: a handle is the address of a box.
use quinn_ffi.Prelude.{ℕ, ◌+◌, none, some, Dict, lookup, insert, erase}
use quinn_ffi.Effect.{M, ok, undefined}

-- The boxes that are alive, and the address of the next one.
pub record Heap (T : Type 0) : Type 0 where
  pub boxes : Dict T
  pub next_address : ℕ

module _ {T : Type 0} where
  -- `Box::into_raw(Box::new(value))`.
  unfoldable pub alloc : T → M (Heap T) ℕ
  alloc value h = (
    ok h.next_address,
    record { boxes = insert h.next_address value h.boxes; next_address = h.next_address + 1 },
  )

  -- The box is freed, and its value given to `f`. It must be alive.
  unfoldable pub dealloc : {R : Type 0} → ℕ → (T → R) → M (Heap T) R
  dealloc handle f h = elim (lookup handle h.boxes) [
    | none ↦ (undefined, h)
    | some v ↦ (ok (f v), record h { boxes = erase handle h.boxes })
  ]

  -- `Deref`: the value behind the handle, which must be alive.
  unfoldable pub deref : ℕ → M (Heap T) T
  deref handle h = elim (lookup handle h.boxes) [ none ↦ (undefined, h) | some v ↦ (ok v, h) ]

  -- What is done through `DerefMut`: the value is replaced by `f` of it.
  unfoldable pub deref_mut : ℕ → (T → T) → M (Heap T) (Unit {0})
  deref_mut handle f h = elim (lookup handle h.boxes) [
    | none ↦ (undefined, h)
    | some v ↦ (ok tt, record h { boxes = insert handle (f v) h.boxes })
  ]
