-- ===== src/World/Memory.antt =====
-- src/ffi/out.rs, src/ffi/reference.rs and src/ffi/null.rs: pointers into the application's memory.
pub mod Slices
use quinn_ffi.Prelude.{
  ℕ, none, some, Bool, List, [], ◌∷◌, ◌+◌, ◌++◌, lookup, insert, length, take, drop, leb, ◌==◌,
  if◌then◌else◌, min,
}
use quinn_ffi.Effect.{M, ok, undefined}
use quinn_ffi.Proto.{Proto}
use quinn_ffi.World.{World}

-- `IsNull for *const T`.
abbrev pub is_null : ℕ → Bool
is_null p = p == 0

-- Every element becomes `f` of its place and itself, the first of which stands at `n`.
unfoldable pub map_from : (ℕ → ℕ → ℕ) → ℕ → List ℕ → List ℕ
map_from f n [] = []
map_from f n (x ∷ xs) = f n x ∷ map_from f (n + 1) xs

module _ {P : Proto} where
  -- `Out::init`: writes a word. The pointer must be valid for writes.
  unfoldable pub init : ℕ → ℕ → M (World P) (Unit {0})
  init p v w = elim (lookup p w.words) [
    | none ↦ (undefined, w)
    | some old ↦ (ok tt, record w { words = insert p v w.words })
  ]

  -- `Ref::as_ref`: the word behind the pointer, which must be there.
  unfoldable pub as_ref : ℕ → M (World P) ℕ
  as_ref p w = elim (lookup p w.words) [ none ↦ (undefined, w) | some v ↦ (ok v, w) ]

  -- `RefMut::as_mut`, and what is done through it: the word becomes `f` of it.
  unfoldable pub as_mut : ℕ → (ℕ → ℕ) → M (World P) (Unit {0})
  as_mut p f w = elim (lookup p w.words) [
    | none ↦ (undefined, w)
    | some v ↦ (ok tt, record w { words = insert p (f v) w.words })
  ]

  -- `RefMut::as_bytes_mut`, and what is done through it: each of the first `len` bytes becomes `f` of it
  -- and its place. They must all be there.
  unfoldable pub as_bytes_mut : ℕ → ℕ → (ℕ → ℕ → ℕ) → M (World P) (Unit {0})
  unfolding map_from
  as_bytes_mut p len f w = elim (lookup p w.buffers) [
    | none ↦ (undefined, w)
    | some buf ↦
        if leb len (length buf)
        then (
          ok tt,
          record w { buffers = insert p (map_from f 0 (take len buf) ++ drop len buf) w.buffers },
        )
        else (undefined, w)
  ]

  -- `Ref::as_bytes`: the first `len` bytes behind the pointer. They must all be there.
  unfoldable pub as_bytes : ℕ → ℕ → M (World P) (List ℕ)
  as_bytes p len w = elim (lookup p w.buffers) [
    | none ↦ (undefined, w)
    | some buf ↦ if leb len (length buf) then (ok (take len buf), w) else (undefined, w)
  ]

  -- `Out::init_bytes`: copies all the bytes to the memory behind the pointer.
  unfoldable pub init_bytes : ℕ → List ℕ → M (World P) (Unit {0})
  init_bytes p value w = elim (lookup p w.buffers) [
    | none ↦ (undefined, w)
    | some buf ↦
        if leb (length value) (length buf)
        then (ok tt, record w { buffers = insert p (value ++ drop (length value) buf) w.buffers })
        else (undefined, w)
  ]

  -- `Write::write` on the slice of `Out::as_uninit_bytes_mut`: copies what fits into `len` bytes,
  -- and returns how many.
  unfoldable pub write_bytes : ℕ → ℕ → List ℕ → M (World P) ℕ
  write_bytes p len value w = elim (lookup p w.buffers) [
    | none ↦ (undefined, w)
    | some buf ↦
        if leb len (length buf)
        then (
          ok (min len (length value)),
          record w {
            buffers = insert p (take len value ++ drop (min len (length value)) buf) w.buffers;
          },
        )
        else (undefined, w)
  ]
