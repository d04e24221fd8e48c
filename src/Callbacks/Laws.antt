-- ===== src/Callbacks/Laws.antt =====
-- Calls of the application once every callback is set.
use quinn_ffi.Prelude.{ap, ℕ, ◌≡◌, refl, some, none, List, [], ◌∷◌, ◌++◌, arith, ==-refl}
use quinn_ffi.Effect.{ok, undefined}
use quinn_ffi.Proto.{Proto}
use quinn_ffi.World.{World, Slot, Call}
use quinn_ffi.Callbacks.{invoke, set_callback, slot_of, slot_index}

-- The calls with the functions that they reach.
abbrev pub reached : (Slot → ℕ) → List Call → List (ℕ × Call)
reached f [] = []
reached f (call ∷ calls) = (f (slot_of call), call) ∷ reached f calls

pub reached-append :
    (f : Slot → ℕ) (xs ys : List Call) → reached f (xs ++ ys) ≡ reached f xs ++ reached f ys
reached-append f [] ys = refl
reached-append f (x ∷ xs) ys = ap (◌∷◌ (f (slot_of x), x)) (reached-append f xs ys)

module _ {P : Proto} where
  -- Every static holds a function.
  abbrev pub AllSet : (Slot → ℕ) → World P → Type 0
  AllSet f w = (s : Slot) → w.callbacks s ≡ some (f s)

  pub invoke-AllSet :
      (f : Slot → ℕ) (call : Call) (w : World P)
      → AllSet f w
      → invoke call w ≡ (ok tt, record w { calls = w.calls ++ reached f (call ∷ []) })
  unfolding invoke
  invoke-AllSet f call w h = ground (arith, h (slot_of call))

  -- A callback that was never set is undefined behaviour to invoke.
  pub invoke-unset :
      (call : Call) (w : World P)
      → w.callbacks (slot_of call) ≡ none
      → invoke call w ≡ (undefined, w)
  unfolding invoke
  invoke-unset call w h = ground arith

  -- Setting one callback makes its invoker reach the new function.
  pub set_callback-invoke :
      (call : Call) (g : ℕ) (w : World P)
      → invoke call (set_callback (slot_of call) g w)
        ≡ (ok tt, record (set_callback (slot_of call) g w) { calls = w.calls ++ (g, call) ∷ [] })
  unfolding invoke set_callback
  set_callback-invoke call g w = ground (arith, ==-refl (slot_index (slot_of call)))
