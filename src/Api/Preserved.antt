-- ===== src/Api/Preserved.antt =====
-- What the macro `ffi!` preserves of the shared state: any property that does not read the last result.
use quinn_ffi.Prelude.{Option, Bool, true, false, List, [], ◌∷◌}
use quinn_ffi.ErrorKind.{Text, io_error}
use quinn_ffi.Effect.{M}
use quinn_ffi.Effect.Laws.{Preserves}
use quinn_ffi.Proto.{Proto}
use quinn_ffi.World.{World, LastResult}
use quinn_ffi.FfiResult.{FfiResult, argument_null}
use quinn_ffi.FfiResult.Preserved.{context-Preserves, catch-Preserves}
use quinn_ffi.Api.{safe_ffi, null_checks}

module _ {P : Proto} (I : World P → Type 0)
    (results : (o : Option LastResult) (w : World P) → I w → I (record w { last_result = o })) where
  abbrev Keeps : {A : Type 0} → M (World P) A → Type 0
  Keeps m = Preserves I m

  null_checks-Preserves :
      (args : List (Text × Bool)) (body : M (World P) FfiResult)
      → Keeps body
      → Keeps (null_checks args body)
  unfolding null_checks
  null_checks-Preserves [] body h = h
  null_checks-Preserves ((name, true) ∷ rest) body h =
      context-Preserves I results (io_error name) argument_null
  null_checks-Preserves ((name, false) ∷ rest) body h = null_checks-Preserves rest body h

  pub safe_ffi-Preserves :
      (args : List (Text × Bool)) (body : M (World P) FfiResult)
      → Keeps body
      → Keeps (safe_ffi args body)
  unfolding safe_ffi
  safe_ffi-Preserves args body h =
      catch-Preserves I results (null_checks args body) (null_checks-Preserves args body h)
