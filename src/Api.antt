-- ===== src/Api.antt =====
-- The macro `ffi!` of src/ffi/safe_api.rs and of src/ffi/unsafe_api.rs.
pub mod Laws
pub mod Preserved
use quinn_ffi.Prelude.{Bool, List, [], ◌∷◌, if◌then◌else◌}
use quinn_ffi.ErrorKind.{Text, io_error}
use quinn_ffi.Effect.{M}
use quinn_ffi.Proto.{Proto}
use quinn_ffi.World.{World}
use quinn_ffi.FfiResult.{FfiResult, argument_null, context, catch}

module _ {P : Proto} where
  -- Each argument with its name and its `is_null`, in the order of the signature.
  unfoldable pub null_checks : List (Text × Bool) → M (World P) FfiResult → M (World P) FfiResult
  null_checks [] body = body
  null_checks ((name, null) ∷ rest) body =
      let checked = null_checks rest body in
      if null then context (io_error name) argument_null else checked

  -- `safe-api`: null checks, and every panic is caught.
  unfoldable pub safe_ffi : List (Text × Bool) → M (World P) FfiResult → M (World P) FfiResult
  unfolding null_checks
  safe_ffi args body = catch (null_checks args body)

  -- `unsafe-api`: the body alone.
  unfoldable pub unsafe_ffi : List (Text × Bool) → M (World P) FfiResult → M (World P) FfiResult
  unsafe_ffi args body = body
