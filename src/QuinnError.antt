-- ===== src/QuinnError.antt =====
-- `QuinnError` of src/ffi/ffi_result.rs: a code with a reason as a C string.
pub mod Strings
use quinn_ffi.Prelude.{ℕ, zero, suc, ◌+◌, Option, none, some, List, [], ◌∷◌, ◌++◌, bytes}
use quinn_ffi.ErrorKind.{Text, decimal}
use quinn_ffi.Effect.{M, pure, throw, Payload}

-- The reason is the memory of a `CString`: the bytes, and the zero that ends them.
pub record QuinnError : Type 0 where
  pub code : ℕ
  pub reason : List ℕ

-- The place of the first zero among the bytes, the first of which stands at `n`.
unfoldable pub nul_position : ℕ → Text → Option ℕ
nul_position n [] = none
nul_position n (zero ∷ text) = some n
nul_position n (suc b ∷ text) = nul_position (n + 1) text

debug_bytes : Text → Text
debug_bytes [] = bytes "]"
debug_bytes (b ∷ []) = decimal b ++ bytes "]"
debug_bytes (b ∷ c ∷ text) = decimal b ++ (bytes ", " ++ debug_bytes (c ∷ text))

-- `CString::new(reason).unwrap()` on a text with a zero in it.
unfoldable pub nul_panic : ℕ → Text → Payload
unfolding debug_bytes
nul_panic n text = Payload.string (
    bytes "called `Result::unwrap()` on an `Err` value: NulError("
    ++ (decimal n ++ (bytes ", [" ++ (debug_bytes text ++ bytes ")"))))

made : {S : Type 0} → ℕ → Text → Option ℕ → M S QuinnError
made code reason none = pure (record { code = code; reason = reason ++ 0 ∷ [] })
made code reason (some n) = throw (nul_panic n reason)

-- `QuinnError::new`.
unfoldable pub new_quinn_error : {S : Type 0} → ℕ → Text → M S QuinnError
unfolding made
new_quinn_error code reason = made code reason (nul_position 0 reason)
