-- ===== src/Bindings/Errors.antt =====
-- `last_error`.
pub mod Reporting
use quinn_ffi.Prelude.{
  ℕ, Option, none, some, Bool, false, List, [], ◌∷◌, bytes, length, ltb, if◌then◌else◌,
}
use quinn_ffi.ErrorKind.{Text, FfiErrorKind, display_error}
use quinn_ffi.Effect.{M, ◌>>=◌, ◌>>◌, pure}
use quinn_ffi.Proto.{Proto}
use quinn_ffi.World.{World}
use quinn_ffi.World.Memory.{is_null, init, init_bytes}
use quinn_ffi.FfiResult.{FfiResult, ok_result, buffer_too_small, from_last_result}
use quinn_ffi.Api.{safe_ffi, unsafe_ffi}

abbrev pub last_error_args : ℕ → ℕ → ℕ → List (Text × Bool)
last_error_args buf len actual =
    (bytes "error_buf", is_null buf)
    ∷ (bytes "error_buf_len", false)
    ∷ (bytes "actual_error_buf_len", is_null actual)
    ∷ []

module _ {P : Proto} where
  -- The message is measured, and copied if it fits.
  unfoldable pub copy_message : ℕ → ℕ → ℕ → Text → M (World P) FfiResult
  copy_message buf len actual message = do
    init actual (length message)
    if ltb len (length message)
        then pure buffer_too_small
        else (init_bytes buf message >> pure ok_result)

  report : ℕ → ℕ → ℕ → Option FfiErrorKind → M (World P) FfiResult
  report buf len actual none = pure ok_result
  report buf len actual (some e) = copy_message buf len actual (display_error e)

  unfoldable pub last_error_body : ℕ → ℕ → ℕ → M (World P) FfiResult
  unfolding report from_last_result
  last_error_body buf len actual = from_last_result (report buf len actual)

  -- With `safe-api`, the default, and with `unsafe-api`.
  unfoldable pub last_error : ℕ → ℕ → ℕ → M (World P) FfiResult
  last_error buf len actual =
      safe_ffi (last_error_args buf len actual) (last_error_body buf len actual)

  unfoldable pub last_error_unsafe : ℕ → ℕ → ℕ → M (World P) FfiResult
  last_error_unsafe buf len actual =
      unsafe_ffi (last_error_args buf len actual) (last_error_body buf len actual)
