-- ===== src/Examples/Results.antt =====
-- The theorems on results, errors and poisoned handles, at concrete inputs.
use quinn_ffi.Prelude.{
  ℕ, ◌≡◌, refl, true, false, [], ◌∷◌, ◌++◌, ltb, if◌then◌else◌, bytes, arith, insert, lookup,
  length, drop, replicate,
}
use quinn_ffi.ErrorKind.{FfiErrorKind, io_error, display_error}
use quinn_ffi.Effect.{ok, Payload, throw, raise}
use quinn_ffi.World.{World}
use quinn_ffi.FfiResult.{
  ok_result, err_result, argument_null, buffer_too_small, set_last, into_result,
}
use quinn_ffi.FfiResult.Laws.{clear_last}
use quinn_ffi.Api.{safe_ffi, unsafe_ffi}
use quinn_ffi.Api.Laws.{safe_ffi-null}
use quinn_ffi.Bindings.Errors.{last_error, last_error_unsafe}
use quinn_ffi.Bindings.Errors.Reporting.{last_error-silent, failing-last_error}
use quinn_ffi.Examples.Toy.{toy}
use quinn_ffi.Examples.Worlds.{world}

last_error-silent_example : last_error 61 4 50 world ≡ (ok ok_result, clear_last world)
last_error-silent_example = last_error-silent 61 4 50 world refl refl

safe_ffi-null_example :
    safe_ffi ((bytes "handle", false) ∷ (bytes "buffer", true) ∷ []) (throw Payload.other) world
    ≡ (ok argument_null, set_last (io_error (bytes "buffer")) world)
safe_ffi-null_example =
    safe_ffi-null ((bytes "handle", false) ∷ (bytes "buffer", true) ∷ []) (throw Payload.other)
      (bytes "buffer") world refl

abbrev gone : FfiErrorKind
gone = io_error (bytes "gone")

abbrev wide : World toy
wide = record world { buffers = (61, replicate 30 0) ∷ [] }

-- A call that fails, and its text in a buffer of thirty bytes.
failing-last_error_example :
    let n : ℕ = length (display_error gone) in
    let (r, w₁) = unsafe_ffi [] (into_result {A = ℕ} (raise gone)) wide in
    (r ≡ ok err_result)
    × (w₁ ≡ set_last gone wide)
    × (last_error_unsafe 61 30 50 w₁ ≡ (
        if ltb 30 n then (ok buffer_too_small, record w₁ { words = insert 50 n wide.words }) else (
          ok ok_result,
          record w₁ {
            words = insert 50 n wide.words;
            buffers = insert 61 (display_error gone ++ drop n (replicate 30 0)) wide.buffers;
          },
        )))
unfolding lookup
failing-last_error_example =
    failing-last_error [] (raise gone) gone wide wide 61 30 50 0 (replicate 30 0) refl refl refl
      refl (omega arith)
