-- ===== src/Bindings/Errors/Reporting.antt =====
-- What the application learns from `last_error`.
use quinn_ffi.Prelude.{
  ℕ, ◌≡◌, ◌≤◌, ◌<◌, refl, ◌∙◌, some, Bool, true, false, Bool-cases, inl, inr, ltb, if◌then◌else◌,
  List, ◌++◌, length, drop, arith, lookup, insert,
}
use quinn_ffi.ErrorKind.{Text, FfiErrorKind, io_error, ffi_result_kind, display_error}
use quinn_ffi.Effect.{M, Exit, ok, err}
use quinn_ffi.Proto.{Proto}
use quinn_ffi.World.{World}
use quinn_ffi.World.Memory.{is_null, init, init_bytes}
use quinn_ffi.FfiResult.{
  FfiResult, new, ok_result, err_result, buffer_too_small, last_error_of, set_last, into_result,
}
use quinn_ffi.FfiResult.Laws.{clear_last, catch-ok, kind_of, remember, into_result-err}
use quinn_ffi.Api.{unsafe_ffi}
use quinn_ffi.Api.Laws.{safe_ffi-catch}
use quinn_ffi.Bindings.Errors.{
  last_error, last_error_body, last_error_unsafe, last_error_args, copy_message,
}

-- The error is not a result kind, and is stored.
abbrev pub is_kept : FfiErrorKind → Bool
is_kept (ffi_result_kind k) = false
is_kept (FfiErrorKind.quinn_error code reason) = true
is_kept FfiErrorKind.ffi_error = true
is_kept (io_error text) = true

kept :
    {P : Proto} (e : FfiErrorKind) (w : World P)
    → is_kept e ≡ true
    → ◌≡◌ {A = Exit FfiResult × World P}
        (ok (new (kind_of e)), remember e w)
        (ok err_result, set_last e w)
kept (ffi_result_kind k) w h = cc
kept (FfiErrorKind.quinn_error code reason) w h = refl
kept FfiErrorKind.ffi_error w h = refl
kept (io_error text) w h = refl

ltb→lt : (a b : ℕ) → ltb a b ≡ true → a < b
ltb→lt a b h = ground arith

ltb→le : (a b : ℕ) → ltb a b ≡ false → b ≤ a
ltb→le a b h = ground arith

module _ {P : Proto} where
  last_error_body-clear :
      (buf len actual : ℕ) (w : World P)
      → last_error_body buf len actual (clear_last w) ≡ (ok ok_result, clear_last w)
  unfolding last_error_body
  last_error_body-clear buf len actual w = refl

  -- With `safe-api`, `last_error` reports no error, whatever was stored: it returns `Ok`, writes to
  -- no memory, and what was stored is gone.
  pub last_error-silent :
      (buf len actual : ℕ) (w : World P)
      → is_null buf ≡ false
      → is_null actual ≡ false
      → last_error buf len actual w ≡ (ok ok_result, clear_last w)
  unfolding last_error
  last_error-silent buf len actual w hb ha =
      rw
        (safe_ffi-catch (last_error_args buf len actual) (last_error_body buf len actual)
          (ground arith))
        (catch-ok (last_error_body buf len actual) ok_result w (clear_last w)
          (last_error_body-clear buf len actual w))

  -- With `unsafe-api`, valid pointers and an error stored, a message that fits the buffer is measured and
  -- copied to its front, and the call returns `Ok`.
  pub last_error_unsafe-copies :
      (buf len actual old : ℕ) (mem : List ℕ) (e : FfiErrorKind) (w : World P)
      → last_error_of w.last_result ≡ some e
      → lookup actual w.words ≡ some old
      → lookup buf w.buffers ≡ some mem
      → len ≤ length mem
      → length (display_error e) ≤ len
      → last_error_unsafe buf len actual w ≡ (
        ok ok_result,
        record w {
          words = insert actual (length (display_error e)) w.words;
          buffers = insert buf (display_error e ++ drop (length (display_error e)) mem) w.buffers;
        },
      )
  unfolding last_error_unsafe unsafe_ffi last_error_body copy_message init init_bytes
  last_error_unsafe-copies buf len actual old mem e w he ha hb hl hm = ground arith

  -- With `unsafe-api`, a valid pointer for the length and an error stored, a message that does not fit is
  -- measured only: the call returns `BufferToSmall`, and the buffer stays as it was.
  pub last_error_unsafe-too_small :
      (buf len actual old : ℕ) (e : FfiErrorKind) (w : World P)
      → last_error_of w.last_result ≡ some e
      → lookup actual w.words ≡ some old
      → len < length (display_error e)
      → last_error_unsafe buf len actual w ≡ (
        ok buffer_too_small,
        record w { words = insert actual (length (display_error e)) w.words },
      )
  unfolding last_error_unsafe unsafe_ffi last_error_body copy_message init
  last_error_unsafe-too_small buf len actual old e w he ha hl = ground arith

  -- With `unsafe-api`, what a failing call keeps is what `last_error` reports. A call that fails with an
  -- error that is no result kind returns `Error`. Then `last_error` gives the length of the error's text,
  -- and, if the application's buffer is long enough, the text at its front and `Ok`; else the buffer stays as
  -- it was and the result is `BufferToSmall`. So it is with valid pointers.
  pub failing-last_error :
      {A : Type 0} (args : List (Text × Bool)) (m : M (World P) A) (e : FfiErrorKind)
      (w w' : World P) (buf len actual old : ℕ) (mem : List ℕ)
      → m w ≡ (err e, w')
      → is_kept e ≡ true
      → lookup actual w'.words ≡ some old
      → lookup buf w'.buffers ≡ some mem
      → len ≤ length mem
      → let n : ℕ = length (display_error e) in
        let (r, w₁) = unsafe_ffi args (into_result m) w in
        (r ≡ ok err_result)
        × (w₁ ≡ set_last e w')
        × (last_error_unsafe buf len actual w₁ ≡ (
            if ltb len n
            then (ok buffer_too_small, record w₁ { words = insert actual n w'.words })
            else (
              ok ok_result,
              record w₁ {
                words = insert actual n w'.words;
                buffers = insert buf (display_error e ++ drop n mem) w'.buffers;
              },
            )))
  unfolding unsafe_ffi
  failing-last_error args m e w w' buf len actual old mem h k ha hb hl =
      let failed : into_result m w ≡ (ok err_result, set_last e w') =
        into_result-err m e w w' h ∙ kept e w' k in
      rw failed (
        refl,
        refl,
        elim (Bool-cases (ltb len (length (display_error e)))) [
          | inl short ↦ rw short (
              last_error_unsafe-too_small buf len actual old e (set_last e w') refl ha
                (ltb→lt len (length (display_error e)) short))
          | inr fits ↦ rw fits (
              last_error_unsafe-copies buf len actual old mem e (set_last e w') refl ha hb hl
                (ltb→le len (length (display_error e)) fits))
        ],
      )
