-- ===== src/ErrorKind.antt =====
-- The error type of src/proto_impl/result.rs, and the result kinds of src/ffi/ffi_result.rs that it
-- carries. A `String` is the list of its UTF-8 bytes.
use quinn_ffi.Prelude.{ℕ, zero, suc, ◌+◌, ◌/◌, ◌%◌, List, [], ◌∷◌, ◌++◌, bytes, ◌==◌, if◌then◌else◌}

abbrev pub Text : Type 0
Text = List ℕ

pub data FfiResultKind : Type 0 where
  ok error buffer_to_small buffer_blocked argument_null : FfiResultKind

pub data FfiErrorKind : Type 0 where
  ffi_result_kind : FfiResultKind → FfiErrorKind
  quinn_error : ℕ → Text → FfiErrorKind
  ffi_error : FfiErrorKind
  io_error : Text → FfiErrorKind

-- The decimal digits of a number. A `u32` has ten at most.
decimal_from : ℕ → ℕ → Text → Text
decimal_from zero n rest = rest
decimal_from (suc fuel) n rest =
    let digit = b'0' + n % 10 in
    let more = decimal_from fuel (n / 10) (digit ∷ rest) in
    if n / 10 == 0 then digit ∷ rest else more

unfoldable pub decimal : ℕ → Text
unfolding decimal_from
decimal n = decimal_from 10 n []

-- The derived `Debug` of the result kinds.
unfoldable pub debug_kind : FfiResultKind → Text
debug_kind FfiResultKind.ok = bytes "Ok"
debug_kind FfiResultKind.error = bytes "Error"
debug_kind FfiResultKind.buffer_to_small = bytes "BufferToSmall"
debug_kind FfiResultKind.buffer_blocked = bytes "BufferBlocked"
debug_kind FfiResultKind.argument_null = bytes "ArgumentNull"

-- `fmt::Display for FFIErrorKind`.
unfoldable pub display_error : FfiErrorKind → Text
unfolding decimal debug_kind
display_error (quinn_error code reason) =
    bytes "QuinnError Error; code: " ++ (decimal code ++ (bytes " reason: " ++ reason))
display_error ffi_error = bytes "Error occurred in the FFI layer"
display_error (io_error err) = bytes "Io Error Occurred: " ++ err
display_error (ffi_result_kind kind) = bytes "Quinn error kind Occurred: " ++ debug_kind kind

-- The texts of the standard library's errors that the code turns into `IoError`.
abbrev pub send_error : FfiErrorKind
send_error = io_error (bytes "sending on a closed channel")

abbrev pub recv_empty : FfiErrorKind
recv_empty = io_error (bytes "receiving on an empty channel")

abbrev pub recv_disconnected : FfiErrorKind
recv_disconnected = io_error (bytes "receiving on a closed channel")
