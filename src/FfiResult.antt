-- ===== src/FfiResult.antt =====
-- src/ffi/ffi_result.rs: the result type of every exported function, and the last error.
pub mod Laws
pub mod Preserved
use quinn_ffi.Prelude.{ℕ, Option, none, some, Bool, true, false, bytes, ◌++◌, if◌then◌else◌}
use quinn_ffi.ErrorKind.{Text, FfiErrorKind, FfiResultKind, io_error, ffi_result_kind}
use quinn_ffi.Effect.{M, Exit, ok, err, panic, hang, undefined, Payload}
use quinn_ffi.Proto.{Proto}
use quinn_ffi.World.{World, LastResult}
use quinn_ffi.Sending.{none_panic}

pub record FfiResult : Type 0 where
  pub kind : FfiResultKind

abbrev pub new : FfiResultKind → FfiResult
new k = record { kind = k }

abbrev pub ok_result : FfiResult
ok_result = new FfiResultKind.ok

abbrev pub err_result : FfiResult
err_result = new FfiResultKind.error

abbrev pub buffer_too_small : FfiResult
buffer_too_small = new FfiResultKind.buffer_to_small

abbrev pub buffer_blocked : FfiResult
buffer_blocked = new FfiResultKind.buffer_blocked

abbrev pub argument_null : FfiResult
argument_null = new FfiResultKind.argument_null

-- `FFIResult::is_err`: `kind != Ok`.
unfoldable pub is_err : FfiResult → Bool
is_err r = elim r.kind [ FfiResultKind.ok ↦ false | _ ↦ true ]

-- `extract_panic`.
unfoldable pub extract_panic : Payload → Option Text
extract_panic (Payload.string s) = some s
extract_panic (Payload.str s) = some s
extract_panic Payload.other = none

abbrev pub last_error_of : Option LastResult → Option FfiErrorKind
last_error_of none = none
last_error_of (some last) = last.last_err

-- `fmt::Display for FFIResult`.
unfoldable pub display_result : FfiResult → Text
display_result r = elim r.kind [
  | FfiResultKind.ok ↦ bytes "Successful"
  | FfiResultKind.error ↦ bytes "Some error occurred"
  | FfiResultKind.buffer_to_small ↦ bytes "The supplied buffer was to small."
  | FfiResultKind.buffer_blocked ↦ bytes "There is no data in the buffer to be read."
  | FfiResultKind.argument_null ↦ bytes "An argument was null."
]

module _ {P : Proto} where
  abbrev pub set_last : FfiErrorKind → World P → World P
  set_last e w = record w { last_result = some (record { last_err = some e }) }

  -- `FFIResult::context`.
  unfoldable pub context : FfiErrorKind → FfiResult → M (World P) FfiResult
  context e r w = (ok r, set_last e w)

  -- `FFIResult::from_last_result`.
  unfoldable pub from_last_result :
      {R : Type 0} → (Option FfiErrorKind → M (World P) R) → M (World P) R
  from_last_result f w = f (last_error_of w.last_result) w

  -- The handler of a panic in `catch`. `as_mut().map` runs only if something is stored.
  abbrev rewrite_last : Option LastResult → Option Text → M (World P) FfiResult
  rewrite_last none message w = (ok err_result, w)
  rewrite_last (some last) none w = (panic none_panic, w)
  rewrite_last (some last) (some s) w =
      (ok err_result, set_last (io_error (bytes "internal panic with '" ++ (s ++ bytes "'"))) w)

  abbrev caught : Exit FfiResult → M (World P) FfiResult
  caught (ok r) w = (ok r, w)
  caught (err e) w = (err e, w)
  caught (panic p) w = rewrite_last w.last_result (extract_panic p) w
  caught hang w = (hang, w)
  caught undefined w = (undefined, w)

  -- `FFIResult::catch`.
  unfoldable pub catch : M (World P) FfiResult → M (World P) FfiResult
  catch f w = let (e, w') = f (record w { last_result = none }) in caught e w'

  -- `From<Result<T, FFIErrorKind>> for FFIResult`.
  abbrev pub from_error : FfiErrorKind → M (World P) FfiResult
  from_error (ffi_result_kind FfiResultKind.ok) w = (ok ok_result, w)
  from_error (ffi_result_kind FfiResultKind.error) w = (ok err_result, w)
  from_error (ffi_result_kind FfiResultKind.buffer_to_small) w = (ok buffer_too_small, w)
  from_error (ffi_result_kind FfiResultKind.buffer_blocked) w = (ok buffer_blocked, w)
  from_error (ffi_result_kind FfiResultKind.argument_null) w = (ok argument_null, w)
  from_error (FfiErrorKind.quinn_error code reason) w =
      context (FfiErrorKind.quinn_error code reason) err_result w
  from_error FfiErrorKind.ffi_error w = context FfiErrorKind.ffi_error err_result w
  from_error (io_error text) w = context (io_error text) err_result w

  abbrev pub into_exit : {A : Type 0} → Exit A → M (World P) FfiResult
  into_exit (ok a) w = (ok ok_result, w)
  into_exit (err e) w = from_error e w
  into_exit (panic p) w = (panic p, w)
  into_exit hang w = (hang, w)
  into_exit undefined w = (undefined, w)

  -- `.into()` at the end of a call.
  unfoldable pub into_result : {A : Type 0} → M (World P) A → M (World P) FfiResult
  unfolding context
  into_result m w = let (e, w') = m w in into_exit e w'

  -- `From<&str> for FFIResult`.
  unfoldable pub from_str : Text → M (World P) FfiResult
  unfolding context
  from_str text = context (io_error text) err_result
