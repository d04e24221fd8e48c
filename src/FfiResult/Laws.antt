-- ===== src/FfiResult/Laws.antt =====
-- What `catch` and the conversions of ffi_result.rs do.
use quinn_ffi.Prelude.{◌≡◌, refl, none, some, bytes, ◌++◌, arith}
use quinn_ffi.ErrorKind.{Text, FfiErrorKind, io_error, FfiResultKind, ffi_result_kind}
use quinn_ffi.Effect.{M, ok, err, panic, Payload}
use quinn_ffi.Proto.{Proto}
use quinn_ffi.World.{World, LastResult}
use quinn_ffi.FfiResult.{
  FfiResult, new, ok_result, err_result, set_last, catch, extract_panic, into_result, from_error,
  context,
}

-- The message that `catch` keeps of a panic.
abbrev pub panic_error : Text → FfiErrorKind
panic_error s = io_error (bytes "internal panic with '" ++ (s ++ bytes "'"))

-- The kind that the application sees, and what is stored for `last_error`.
abbrev pub kind_of : FfiErrorKind → FfiResultKind
kind_of (ffi_result_kind k) = k
kind_of (FfiErrorKind.quinn_error code reason) = FfiResultKind.error
kind_of FfiErrorKind.ffi_error = FfiResultKind.error
kind_of (io_error text) = FfiResultKind.error

module _ {P : Proto} where
  abbrev pub clear_last : World P → World P
  clear_last w = record w { last_result = none }

  pub catch-ok :
      (f : M (World P) FfiResult) (r : FfiResult) (w w' : World P)
      → f (clear_last w) ≡ (ok r, w')
      → catch f w ≡ (ok r, w')
  unfolding catch
  catch-ok f r w w' h = ground arith

  -- A panic while nothing is stored.
  pub catch-panic_unset :
      (f : M (World P) FfiResult) (p : Payload) (w w' : World P)
      → f (clear_last w) ≡ (panic p, w')
      → w'.last_result ≡ none
      → catch f w ≡ (ok err_result, w')
  unfolding catch
  catch-panic_unset f p w w' h e = ground arith

  pub catch-panic_set :
      (f : M (World P) FfiResult) (p : Payload) (s : Text) (l : LastResult) (w w' : World P)
      → f (clear_last w) ≡ (panic p, w')
      → w'.last_result ≡ some l
      → extract_panic p ≡ some s
      → catch f w ≡ (ok err_result, set_last (panic_error s) w')
  unfolding catch
  catch-panic_set f p s l w w' h e x = ground arith

  abbrev pub remember : FfiErrorKind → World P → World P
  remember (ffi_result_kind k) w = w
  remember (FfiErrorKind.quinn_error code reason) w =
      set_last (FfiErrorKind.quinn_error code reason) w
  remember FfiErrorKind.ffi_error w = set_last FfiErrorKind.ffi_error w
  remember (io_error text) w = set_last (io_error text) w

  from_error_lem :
      (e : FfiErrorKind) (w : World P) → from_error e w ≡ (ok (new (kind_of e)), remember e w)
  unfolding context
  from_error_lem (ffi_result_kind FfiResultKind.ok) w = refl
  from_error_lem (ffi_result_kind FfiResultKind.error) w = refl
  from_error_lem (ffi_result_kind FfiResultKind.buffer_to_small) w = refl
  from_error_lem (ffi_result_kind FfiResultKind.buffer_blocked) w = refl
  from_error_lem (ffi_result_kind FfiResultKind.argument_null) w = refl
  from_error_lem (FfiErrorKind.quinn_error code reason) w = refl
  from_error_lem FfiErrorKind.ffi_error w = refl
  from_error_lem (io_error text) w = refl

  -- An error that wraps a result kind becomes that kind and stores nothing; every other error
  -- becomes `Error` and is stored.
  pub into_result-err :
      {A : Type 0} (m : M (World P) A) (e : FfiErrorKind) (w w' : World P)
      → m w ≡ (err e, w')
      → into_result m w ≡ (ok (new (kind_of e)), remember e w')
  unfolding into_result
  into_result-err m e w w' h = ground (arith, from_error_lem e w')

  pub into_result-ok :
      {A : Type 0} (m : M (World P) A) (a : A) (w w' : World P)
      → m w ≡ (ok a, w')
      → into_result m w ≡ (ok ok_result, w')
  unfolding into_result
  into_result-ok m a w w' h = ground arith

  pub into_result-panic :
      {A : Type 0} (m : M (World P) A) (p : Payload) (w w' : World P)
      → m w ≡ (panic p, w')
      → into_result m w ≡ (panic p, w')
  unfolding into_result
  into_result-panic m p w w' h = ground arith
