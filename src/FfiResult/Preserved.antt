-- ===== src/FfiResult/Preserved.antt =====
-- What `FFIResult` preserves of the shared state: any property that does not read the last result.
use quinn_ffi.Prelude.{Option, none, some}
use quinn_ffi.ErrorKind.{Text, FfiErrorKind, FfiResultKind, io_error, ffi_result_kind}
use quinn_ffi.Effect.{M, Exit, ok, err, panic, hang, undefined}
use quinn_ffi.Effect.Laws.{Preserves}
use quinn_ffi.Proto.{Proto}
use quinn_ffi.World.{World, LastResult}
use quinn_ffi.FfiResult.{
  FfiResult, context, catch, caught, rewrite_last, from_error, into_exit, into_result,
  extract_panic,
}

module _ {P : Proto} (I : World P → Type 0)
    (results : (o : Option LastResult) (w : World P) → I w → I (record w { last_result = o })) where
  abbrev Keeps : {A : Type 0} → M (World P) A → Type 0
  Keeps m = Preserves I m

  pub context-Preserves : (e : FfiErrorKind) (r : FfiResult) → Keeps (context e r)
  unfolding context
  context-Preserves e r w = results (some (record { last_err = some e })) w

  rewrite_last-Preserves : (o : Option LastResult) (m : Option Text) → Keeps (rewrite_last o m)
  rewrite_last-Preserves none m w i = i
  rewrite_last-Preserves (some l) none w i = i
  rewrite_last-Preserves (some l) (some s) w i = results _ w i

  caught-Preserves : (x : Exit FfiResult) → Keeps (caught x)
  caught-Preserves (ok r) w i = i
  caught-Preserves (err e) w i = i
  caught-Preserves (panic p) w i = rewrite_last-Preserves w.last_result (extract_panic p) w i
  caught-Preserves hang w i = i
  caught-Preserves undefined w i = i

  pub catch-Preserves : (body : M (World P) FfiResult) → Keeps body → Keeps (catch body)
  unfolding catch
  catch-Preserves body h w i =
      let w₀ = record w { last_result = none } in
      let (x, w') = body w₀ in caught-Preserves x w' (h w₀ (results none w i))

  from_error-Preserves : (e : FfiErrorKind) → Keeps (from_error e)
  from_error-Preserves (ffi_result_kind FfiResultKind.ok) w i = i
  from_error-Preserves (ffi_result_kind FfiResultKind.error) w i = i
  from_error-Preserves (ffi_result_kind FfiResultKind.buffer_to_small) w i = i
  from_error-Preserves (ffi_result_kind FfiResultKind.buffer_blocked) w i = i
  from_error-Preserves (ffi_result_kind FfiResultKind.argument_null) w i = i
  from_error-Preserves (FfiErrorKind.quinn_error code reason) w i = context-Preserves _ _ w i
  from_error-Preserves FfiErrorKind.ffi_error w i = context-Preserves _ _ w i
  from_error-Preserves (io_error text) w i = context-Preserves _ _ w i

  into_exit-Preserves : {A : Type 0} (x : Exit A) → Keeps (into_exit x)
  into_exit-Preserves (ok a) w i = i
  into_exit-Preserves (err e) w i = from_error-Preserves e w i
  into_exit-Preserves (panic p) w i = i
  into_exit-Preserves hang w i = i
  into_exit-Preserves undefined w i = i

  pub into_result-Preserves : {A : Type 0} (m : M (World P) A) → Keeps m → Keeps (into_result m)
  unfolding into_result
  into_result-Preserves m h w i = let (x, w') = m w in into_exit-Preserves x w' (h w i)
