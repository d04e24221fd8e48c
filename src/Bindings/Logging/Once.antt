-- ===== src/Bindings/Logging/Once.antt =====
-- What a second `enable_log` does.
use quinn_ffi.Prelude.{ℕ, ◌≡◌, refl, none, some, true, false, List, ◌++◌, length, lookup, arith}
use quinn_ffi.ErrorKind.{Text}
use quinn_ffi.Effect.{ok, panic}
use quinn_ffi.Proto.{Proto}
use quinn_ffi.World.{World}
use quinn_ffi.World.Memory.{is_null}
use quinn_ffi.World.Memory.Slices.{as_bytes-append}
use quinn_ffi.FfiResult.{ok_result, err_result}
use quinn_ffi.FfiResult.Laws.{clear_last, catch-ok, catch-panic_unset}
use quinn_ffi.Api.Laws.{first_null, safe_ffi-catch}
use quinn_ffi.Utf8.{is_utf8}
use quinn_ffi.Bindings.Logging.{
  Tracing, enable_log, log_body, log_args, subscribed, subscriber_panic,
}

-- tracing sets a global default once: while one is set, setting another fails.
pub record IsOnce (T : Tracing) : Type 0 where
  pub once :
      (f g : Text) (s s' : ℕ)
      → T.set_global_default f s ≡ some s'
      → T.set_global_default g s' ≡ none

log_args-valid : (p : ℕ) → is_null p ≡ false → first_null (log_args p) ≡ none
log_args-valid p h = ground arith

module _ {P : Proto} (T : Tracing) where
  -- A filter in UTF-8, which starts the memory behind the pointer.
  log_body-sets :
      (p d : ℕ) (f rest : List ℕ) (w : World P)
      → lookup p w.buffers ≡ some (f ++ rest)
      → is_utf8 f ≡ true
      → T.set_global_default f w.dispatch ≡ some d
      → log_body T p (length f) w ≡ (ok ok_result, record w { dispatch = d })
  unfolding log_body subscribed
  log_body-sets p d f rest w b u s = rw (as_bytes-append p f rest w b, u, s) refl

  log_body-refused :
      (p : ℕ) (f rest : List ℕ) (w : World P)
      → lookup p w.buffers ≡ some (f ++ rest)
      → is_utf8 f ≡ true
      → T.set_global_default f w.dispatch ≡ none
      → log_body T p (length f) w ≡ (panic (subscriber_panic T), w)
  unfolding log_body subscribed
  log_body-refused p f rest w b u s = rw (as_bytes-append p f rest w b, u, s) refl

  -- `enable_log` works once: the call that makes its filter the global default returns `Ok`, and a later
  -- one, with that default still set, returns `Error`, changes nothing and stores no error. So it is for
  -- filters in UTF-8 behind valid pointers, and with a crate tracing that sets a default once.
  pub enable_log-once :
      (p q d : ℕ) (f g rest more : List ℕ) (w v : World P)
      → IsOnce T
      → is_null p ≡ false
      → is_null q ≡ false
      → lookup p w.buffers ≡ some (f ++ rest)
      → lookup q v.buffers ≡ some (g ++ more)
      → is_utf8 f ≡ true
      → is_utf8 g ≡ true
      → T.set_global_default f w.dispatch ≡ some d
      → v.dispatch ≡ d
      → (enable_log T p (length f) w ≡ (ok ok_result, record (clear_last w) { dispatch = d }))
        × (enable_log T q (length g) v ≡ (ok err_result, clear_last v))
  unfolding enable_log
  enable_log-once p q d f g rest more w v once hp hq bp bq up uq set same = (
    rw (safe_ffi-catch (log_args p) (log_body T p (length f)) (log_args-valid p hp)) (
        catch-ok (log_body T p (length f)) ok_result w (record (clear_last w) { dispatch = d })
          (log_body-sets p d f rest (clear_last w) bp up set)),
    rw (safe_ffi-catch (log_args q) (log_body T q (length g)) (log_args-valid q hq)) (
        catch-panic_unset (log_body T q (length g)) (subscriber_panic T) v (clear_last v)
          (log_body-refused q g more (clear_last v) bq uq
            (rw same (once.once f g w.dispatch d set)))
          refl),
  )
