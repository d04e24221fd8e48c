-- ===== src/Bindings/Connections.antt =====
-- The functions on connections.
pub mod Accounted
pub mod Calls
pub mod Counted
pub mod Freed
pub mod Stuck
use quinn_ffi.Prelude.{ℕ, Bool, false, List, [], ◌∷◌, bytes}
use quinn_ffi.Effect.{
  M, Exit, ok, err, panic, hang, undefined, Payload, ◌>>=◌, ◌>>◌, pure, lift, ignore, unwrap, gets,
}
use quinn_ffi.Proto.{Proto}
use quinn_ffi.World.{World, ConnectionImpl, EndpointImpl}
use quinn_ffi.World.Memory.{is_null, as_bytes}
use quinn_ffi.Connection
use quinn_ffi.Connection.{Conn, self}
use quinn_ffi.Endpoint.{Endp}
use quinn_ffi.Endpoint.Refs.{remove_connection}
use quinn_ffi.FfiResult.{FfiResult, err_result, ok_result, context, into_result}
use quinn_ffi.Api.{safe_ffi}
use quinn_ffi.Handle.{connection_access, connection_access_in, endpoint_access, dealloc_connection}

-- The panic of `VarInt::from_u64(error_code).unwrap()`.
abbrev varint_panic : Payload
varint_panic =
    Payload.string (bytes "called `Result::unwrap()` on an `Err` value: VarIntBoundsExceeded")

module _ {P : Proto} (auto_poll : Bool) where
  unfoldable pub poll_connection : ℕ → M (World P) FfiResult
  poll_connection handle =
      safe_ffi ((bytes "handle", is_null handle) ∷ [])
        (into_result (connection_access handle (Connection.poll auto_poll)))

module _ {P : Proto} where
  -- The body of `close_connection`.
  close_inner : ℕ → List ℕ → Conn P (Unit {0})
  close_inner error_code reason = do
    code ← unwrap varint_panic (P.varint_from_u64 error_code)
    Connection.close code reason

  unfoldable pub close_connection : ℕ → ℕ → ℕ → ℕ → M (World P) FfiResult
  unfolding close_inner
  close_connection handle reason reason_length error_code =
      safe_ffi
        ((bytes "handle", is_null handle)
          ∷ (bytes "reason", is_null reason)
          ∷ (bytes "reason_lenght", false)
          ∷ (bytes "error_code", false)
          ∷ [])
        do
          bs ← as_bytes reason reason_length
          into_result (connection_access handle (close_inner error_code bs))

  -- `if let Err(_e) = result { return FFIResult::err().context(_e); }`, and the box is freed.
  free_result : ℕ → Exit (Unit {0}) → M (World P) FfiResult
  free_result handle (err e) w = context e err_result w
  free_result handle (ok _) w = (dealloc_connection handle >> pure ok_result) w
  free_result handle (panic p) w = (panic p, w)
  free_result handle hang w = (hang, w)
  free_result handle undefined w = (undefined, w)

  -- Inside the endpoint's lock the connection is locked for its handle, and the endpoint forgets it.
  abbrev forgotten : M (ConnectionImpl P × (EndpointImpl P × World P)) (Unit {0})
  forgotten = do c ← gets λ s. s.0; lift (remove_connection c.connection_handle)

  pub forget : ℕ → Endp P (Unit {0})
  forget handle = connection_access_in handle forgotten

  unfoldable pub free_body : ℕ → ℕ → M (World P) FfiResult
  unfolding free_result forget
  free_body endpoint handle w =
      let (e, w') = endpoint_access endpoint (ignore (forget handle)) w in free_result handle e w'

  unfoldable pub free_connection : ℕ → ℕ → M (World P) FfiResult
  free_connection endpoint handle =
      safe_ffi ((bytes "endpoint", is_null endpoint) ∷ (bytes "handle", is_null handle) ∷ [])
        (free_body endpoint handle)
