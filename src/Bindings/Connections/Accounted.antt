-- ===== src/Bindings/Connections/Accounted.antt =====
-- `free_connection` and `close_connection`, and the counts of the connections' `Arc`s.
use quinn_ffi.Prelude.{ℕ, List, none, some, Option}
use quinn_ffi.Effect.{Exit, ok, err, panic, hang, undefined, ignore, pure, unwrap}
use quinn_ffi.Effect.Laws.{Preserves, >>=-Preserves}
use quinn_ffi.Proto.{Proto}
use quinn_ffi.World.{World, ConnectionImpl}
use quinn_ffi.World.Memory.{as_bytes}
use quinn_ffi.World.Arcs.Left.{Leaves}
use quinn_ffi.Connection
use quinn_ffi.FfiResult.{err_result, ok_result}
use quinn_ffi.FfiResult.Preserved.{context-Preserves, into_result-Preserves}
use quinn_ffi.Api.Preserved.{safe_ffi-Preserves}
use quinn_ffi.Handle.{endpoint_access, connection_access, dealloc_connection}
use quinn_ffi.Handle.Counted.{IsAccounted, dealloc_connection-IsAccounted}
use quinn_ffi.Handle.Counted.Locked.{endpoint_access-IsAccounted, connection_access-IsAccounted}
use quinn_ffi.Endpoint.Refs.Parts.{parts-Leaves}
use quinn_ffi.Bindings.Accounted.{KeepsAccounts, result-IsAccounted, as_bytes-IsAccounted}
use quinn_ffi.Bindings.Connections.{
  free_connection, free_body, free_result, forget, close_connection, close_inner, varint_panic,
}
use quinn_ffi.Bindings.Connections.Counted.{forget-AreCounted}

module _ {P : Proto} where
  free_result-IsAccounted :
      (handle : ℕ) (x : Exit (Unit {0})) → KeepsAccounts {P = P} (free_result handle x)
  unfolding free_result
  free_result-IsAccounted handle (err e) w i =
      context-Preserves IsAccounted result-IsAccounted e err_result w i
  free_result-IsAccounted handle (ok a) w i =
      >>=-Preserves IsAccounted (dealloc_connection handle) (λ _. pure ok_result)
        (dealloc_connection-IsAccounted handle) (λ _ v j. j) w i
  free_result-IsAccounted handle (panic p) w i = i
  free_result-IsAccounted handle hang w i = i
  free_result-IsAccounted handle undefined w i = i

  free_body-IsAccounted : (endpoint handle : ℕ) → KeepsAccounts {P = P} (free_body endpoint handle)
  unfolding free_body
  free_body-IsAccounted endpoint handle w i =
      let (x, w') = endpoint_access endpoint (ignore (forget handle)) w in
      free_result-IsAccounted handle x w' (
        endpoint_access-IsAccounted endpoint (ignore (forget handle))
          (λ other s c. forget-AreCounted other handle s c) w i)

  pub free_connection-IsAccounted :
      (endpoint handle : ℕ) → KeepsAccounts {P = P} (free_connection endpoint handle)
  unfolding free_connection
  free_connection-IsAccounted endpoint handle =
      safe_ffi-Preserves IsAccounted result-IsAccounted _ (free_body endpoint handle)
        (free_body-IsAccounted endpoint handle)

  unwrapped-Leaves :
      {A : Type 0} (w₀ : World P) (o : Option A)
      → Preserves (λ (t : ConnectionImpl P × World P). Leaves w₀ t.1) (unwrap varint_panic o)
  unwrapped-Leaves w₀ none s l = l
  unwrapped-Leaves w₀ (some a) s l = l

  close-Leaves :
      (w₀ : World P) (code : P.VarInt) (reason : List ℕ)
      → Preserves (λ t. Leaves w₀ t.1) (Connection.close code reason)
  unfolding Connection.close
  close-Leaves w₀ code reason s l = (parts-Leaves w₀).read s.1 l

  close_inner-Leaves :
      (w₀ : World P) (error_code : ℕ) (reason : List ℕ)
      → Preserves (λ t. Leaves w₀ t.1) (close_inner error_code reason)
  unfolding close_inner
  close_inner-Leaves w₀ error_code reason =
      >>=-Preserves (λ t. Leaves w₀ t.1) (unwrap varint_panic (P.varint_from_u64 error_code))
        (λ code. Connection.close code reason) (unwrapped-Leaves w₀ (P.varint_from_u64 error_code))
        (λ code. close-Leaves w₀ code reason)

  pub close_connection-IsAccounted :
      (handle reason reason_length error_code : ℕ)
      → KeepsAccounts {P = P} (close_connection handle reason reason_length error_code)
  unfolding close_connection
  close_connection-IsAccounted handle reason reason_length error_code =
      safe_ffi-Preserves IsAccounted result-IsAccounted _ _ (
        >>=-Preserves IsAccounted (as_bytes reason reason_length) _
          (as_bytes-IsAccounted reason reason_length)
          λ bs.
            into_result-Preserves IsAccounted result-IsAccounted
              (connection_access handle (close_inner error_code bs))
              (connection_access-IsAccounted handle (close_inner error_code bs)
                λ w. close_inner-Leaves w error_code bs))
