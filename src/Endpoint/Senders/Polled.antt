-- ===== src/Endpoint/Senders/Polled.antt =====
-- `EndpointImpl::poll_connection` and the map of senders.
use quinn_ffi.Prelude.{ℕ, refl, Bool, Option, none, some, lookup, bytes}
use quinn_ffi.ErrorKind.{io_error}
use quinn_ffi.Effect.{M, raise, lift, pure}
use quinn_ffi.Proto.{Proto}
use quinn_ffi.World.{World}
use quinn_ffi.World.Mutex.{with_try_lock}
use quinn_ffi.World.Grows.{Grows, Grows-refl}
use quinn_ffi.Connection.{mark_pollable}
use quinn_ffi.Connection.Grows.{parts-Grows}
use quinn_ffi.World.Mutex.Locked.{AllowsWrites, tried-Preserves}
use quinn_ffi.Connection.Preserved.{mark_pollable-Preserves}
use quinn_ffi.Endpoint.{connection_cells, put_connection_cells}
use quinn_ffi.Endpoint.Refs
use quinn_ffi.Endpoint.Senders.{IsWf-Grows}
use quinn_ffi.Endpoint.Senders.Methods.{KeepsWf}

module _ {P : Proto} where
  Grows-writes : (w₀ : World P) → AllowsWrites connection_cells put_connection_cells (Grows w₀)
  Grows-writes w₀ k c c' w l s g = g

  found-IsWf :
      (auto_poll : Bool) (o : Option ℕ)
      → KeepsWf {P = P} {A = Unit {0}} (elim o [
        | none ↦ pure tt
        | some k ↦
            let skipped = raise (io_error (bytes "Locked endpoint connection lock")) in
            lift (
              with_try_lock connection_cells put_connection_cells k
                (mark_pollable auto_poll)
                skipped
                skipped)
      ])
  found-IsWf auto_poll none s i = i
  found-IsWf auto_poll (some k) (e, w) i =
      let skipped : M (World P) (Unit {0}) =
        raise (io_error (bytes "Locked endpoint connection lock")) in
      IsWf-Grows (e, w)
        (
          e,
          (with_try_lock connection_cells put_connection_cells k (mark_pollable auto_poll) skipped
              skipped w).1,
        )
        refl
        (tried-Preserves connection_cells put_connection_cells (Grows w) (Grows-writes w) k
          (mark_pollable auto_poll) skipped
          (mark_pollable-Preserves (Grows w) (parts-Grows w) auto_poll) (λ w' g. g) w
          (Grows-refl w))
        i

  pub poll_connection-IsWf :
      (auto_poll : Bool) (handle : ℕ) → KeepsWf {P = P} (Refs.poll_connection auto_poll handle)
  unfolding Refs.poll_connection
  poll_connection-IsWf auto_poll handle s i =
      found-IsWf auto_poll (lookup handle s.0.connection_refs) s i
