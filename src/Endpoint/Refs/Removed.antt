-- ===== src/Endpoint/Refs/Removed.antt =====
-- `EndpointImpl::remove_connection`.
use quinn_ffi.Prelude.{ℕ, ◌≡◌, ◌≢◌, refl, sym, none, lookup, lookup-erase_self, lookup-erase_ne}
use quinn_ffi.Effect.{ok}
use quinn_ffi.Proto.{Proto}
use quinn_ffi.World.{World, EndpointImpl}
use quinn_ffi.Endpoint.{remove_sender}
use quinn_ffi.Endpoint.Refs.{remove_connection, remove_ref}

module _ {P : Proto} where
  -- Removing a connection succeeds, and takes its handle out of both maps; every other handle keeps its
  -- sender and its reference.
  pub remove_connection-forgets :
      (handle other : ℕ) (e : EndpointImpl P) (w : World P)
      → other ≢ handle
      → let (x, (e', w')) = remove_connection handle (e, w) in
        (x ≡ ok tt)
        × (lookup handle e'.connections ≡ none)
        × (lookup handle e'.connection_refs ≡ none)
        × (lookup other e'.connections ≡ lookup other e.connections)
        × (lookup other e'.connection_refs ≡ lookup other e.connection_refs)
  unfolding remove_connection remove_ref remove_sender
  remove_connection-forgets handle other e w n = (
    refl,
    lookup-erase_self handle e.connections,
    lookup-erase_self handle e.connection_refs,
    lookup-erase_ne other handle e.connections (λ p. n (sym p)),
    lookup-erase_ne other handle e.connection_refs (λ p. n (sym p)),
  )
