-- ===== src/Bindings/Accounted.antt =====
-- The exported functions and the counts of the connections' `Arc`s.
use quinn_ffi.Prelude.{ℕ, Bool, ◌≡◌, refl, sym, subst, List, inl, inr, Bool-cases, arith, Option}
use quinn_ffi.ErrorKind.{Text}
use quinn_ffi.Addr.{IpAddr, into_socket_addr}
use quinn_ffi.World.Clock.{now}
use quinn_ffi.Utf8.{is_utf8}
use quinn_ffi.Effect.{M, ignore, ◌>>=◌, lift}
use quinn_ffi.Effect.Laws.{Preserves, >>=-Preserves}
use quinn_ffi.Proto.{Proto}
use quinn_ffi.World.{World, LastResult}
use quinn_ffi.World.Memory.{as_bytes}
use quinn_ffi.World.Arcs.Left.{Leaves, Leaves-refl, Leaves-same}
use quinn_ffi.FfiResult.{into_result}
use quinn_ffi.FfiResult.Preserved.{into_result-Preserves}
use quinn_ffi.Api.Preserved.{safe_ffi-Preserves}
use quinn_ffi.Api.{safe_ffi}
use quinn_ffi.Connection
use quinn_ffi.Connection.Preserved
use quinn_ffi.Endpoint
use quinn_ffi.Endpoint.Preserved.{PartsPreserve, poll-Preserves}
use quinn_ffi.Endpoint.Refs.Counted.{Outside, AreCounted}
use quinn_ffi.Endpoint.Refs.Parts.{parts-AreCounted, parts-Leaves}
use quinn_ffi.Handle.{endpoint_access, connection_access}
use quinn_ffi.Handle.Counted.{IsAccounted, Leaves-IsAccounted}
use quinn_ffi.Handle.Counted.Locked.{endpoint_access-IsAccounted, connection_access-IsAccounted}
use quinn_ffi.Bindings.Endpoints.{
  connect_client, connect_body, connect_callback, handle_datagram, datagram_event, poll_endpoint,
}
use quinn_ffi.Bindings.Endpoints.Counted.{
  lift-AreCounted, connect_callback-AreCounted, datagram_event-AreCounted,
}
use quinn_ffi.Bindings.Connections.{poll_connection}

module _ {P : Proto} where
  abbrev pub KeepsAccounts : {A : Type 0} → M (World P) A → Type 0
  KeepsAccounts m = Preserves (IsAccounted {P = P}) m

  pub result-IsAccounted :
      (o : Option LastResult) (w : World P)
      → IsAccounted w
      → IsAccounted (record w { last_result = o })
  result-IsAccounted o w =
      Leaves-IsAccounted w (record w { last_result = o })
        (Leaves-same w w (record w { last_result = o }) refl refl (omega arith) refl
          (Leaves-refl w))

  as_bytes-Leaves : (p len : ℕ) (w : World P) → Leaves w (as_bytes p len w).1
  unfolding as_bytes
  as_bytes-Leaves p len w =
      let same : (as_bytes p len w).1 ≡ w = ground arith in
      subst (Leaves w) (sym same) (Leaves-refl w)

  now-Leaves : (w : World P) → Leaves w (now w).1
  unfolding now
  now-Leaves w = Leaves-same w w (now w).1 refl refl (omega arith) refl (Leaves-refl w)

  -- An exported function whose body ends in `.into()`.
  pub exported :
      {A : Type 0} (args : List (Text × Bool)) (m : M (World P) A)
      → KeepsAccounts m
      → KeepsAccounts (safe_ffi args (into_result m))
  exported args m h =
      safe_ffi-Preserves IsAccounted result-IsAccounted args (into_result m)
        (into_result-Preserves IsAccounted result-IsAccounted m h)

  pub as_bytes-IsAccounted : (p len : ℕ) → KeepsAccounts (as_bytes p len)
  as_bytes-IsAccounted p len w = Leaves-IsAccounted w (as_bytes p len w).1 (as_bytes-Leaves p len w)

  pub poll_connection-IsAccounted :
      (auto_poll : Bool) (handle : ℕ) → KeepsAccounts (poll_connection auto_poll handle)
  unfolding poll_connection
  poll_connection-IsAccounted auto_poll handle =
      exported _ (connection_access handle (Connection.poll auto_poll)) (
        connection_access-IsAccounted handle (Connection.poll auto_poll)
          λ w. Connection.Preserved.poll-Preserves (Leaves w) (parts-Leaves w) auto_poll)

  pub poll_endpoint-IsAccounted : (handle : ℕ) → KeepsAccounts (poll_endpoint handle)
  unfolding poll_endpoint
  poll_endpoint-IsAccounted handle = exported _ (endpoint_access handle (ignore Endpoint.poll)) (
      endpoint_access-IsAccounted handle (ignore Endpoint.poll)
        λ other s i. poll-Preserves (AreCounted other) (parts-AreCounted other) s i)

  connect_body-IsAccounted :
      (auto_poll : Bool) (handle host_bytes len : ℕ) (address : IpAddr) (out out_id : ℕ)
      → KeepsAccounts (connect_body auto_poll handle host_bytes len address out out_id)
  unfolding connect_body
  connect_body-IsAccounted auto_poll handle host_bytes len address out out_id =
      >>=-Preserves IsAccounted (as_bytes host_bytes len) _ (as_bytes-IsAccounted host_bytes len)
        λ host w i. elim (Bool-cases (is_utf8 host)) [
          | inl e ↦ rw e (
              into_result-Preserves IsAccounted result-IsAccounted
                (endpoint_access handle (connect_callback auto_poll address host out out_id))
                (endpoint_access-IsAccounted handle
                  (connect_callback auto_poll address host out out_id)
                  λ other. connect_callback-AreCounted other auto_poll address host out out_id)
                w i)
          | inr e ↦ rw e i
        ]

  pub connect_client-IsAccounted :
      (auto_poll : Bool) (handle host_bytes len : ℕ) (address : IpAddr) (out out_id : ℕ)
      → KeepsAccounts (connect_client auto_poll handle host_bytes len address out out_id)
  unfolding connect_client
  connect_client-IsAccounted auto_poll handle host_bytes len address out out_id =
      safe_ffi-Preserves IsAccounted result-IsAccounted _
        (connect_body auto_poll handle host_bytes len address out out_id)
        (connect_body-IsAccounted auto_poll handle host_bytes len address out out_id)

  received-AreCounted :
      (auto_poll : Bool) (other : Outside P) (bytes_ptr length : ℕ) (address : IpAddr)
      → Preserves (AreCounted other) (do
        slice ← lift (as_bytes bytes_ptr length)
        t ← lift now
        r ← Endpoint.inner λ i. P.handle i t (into_socket_addr address) slice
        datagram_event auto_poll r)
  received-AreCounted auto_poll other bytes_ptr length address =
      >>=-Preserves (AreCounted other) (lift (as_bytes bytes_ptr length)) _
        (lift-AreCounted other (as_bytes bytes_ptr length) (as_bytes-Leaves bytes_ptr length))
        λ slice.
          >>=-Preserves (AreCounted other) (lift now) _ (lift-AreCounted other now now-Leaves) λ t.
            >>=-Preserves (AreCounted other)
              (Endpoint.inner λ i. P.handle i t (into_socket_addr address) slice)
              (datagram_event auto_poll)
              (PartsPreserve.inner (parts-AreCounted other)
                λ i. P.handle i t (into_socket_addr address) slice)
              (datagram_event-AreCounted other auto_poll)

  pub handle_datagram-IsAccounted :
      (auto_poll : Bool) (handle bytes_ptr length : ℕ) (address : IpAddr)
      → KeepsAccounts (handle_datagram auto_poll handle bytes_ptr length address)
  unfolding handle_datagram
  handle_datagram-IsAccounted auto_poll handle bytes_ptr length address =
      exported _ (endpoint_access handle _) (
        endpoint_access-IsAccounted handle _
          λ other. received-AreCounted auto_poll other bytes_ptr length address)
