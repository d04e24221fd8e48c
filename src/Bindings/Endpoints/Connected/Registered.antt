-- ===== src/Bindings/Endpoints/Connected/Registered.antt =====
-- `connect_client` when the library makes a connection: what the application can do with its handle.
use quinn_ffi.Prelude.{
  ℕ, ◌+◌, ◌%◌, ◌^◌, ◌≡◌, ◌≤◌, refl, sym, ◌∙◌, none, some, true, false, [], ◌∷◌, ◌++◌, List, lookup,
  insert, take, length, lookup-insert_self, lookup-insert_ne, arith, Dict,
}
use quinn_ffi.ErrorKind.{Text}
use quinn_ffi.Effect.{ok}
use quinn_ffi.Proto.{Proto}
use quinn_ffi.Addr.{IpAddr}
use quinn_ffi.World.{World, Shared, EndpointImpl, Call}
use quinn_ffi.World.Memory.{as_bytes}
use quinn_ffi.World.Mutex.{release}
use quinn_ffi.World.Arcs.{new_shared}
use quinn_ffi.FfiResult.{ok_result, into_result}
use quinn_ffi.FfiResult.Laws.{clear_last, catch-ok}
use quinn_ffi.Api.Laws.{safe_ffi-catch, first_null}
use quinn_ffi.Handle.{endpoint_access}
use quinn_ffi.Handle.Poison.{endpoint_access-runs}
use quinn_ffi.Utf8.{is_utf8}
use quinn_ffi.Bindings.Connections.Freed.{IsRegistered}
use quinn_ffi.Bindings.Endpoints.{connect_client, connect_callback, connect_body, connect_args}
use quinn_ffi.Bindings.Endpoints.Connected.{
  made, added, channelled, boxed_connection, CanConnect, connect_callback-connects,
}

module _ {P : Proto} where
  held-CanConnect :
      (ch : ℕ) (conn : P.Connection) (i : P.Endpoint) (address : IpAddr) (host : Text)
      (out out_id f : ℕ) (e : EndpointImpl P) (w : World P) (d : Dict (Shared (EndpointImpl P)))
      → CanConnect ch conn i address host out out_id f e w
      → CanConnect ch conn i address host out out_id f e (record (clear_last w) { endpoints = d })
  held-CanConnect ch conn i address host out out_id f e w d h = record {
    config = h.config;
    old_id = h.old_id;
    old_handle = h.old_handle;
    callback = h.callback;
    configured = h.configured;
    makes = h.makes;
    fresh_sender = h.fresh_sender;
    fresh_ref = h.fresh_ref;
    id_valid = h.id_valid;
    handle_valid = h.handle_valid;
    apart = h.apart;
  }

  connect_body-ok :
      (p host len : ℕ) (address : IpAddr) (out out_id : ℕ) (mem : List ℕ) (w w' : World P)
      → lookup host w.buffers ≡ some mem
      → len ≤ length mem
      → is_utf8 (take len mem) ≡ true
      → endpoint_access p (connect_callback false address (take len mem) out out_id) w ≡ (ok tt, w')
      → connect_body false p host len address out out_id w ≡ (ok ok_result, w')
  unfolding connect_body as_bytes into_result
  connect_body-ok p host len address out out_id mem w w' hm hl hu h = ground arith

module _ {P : Proto} (ch : ℕ) (conn : P.Connection) (i : P.Endpoint) (f k out out_id : ℕ)
    (c : Shared (EndpointImpl P)) (w : World P) where
  abbrev lock : Shared (EndpointImpl P)
  lock = record c { locked = true }

  abbrev held : World P
  held = record (clear_last w) { endpoints = insert k lock w.endpoints }

  -- The endpoint and the state after the call.
  abbrev connected_endpoint : EndpointImpl P
  connected_endpoint = record (added ch conn i c.value held) {
    connection_refs = insert ch (w.next_id + 1) c.value.connection_refs;
  }

  abbrev after_connect : World P
  after_connect =
      let v : World P =
        boxed_connection f out out_id (made ch conn i c.value held) (channelled ch conn i held) in
      record v {
        endpoints = insert k (release {B = Unit {0}} (ok tt) connected_endpoint lock) v.endpoints;
      }

  after_connect-IsRegistered :
      (p : ℕ)
      → lookup p w.endpoint_boxes ≡ some k
      → IsRegistered p (w.next_id + 1 + 1) after_connect
  after_connect-IsRegistered p b = record {
    endpoint_arc = k;
    endpoint_cell = release {B = Unit {0}} (ok tt) connected_endpoint lock;
    connection_arc = w.next_id + 1;
    connection_cell = record (new_shared (made ch conn i c.value held)) { strong = 2 };
    sender = w.next_id;
    endpoint_boxed = b;
    endpoint_stored = lookup-insert_self k _ _;
    endpoint_free = refl;
    endpoint_sound = refl;
    connection_boxed = lookup-insert_self (w.next_id + 1 + 1) (w.next_id + 1) w.connection_boxes;
    connection_stored = lookup-insert_self (w.next_id + 1) _ _;
    connection_free = refl;
    connection_sound = refl;
    referred = lookup-insert_self ch (w.next_id + 1) c.value.connection_refs;
    sends = lookup-insert_self ch w.next_id c.value.connections;
    two = refl;
  }

module _ {P : Proto} where
  -- Where the library makes a connection, `connect_client` returns `Ok`, tells the application that the
  -- connection is to be polled, and writes its id and its handle out. The handle leads to a connection that
  -- the endpoint has in both of its maps, with both locks free, and that only the endpoint and the handle
  -- refer to. So it is without `auto-poll`, with valid pointers, a host name in UTF-8, and an endpoint that
  -- is configured, whose lock is free and not poisoned, and that does not know the connection's id.
  pub connect_client-IsRegistered :
      (p k host len ch f out out_id : ℕ) (conn : P.Connection) (i : P.Endpoint) (address : IpAddr)
      (mem : List ℕ) (c : Shared (EndpointImpl P)) (w : World P)
      → first_null (connect_args p host out out_id) ≡ none
      → lookup host w.buffers ≡ some mem
      → len ≤ length mem
      → is_utf8 (take len mem) ≡ true
      → lookup p w.endpoint_boxes ≡ some k
      → lookup k w.endpoints ≡ some c
      → c.locked ≡ false
      → c.poisoned ≡ false
      → CanConnect ch conn i address (take len mem) out out_id f c.value w
      → let (x, w') = connect_client false p host len address out out_id w in
        (handle : ℕ) × (x ≡ ok ok_result)
        × (lookup out w'.words ≡ some handle)
        × (lookup out_id w'.words ≡ some (ch % 2 ^ 32))
        × (w'.calls ≡ w.calls ++ (f, Call.on_connection_pollable (ch % 2 ^ 32)) ∷ [])
        × IsRegistered p handle w'
  unfolding connect_client
  connect_client-IsRegistered p k host len ch f out out_id conn i address mem c w n hm hl hu hb hs
        hf hp can =
      let w' : World P = after_connect ch conn i f k out out_id c w in
      let run =
        connect_callback-connects ch conn i address (take len mem) out out_id f c.value
          (held ch conn i f k out out_id c w)
          (held-CanConnect ch conn i address (take len mem) out out_id f c.value w
            (insert k (lock ch conn i f k out out_id c w) w.endpoints) can) in
      let access =
        endpoint_access-runs p k (connect_callback false address (take len mem) out out_id) c
          (lock ch conn i f k out out_id c w) (ok tt)
          (connected_endpoint ch conn i f k out out_id c w) (clear_last w) _ hb hs hf hp run
          (lookup-insert_self k (lock ch conn i f k out out_id c w) w.endpoints) in
      rw
        (
          safe_ffi-catch (connect_args p host out out_id)
              (connect_body false p host len address out out_id) n,
          catch-ok (connect_body false p host len address out out_id) ok_result w w'
              (connect_body-ok p host len address out out_id mem (clear_last w) w' hm hl hu access),
        )
        (
          w.next_id + 1 + 1,
          refl,
          lookup-insert_self out (w.next_id + 1 + 1) (insert out_id (ch % 2 ^ 32) w.words),
          lookup-insert_ne out_id out (w.next_id + 1 + 1) (insert out_id (ch % 2 ^ 32) w.words)
                (λ e. can.apart (sym e))
              ∙ lookup-insert_self out_id (ch % 2 ^ 32) w.words,
          refl,
          after_connect-IsRegistered ch conn i f k out out_id c w p hb,
        )
