-- ===== src/Bindings/Endpoints/Connected.antt =====
-- The callback of `connect_client` when the library makes a connection.
pub mod Registered
use quinn_ffi.Prelude.{
  ℕ, ◌+◌, ◌%◌, ◌^◌, ◌≡◌, ◌≢◌, ◌≤◌, refl, sym, ap, ◌∙◌, none, some, inr, true, false, [], ◌∷◌, ◌++◌,
  List, lookup, insert, take, length, lookup-insert_self, lookup-insert_ne, arith, Dict,
}
use quinn_ffi.ErrorKind.{Text}
use quinn_ffi.Effect.{ok}
use quinn_ffi.Proto.{Proto}
use quinn_ffi.Addr.{IpAddr, into_socket_addr}
use quinn_ffi.World.{World, Shared, EndpointImpl, ConnectionImpl, Call, Slot}
use quinn_ffi.World.Memory.Slices.{init-writes}
use quinn_ffi.World.Mpsc.{new_channel}
use quinn_ffi.World.Mutex.{release}
use quinn_ffi.World.Arcs.{new_shared, clone_arc}
use quinn_ffi.Callbacks.{invoke}
use quinn_ffi.Connection.{new_connection, mark_pollable}
use quinn_ffi.Connection.Pollable.{mark_pollable-calls}
use quinn_ffi.Endpoint
use quinn_ffi.Endpoint.{add_connection, drop_connection_sender}
use quinn_ffi.Endpoint.Refs.{register_pollable_connection, drop_ref}
use quinn_ffi.FfiResult.{ok_result, into_result}
use quinn_ffi.FfiResult.Laws.{clear_last, catch-ok}
use quinn_ffi.Api.Laws.{safe_ffi-catch, first_null}
use quinn_ffi.Handle.{endpoint_access, new_connection_handle, clone_connection, deref_connection}
use quinn_ffi.Handle.Poison.{endpoint_access-runs}
use quinn_ffi.Utf8.{is_utf8}
use quinn_ffi.Bindings.Connections.Freed.{IsRegistered}
use quinn_ffi.Bindings.Endpoints.{
  connect_client, connect_callback, connect_body, connect_args, connected, on_value,
}

module _ {P : Proto} (ch : ℕ) (conn : P.Connection) (i : P.Endpoint) where
  -- The connection that the endpoint `e` makes.
  abbrev pub made : EndpointImpl P → World P → ConnectionImpl P
  made e v = record {
    inner = conn;
    connection_handle = ch;
    connection_events = v.next_id;
    endpoint_events = e.endpoint_events_tx;
    timer_deadline = none;
    last_poll = v.clock v.reads;
    endpoint_poll_notifier = e.endpoint_poll_notifier;
  }

  abbrev added : EndpointImpl P → World P → EndpointImpl P
  added e v = record e { inner = i; connections = insert ch v.next_id e.connections }

  abbrev channelled : World P → World P
  channelled v = record v {
    connection_events = new_channel v.next_id v.connection_events;
    next_id = v.next_id + 1;
    reads = v.reads + 1;
  }

  connect-made :
      (address : IpAddr) (host : Text) (config : P.ClientConfig) (e : EndpointImpl P) (v : World P)
      → e.default_client_config ≡ some config
      → P.connect e.inner config (into_socket_addr address) host ≡ (inr (ch, conn), i)
      → lookup ch e.connections ≡ none
      → Endpoint.connect (into_socket_addr address) host (e, v)
        ≡ (ok (inr (made e v)), (added e v, channelled v))
  unfolding Endpoint.connect Endpoint.connect_with add_connection drop_connection_sender
      new_connection
  connect-made address host config e v d c f = rw (d, c, f) refl

module _ {P : Proto} where
  -- What `connect_client` does with the connection `c`: `f` is told that it is to be polled, and it goes
  -- into an `Arc`, which the box and the endpoint share.
  abbrev pub boxed_connection : ℕ → ℕ → ℕ → ConnectionImpl P → World P → World P
  boxed_connection f out out_id c v = record v {
    calls = v.calls ++ (f, Call.on_connection_pollable (c.connection_handle % 2 ^ 32)) ∷ [];
    connections =
        insert v.next_id (record (new_shared c) { strong = 2 })
          (insert v.next_id (new_shared c) v.connections);
    connection_boxes = insert (v.next_id + 1) v.next_id v.connection_boxes;
    next_id = v.next_id + 2;
    words = insert out (v.next_id + 1) (insert out_id (c.connection_handle % 2 ^ 32) v.words);
  }

  on_value-calls :
      (f : ℕ) (c : ConnectionImpl P) (v : World P)
      → v.callbacks Slot.connection_pollable ≡ some f
      → on_value false c (mark_pollable false) v ≡ (
        ok c,
        record v {
          calls = v.calls ++ (f, Call.on_connection_pollable (c.connection_handle % 2 ^ 32)) ∷ [];
        },
      )
  on_value-calls f c v h = rw (mark_pollable-calls f c v h) refl

  clone_connection-new :
      (c : ConnectionImpl P) (v : World P)
      → let v₁ : World P = (new_connection_handle c v).1 in
        clone_connection (v.next_id + 1) v₁ ≡ (
          ok v.next_id,
          record v₁ {
            connections = insert v.next_id (record (new_shared c) { strong = 2 }) v₁.connections;
          },
        )
  unfolding clone_connection new_connection_handle deref_connection clone_arc
  clone_connection-new c v =
      rw
        (
          lookup-insert_self (v.next_id + 1) v.next_id v.connection_boxes,
          lookup-insert_self v.next_id (new_shared c) v.connections,
          clone_arc,
        )
        refl

  register-new :
      (h k : ℕ) (e : EndpointImpl P) (v : World P)
      → lookup h e.connection_refs ≡ none
      → register_pollable_connection h k (e, v)
        ≡ (ok tt, (record e { connection_refs = insert h k e.connection_refs }, v))
  unfolding register_pollable_connection drop_ref
  register-new h k e v r = rw r refl

  connected-boxed :
      (f out out_id a b : ℕ) (c : ConnectionImpl P) (e : EndpointImpl P) (v : World P)
      → v.callbacks Slot.connection_pollable ≡ some f
      → lookup c.connection_handle e.connection_refs ≡ none
      → lookup out_id v.words ≡ some a
      → lookup out (insert out_id (c.connection_handle % 2 ^ 32) v.words) ≡ some b
      → connected false out out_id (inr c) (e, v) ≡ (
        ok tt,
        (
          record e { connection_refs = insert c.connection_handle v.next_id e.connection_refs },
          boxed_connection f out out_id c v,
        ),
      )
  unfolding connected new_connection_handle
  connected-boxed f out out_id a b c e v hf hr ho hb =
      let v₁ : World P = record v {
        calls = v.calls ++ (f, Call.on_connection_pollable (c.connection_handle % 2 ^ 32)) ∷ [];
      } in
      let v₂ : World P = record v₁ {
        connections =
            insert v.next_id (record (new_shared c) { strong = 2 })
              (insert v.next_id (new_shared c) v.connections);
        connection_boxes = insert (v.next_id + 1) v.next_id v.connection_boxes;
        next_id = v.next_id + 2;
      } in
      let id : ℕ = c.connection_handle % 2 ^ 32 in
      rw
        (
          on_value-calls f c v hf,
          clone_connection-new c v₁,
          register-new c.connection_handle v.next_id e v₂ hr,
          init-writes out_id id a v₂ ho,
          init-writes out (v.next_id + 1) b (record v₂ { words = insert out_id id v.words }) hb,
        )
        refl

-- What the application and the library must have done before `connect_client` on the endpoint `e`: the
-- callback and the configuration are set, the pointers can be written, the library makes the connection
-- `conn` with a handle that the endpoint does not know.
pub record CanConnect {P : Proto} (ch : ℕ) (conn : P.Connection) (i : P.Endpoint) (address : IpAddr)
    (host : Text) (out out_id f : ℕ) (e : EndpointImpl P) (v : World P) : Type 0 where
  pub config : P.ClientConfig
  pub old_id : ℕ
  pub old_handle : ℕ
  pub callback : v.callbacks Slot.connection_pollable ≡ some f
  pub configured : e.default_client_config ≡ some config
  pub makes : P.connect e.inner config (into_socket_addr address) host ≡ (inr (ch, conn), i)
  pub fresh_sender : lookup ch e.connections ≡ none
  pub fresh_ref : lookup ch e.connection_refs ≡ none
  pub id_valid : lookup out_id v.words ≡ some old_id
  pub handle_valid : lookup out v.words ≡ some old_handle
  pub apart : out_id ≢ out

module _ {P : Proto} where
  pub connect_callback-connects :
      (ch : ℕ) (conn : P.Connection) (i : P.Endpoint) (address : IpAddr) (host : Text)
      (out out_id f : ℕ) (e : EndpointImpl P) (v : World P)
      → CanConnect ch conn i address host out out_id f e v
      → connect_callback false address host out out_id (e, v) ≡ (
        ok tt,
        (
          record (added ch conn i e v) {
            connection_refs = insert ch (v.next_id + 1) e.connection_refs;
          },
          boxed_connection f out out_id (made ch conn i e v) (channelled ch conn i v),
        ),
      )
  unfolding connect_callback
  connect_callback-connects ch conn i address host out out_id f e v h =
      rw
        (
          connect-made ch conn i address host h.config e v h.configured h.makes h.fresh_sender,
          connected-boxed f out out_id h.old_id h.old_handle (made ch conn i e v)
              (added ch conn i e v) (channelled ch conn i v) h.callback h.fresh_ref h.id_valid
              (lookup-insert_ne out out_id (ch % 2 ^ 32) v.words h.apart ∙ h.handle_valid),
        )
        refl
