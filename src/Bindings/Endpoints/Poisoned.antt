-- ===== src/Bindings/Endpoints/Poisoned.antt =====
-- Exported functions on an endpoint whose callback has panicked, and how one comes to that.
use quinn_ffi.Prelude.{
  ℕ, ◌≡◌, ◌≤◌, refl, none, some, Bool, true, false, List, [], ◌∷◌, lookup, insert, take, length,
  arith, bytes, lookup-insert_self,
}
use quinn_ffi.ErrorKind.{Text}
use quinn_ffi.Effect.{ok, panic}
use quinn_ffi.Proto.{Proto}
use quinn_ffi.Addr.{IpAddr}
use quinn_ffi.World.{World, Shared, EndpointImpl}
use quinn_ffi.World.Memory.{is_null, as_bytes}
use quinn_ffi.World.Mutex.{poison_panic}
use quinn_ffi.FfiResult.{err_result, into_result}
use quinn_ffi.FfiResult.Laws.{clear_last, catch-panic_unset}
use quinn_ffi.Api.Laws.{safe_ffi-catch, first_null}
use quinn_ffi.Endpoint
use quinn_ffi.Endpoint.{Endp}
use quinn_ffi.Endpoint.Refs
use quinn_ffi.Handle.{endpoint_access}
use quinn_ffi.Handle.Poison.{IsPoisoned, endpoint_access-IsPoisoned, endpoint_access-runs}
use quinn_ffi.Utf8.{is_utf8}
use quinn_ffi.Bindings.Endpoints.{
  dispose_endpoint, dispose_body, connect_client, connect_callback, connect_body, connect_args,
  connect_panic,
}

module _ {P : Proto} where
  clear-IsPoisoned : (p : ℕ) (w : World P) → IsPoisoned p w → IsPoisoned p (clear_last w)
  clear-IsPoisoned p w h = record {
    arc = h.arc;
    cell = h.cell;
    boxed = h.boxed;
    stored = h.stored;
    free = h.free;
    poison = h.poison;
  }

  dispose_body-IsPoisoned :
      (p : ℕ) (w : World P) → IsPoisoned p w → dispose_body p w ≡ (panic poison_panic, w)
  unfolding dispose_body
  dispose_body-IsPoisoned p w h = rw (endpoint_access-IsPoisoned p Refs.close w h)

  -- A poisoned endpoint cannot be disposed of while nobody holds it: the call fails, stores no error,
  -- sends no exit code to the poller and frees nothing.
  pub dispose_endpoint-IsPoisoned :
      (p : ℕ) (w : World P)
      → is_null p ≡ false
      → IsPoisoned p w
      → dispose_endpoint p w ≡ (ok err_result, clear_last w)
  unfolding dispose_endpoint
  dispose_endpoint-IsPoisoned p w n h =
      rw (safe_ffi-catch ((bytes "handle", is_null p) ∷ []) (dispose_body p) (ground arith)) (
        catch-panic_unset (dispose_body p) poison_panic w (clear_last w)
          (dispose_body-IsPoisoned p (clear_last w) (clear-IsPoisoned p w h)) refl)

  connect_callback-no_config :
      (auto_poll : Bool) (address : IpAddr) (host : Text) (out_connection out_id : ℕ)
      (e : EndpointImpl P) (w : World P)
      → e.default_client_config ≡ none
      → connect_callback auto_poll address host out_connection out_id (e, w)
        ≡ (panic (connect_panic P P.no_default_client_config), (e, w))
  unfolding connect_callback Endpoint.connect
  connect_callback-no_config auto_poll address host out_connection out_id e w h = ground arith

  -- What an endpoint without a client configuration becomes by `connect_client`.
  after_connect : ℕ → Shared (EndpointImpl P) → World P → World P
  after_connect k c w = record w {
    last_result = none;
    endpoints =
        insert k (record c { locked = false; poisoned = true })
          (insert k (record c { locked = true }) w.endpoints);
  }

  connect_access-no_config :
      (auto_poll : Bool) (p k : ℕ) (address : IpAddr) (host : Text) (out_connection out_id : ℕ)
      (c : Shared (EndpointImpl P)) (w : World P)
      → lookup p w.endpoint_boxes ≡ some k
      → lookup k w.endpoints ≡ some c
      → c.locked ≡ false
      → c.poisoned ≡ false
      → c.value.default_client_config ≡ none
      → endpoint_access p
          (connect_callback auto_poll address host out_connection out_id)
          (clear_last w)
        ≡ (panic (connect_panic P P.no_default_client_config), after_connect k c w)
  unfolding after_connect
  connect_access-no_config auto_poll p k address host out_connection out_id c w b s f po d =
      endpoint_access-runs p k (connect_callback auto_poll address host out_connection out_id) c
        (record c { locked = true }) (panic (connect_panic P P.no_default_client_config)) c.value
        (clear_last w)
        (record w {
          last_result = none;
          endpoints = insert k (record c { locked = true }) w.endpoints;
        })
        b s f po
        (connect_callback-no_config auto_poll address host out_connection out_id c.value _ d)
        (lookup-insert_self k _ w.endpoints)

  connect_body-no_config :
      (auto_poll : Bool) (p k host len : ℕ) (address : IpAddr) (out_connection out_id : ℕ)
      (mem : List ℕ) (c : Shared (EndpointImpl P)) (w : World P)
      → lookup host w.buffers ≡ some mem
      → len ≤ length mem
      → is_utf8 (take len mem) ≡ true
      → endpoint_access p
          (connect_callback auto_poll address (take len mem) out_connection out_id)
          (clear_last w)
        ≡ (panic (connect_panic P P.no_default_client_config), after_connect k c w)
      → connect_body auto_poll p host len address out_connection out_id (clear_last w)
        ≡ (panic (connect_panic P P.no_default_client_config), after_connect k c w)
  unfolding connect_body as_bytes into_result
  connect_body-no_config auto_poll p k host len address out_connection out_id mem c w hm hl hu h =
      ground arith

module _ {P : Proto} where
  -- On an endpoint without a client configuration the error of `connect` is unwrapped under the lock:
  -- `connect_client` returns `Error`, stores no error, and leaves the endpoint poisoned. So it is with
  -- valid pointers, a host name in UTF-8, and a lock that is free and not poisoned.
  pub connect_client-no_config :
      (auto_poll : Bool) (p k host len : ℕ) (address : IpAddr) (out_connection out_id : ℕ)
      (mem : List ℕ) (c : Shared (EndpointImpl P)) (w : World P)
      → first_null (connect_args p host out_connection out_id) ≡ none
      → lookup host w.buffers ≡ some mem
      → len ≤ length mem
      → is_utf8 (take len mem) ≡ true
      → lookup p w.endpoint_boxes ≡ some k
      → lookup k w.endpoints ≡ some c
      → c.locked ≡ false
      → c.poisoned ≡ false
      → c.value.default_client_config ≡ none
      → let (r, w') = connect_client auto_poll p host len address out_connection out_id w in
        (r ≡ ok err_result) × (w'.last_result ≡ none) × IsPoisoned p w'
  unfolding connect_client after_connect
  connect_client-no_config auto_poll p k host len address out_connection out_id mem c w n hm hl hu
        hb hs hf hp hd =
      rw
        (safe_ffi-catch (connect_args p host out_connection out_id)
          (connect_body auto_poll p host len address out_connection out_id) n)
        (rw
          (catch-panic_unset (connect_body auto_poll p host len address out_connection out_id)
            (connect_panic P P.no_default_client_config) w (after_connect k c w)
            (connect_body-no_config auto_poll p k host len address out_connection out_id mem c w hm
              hl hu
              (connect_access-no_config auto_poll p k address (take len mem) out_connection out_id c
                w hb hs hf hp hd))
            refl)
          (
            refl,
            refl,
            record {
              arc = k;
              cell = record c { locked = false; poisoned = true };
              boxed = hb;
              stored = lookup-insert_self k _ _;
              free = refl;
              poison = refl;
            },
          ))
