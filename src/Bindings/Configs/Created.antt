-- ===== src/Bindings/Configs/Created.antt =====
-- What becomes of a configuration that is created.
use quinn_ffi.Prelude.{
  ℕ, ◌+◌, ◌≤◌, ◌≡◌, ap, refl, inl, inr, none, some, true, List, lookup, insert, lookup-insert_self,
  length, take, arith,
}
use quinn_ffi.ErrorKind.{Text}
use quinn_ffi.Effect.{ok, gets}
use quinn_ffi.Proto.{Proto}
use quinn_ffi.World.{World}
use quinn_ffi.World.Memory.{init, as_bytes}
use quinn_ffi.World.Arcs.{new_shared}
use quinn_ffi.World.Mutex.Laws.{with_lock-runs}
use quinn_ffi.FfiResult.{ok_result, err_result}
use quinn_ffi.FfiResult.Laws.{clear_last, catch-ok, catch-panic_unset}
use quinn_ffi.Api.Laws.{first_null, safe_ffi-catch}
use quinn_ffi.Handle.{new_server_config, server_config_access}
use quinn_ffi.Bindings.Configs.{
  Rustls, config_args, certificate_panic, decode_cert_key_store, checked_root, server_made,
  create_server_config,
}

module _ {P : Proto} (R : Rustls P) where
  decoded :
      (cert cert_length key key_length : ℕ) (c k : List ℕ) (w : World P)
      → lookup cert w.buffers ≡ some c
      → cert_length ≤ length c
      → lookup key w.buffers ≡ some k
      → key_length ≤ length k
      → R.add_root (take cert_length c) ≡ none
      → decode_cert_key_store R cert cert_length key key_length w
        ≡ (ok (take cert_length c, take key_length k), w)
  unfolding decode_cert_key_store checked_root as_bytes
  decoded cert cert_length key key_length c k w hc lc hk lk a = ground arith

  access_new :
      (handle : ℕ) (config : P.ServerConfig) (w : World P)
      → lookup handle w.server_configs ≡ some (new_shared config)
      → (server_config_access handle (gets λ s. s.0) w).0 ≡ ok config
  unfolding server_config_access
  access_new handle config w h =
      let held = record (new_shared config) { locked = true } in
      ap (λ r. r.0)
        (with_lock-runs (λ w. w.server_configs) (λ w d. record w { server_configs = d }) handle
          (gets λ s. s.0) (new_shared config) held (ok config) config w
          (record w { server_configs = insert handle held w.server_configs }) h refl refl refl
          (lookup-insert_self handle held w.server_configs))

  -- The configuration that rustls makes of the certificate and the key in the application's memory is what
  -- the handle gives that `create_server_config` writes to the application: the functions that take the
  -- handle find it there. So it is with valid pointers and a certificate that rustls accepts.
  pub create_server_config-access :
      (out cert cert_length key key_length old : ℕ) (c k : List ℕ) (config : P.ServerConfig)
      (w : World P)
      → first_null (config_args out cert key) ≡ none
      → lookup cert w.buffers ≡ some c
      → cert_length ≤ length c
      → lookup key w.buffers ≡ some k
      → key_length ≤ length k
      → R.add_root (take cert_length c) ≡ none
      → R.server_crypto (take cert_length c) (take key_length k) ≡ inr config
      → lookup out w.words ≡ some old
      → let (r, w') = create_server_config R out cert cert_length key key_length w in
        (handle : ℕ) × (r ≡ ok ok_result)
        × (lookup out w'.words ≡ some handle)
        × ((server_config_access handle (gets λ s. s.0) w').0 ≡ ok config)
  unfolding create_server_config server_made new_server_config init
  create_server_config-access out cert cert_length key key_length old c k config w n hc lc hk lk a s
        o =
      let w' : World P = record (clear_last w) {
        server_configs = insert w.next_id (new_shared config) w.server_configs;
        next_id = w.next_id + 1;
        words = insert out w.next_id w.words;
      } in
      let run : create_server_config R out cert cert_length key key_length w ≡ (ok ok_result, w') =
        rw (safe_ffi-catch (config_args out cert key) _ n) (
          catch-ok _ ok_result w w' (
            ground
              (arith, decoded cert cert_length key key_length c k (clear_last w) hc lc hk lk a))) in
      rw run (
        w.next_id,
        refl,
        lookup-insert_self out w.next_id w.words,
        access_new w.next_id config w'
            (lookup-insert_self w.next_id (new_shared config) w.server_configs),
      )

  -- If rustls takes the certificate for a root but not with its key, `create_server_config` returns
  -- `Error`: no handle is written, and no error is kept that would tell the application why. So it is with
  -- valid pointers.
  pub create_server_config-rejects :
      (out cert cert_length key key_length : ℕ) (c k : List ℕ) (e : Text) (w : World P)
      → first_null (config_args out cert key) ≡ none
      → lookup cert w.buffers ≡ some c
      → cert_length ≤ length c
      → lookup key w.buffers ≡ some k
      → key_length ≤ length k
      → R.add_root (take cert_length c) ≡ none
      → R.server_crypto (take cert_length c) (take key_length k) ≡ inl e
      → create_server_config R out cert cert_length key key_length w ≡ (ok err_result, clear_last w)
  unfolding create_server_config server_made
  create_server_config-rejects out cert cert_length key key_length c k e w n hc lc hk lk a s =
      rw (safe_ffi-catch (config_args out cert key) _ n) (
        catch-panic_unset _ (certificate_panic e) w (clear_last w)
          (ground (arith, decoded cert cert_length key key_length c k (clear_last w) hc lc hk lk a))
          refl)
