-- ===== src/Bindings/Configs.antt =====
-- The functions on configurations, and their helper `decode_cert_key_store`. The crate rustls is a
-- parameter.
pub mod Created
use quinn_ffi.Prelude.{
  ℕ, ◌⊎◌, inl, inr, Option, none, some, Bool, false, List, [], ◌∷◌, ◌++◌, bytes,
}
use quinn_ffi.ErrorKind.{Text}
use quinn_ffi.Effect.{M, Payload, ◌>>=◌, ◌>>◌, pure, throw}
use quinn_ffi.Proto.{Proto}
use quinn_ffi.World.{World}
use quinn_ffi.World.Memory.{is_null, init, as_bytes}
use quinn_ffi.FfiResult.{FfiResult, ok_result}
use quinn_ffi.Api.{safe_ffi}
use quinn_ffi.Handle.{
  new_client_config, new_server_config, dealloc_client_config, dealloc_server_config,
}

-- What the source asks of rustls: whether a certificate can be a root, and the configuration that a
-- certificate and its key give, with a root for the client's. The texts are those that `{:?}` prints of
-- the errors.
pub record Rustls (P : Proto) : Type 0 where
  pub add_root : List ℕ → Option Text
  pub server_crypto : List ℕ → List ℕ → Text ⊎ P.ServerConfig
  pub client_crypto : List ℕ → List ℕ → List ℕ → Text ⊎ P.ClientConfig

abbrev pub config_args : ℕ → ℕ → ℕ → List (Text × Bool)
config_args out_handle cert key =
    (bytes "out_handle", is_null out_handle)
    ∷ (bytes "cert", is_null cert)
    ∷ (bytes "cert_lenght", false)
    ∷ (bytes "key", is_null key)
    ∷ (bytes "key_lenght", false)
    ∷ []

-- The panics of `store.add(&cert).unwrap()` and of `expect("bad certificate/key")`.
abbrev pub root_panic : Text → Payload
root_panic e = Payload.string (bytes "called `Result::unwrap()` on an `Err` value: " ++ e)

abbrev pub certificate_panic : Text → Payload
certificate_panic e = Payload.string (bytes "bad certificate/key: " ++ e)

module _ {P : Proto} (R : Rustls P) where
  checked_root : List ℕ → List ℕ → Option Text → M (World P) (List ℕ × List ℕ)
  checked_root cert key none = pure (cert, key)
  checked_root cert key (some e) = throw (root_panic e)

  -- `decode_cert_key_store`: the certificate and the key; the store has the certificate as its root.
  unfoldable pub decode_cert_key_store : ℕ → ℕ → ℕ → ℕ → M (World P) (List ℕ × List ℕ)
  unfolding checked_root
  decode_cert_key_store cert cert_length key key_length = do
    k ← as_bytes key key_length
    c ← as_bytes cert cert_length
    checked_root c k (R.add_root c)

  server_made : ℕ → Text ⊎ P.ServerConfig → M (World P) FfiResult
  server_made out_handle (inl e) = throw (certificate_panic e)
  server_made out_handle (inr config) = do
    handle ← new_server_config config
    init out_handle handle
    pure ok_result

  unfoldable pub create_server_config : ℕ → ℕ → ℕ → ℕ → ℕ → M (World P) FfiResult
  unfolding server_made
  create_server_config out_handle cert cert_length key key_length =
      safe_ffi (config_args out_handle cert key) do
        pair ← decode_cert_key_store cert cert_length key key_length
        server_made out_handle (R.server_crypto pair.0 pair.1)

  client_made : ℕ → Text ⊎ P.ClientConfig → M (World P) FfiResult
  client_made out_handle (inl e) = throw (certificate_panic e)
  client_made out_handle (inr config) = do
    handle ← new_client_config config
    init out_handle handle
    pure ok_result

  unfoldable pub create_client_config : ℕ → ℕ → ℕ → ℕ → ℕ → M (World P) FfiResult
  unfolding client_made
  create_client_config out_handle cert cert_length key key_length =
      safe_ffi (config_args out_handle cert key) do
        pair ← decode_cert_key_store cert cert_length key key_length
        client_made out_handle (R.client_crypto pair.0 pair.0 pair.1)

module _ {P : Proto} where
  unfoldable pub free_client_config : ℕ → M (World P) FfiResult
  free_client_config handle =
      safe_ffi ((bytes "handle", is_null handle) ∷ [])
        (dealloc_client_config handle >> pure ok_result)

  unfoldable pub free_server_config : ℕ → M (World P) FfiResult
  free_server_config handle =
      safe_ffi ((bytes "handle", is_null handle) ∷ [])
        (dealloc_server_config handle >> pure ok_result)
