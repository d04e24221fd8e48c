-- ===== src/Bindings/Endpoints/Accounted/Exported.antt =====
-- `dispose_endpoint`, `create_client_endpoint` and `create_server_endpoint`, and the counts of the
-- connections' `Arc`s.
use quinn_ffi.Prelude.{ℕ, Bool, true, false, ◌≡◌, refl, none, some, arith, ◌++◌, ◌∷◌, [], insert}
use quinn_ffi.Effect.{M, Exit, ok, err, panic, hang, undefined, ◌>>=◌, ◌>>◌, pure, gets}
use quinn_ffi.Effect.Laws.{>>=-Preserves}
use quinn_ffi.Proto.{Proto}
use quinn_ffi.World.{World, EndpointImpl}
use quinn_ffi.World.Memory.{init}
use quinn_ffi.World.Mutex.Locked.{locked-Preserves}
use quinn_ffi.World.Arcs.Left.{Leaves, Leaves-refl, Leaves-same}
use quinn_ffi.Poller.{new_poller, start_polling}
use quinn_ffi.FfiResult.{FfiResult, ok_result}
use quinn_ffi.FfiResult.Preserved.{into_result-Preserves}
use quinn_ffi.Api.Preserved.{safe_ffi-Preserves}
use quinn_ffi.Endpoint
use quinn_ffi.Endpoint.{set_poll_notifier, set_default_client_config}
use quinn_ffi.Endpoint.Refs
use quinn_ffi.Endpoint.Refs.Counted.{Leaves-AreCounted, close-AreCounted}
use quinn_ffi.Handle.{
  endpoint_access, dealloc_endpoint, new_endpoint_handle, clone_endpoint, client_config_access,
  server_config_access,
}
use quinn_ffi.Handle.Counted.{IsAccounted, Leaves-IsAccounted}
use quinn_ffi.Handle.Counted.Locked.{endpoint_access-IsAccounted}
use quinn_ffi.Bindings.Accounted.{KeepsAccounts, result-IsAccounted}
use quinn_ffi.Bindings.Endpoints.{
  dispose_endpoint, dispose_body, disposed, create_client_endpoint, create_client_body,
  create_server_endpoint, server_result, start_poller, configured, beside, spared,
}
use quinn_ffi.Bindings.Endpoints.Counted.{init-Leaves}
use quinn_ffi.Bindings.Endpoints.Accounted.{
  dealloc_endpoint-IsAccounted, drop_fresh-IsAccounted, new_endpoint_handle-IsAccounted,
  clone_endpoint-IsAccounted,
}

module _ {P : Proto} where
  disposed-IsAccounted :
      (handle : ℕ) (x : Exit (Unit {0})) → KeepsAccounts {P = P} (disposed handle x)
  unfolding disposed
  disposed-IsAccounted handle (err e) w i = i
  disposed-IsAccounted handle (ok a) w i =
      >>=-Preserves IsAccounted (dealloc_endpoint handle) (λ _. pure ok_result)
        (dealloc_endpoint-IsAccounted handle) (λ _ v j. j) w i
  disposed-IsAccounted handle (panic p) w i = i
  disposed-IsAccounted handle hang w i = i
  disposed-IsAccounted handle undefined w i = i

  dispose_body-IsAccounted : (handle : ℕ) → KeepsAccounts {P = P} (dispose_body handle)
  unfolding dispose_body
  dispose_body-IsAccounted handle w i =
      let (x, w') = endpoint_access handle Refs.close w in
      disposed-IsAccounted handle x w'
        (endpoint_access-IsAccounted handle Refs.close (λ other. close-AreCounted other) w i)

  pub dispose_endpoint-IsAccounted : (handle : ℕ) → KeepsAccounts {P = P} (dispose_endpoint handle)
  unfolding dispose_endpoint
  dispose_endpoint-IsAccounted handle =
      safe_ffi-Preserves IsAccounted result-IsAccounted _ (dispose_body handle)
        (dispose_body-IsAccounted handle)

  -- Code that makes and drops no reference.
  leaving : {A : Type 0} (m : M (World P) A) → ((w : World P) → Leaves w (m w).1) → KeepsAccounts m
  leaving m l w = Leaves-IsAccounted w (m w).1 (l w)

  new_poller-Leaves : (k : ℕ) (w : World P) → Leaves w (new_poller k w).1
  unfolding new_poller
  new_poller-Leaves k w =
      Leaves-same w w (new_poller k w).1 refl refl (omega arith) refl (Leaves-refl w)

  set_poll_notifier-IsAccounted :
      (p notifier : ℕ) → KeepsAccounts {P = P} (endpoint_access p (set_poll_notifier notifier))
  unfolding set_poll_notifier
  set_poll_notifier-IsAccounted p notifier =
      endpoint_access-IsAccounted p (set_poll_notifier notifier) λ other (e, w) i.
        Leaves-AreCounted other e (record e { endpoint_poll_notifier = some notifier }) w w refl
          (Leaves-refl w) i

  start_poller-IsAccounted : (p : ℕ) → KeepsAccounts {P = P} (start_poller p)
  unfolding start_polling
  start_poller-IsAccounted p =
      >>=-Preserves IsAccounted (clone_endpoint p) _ (clone_endpoint-IsAccounted p) λ arc.
        >>=-Preserves IsAccounted (new_poller arc) _
          (leaving (new_poller arc) (new_poller-Leaves arc))
          λ made w i.
            Leaves-IsAccounted w (record w { pollers = w.pollers ++ made.0 ∷ [] })
              (Leaves-same w w (record w { pollers = w.pollers ++ made.0 ∷ [] }) refl refl
                (omega arith) refl (Leaves-refl w))
              i

  client_config-IsAccounted :
      (p : ℕ) → KeepsAccounts {P = P} (client_config_access p (gets λ s. s.0))
  unfolding client_config_access
  client_config-IsAccounted p w =
      Leaves-IsAccounted w (client_config_access p (gets λ s. s.0) w).1 (
        locked-Preserves (λ v. v.client_configs) (λ v d. record v { client_configs = d }) (Leaves w)
          (λ k c c' v l s h.
            Leaves-same w v (record v { client_configs = insert k c' v.client_configs }) refl refl
              (omega arith) refl h)
          p (gets λ s. s.0) (λ t h. h) w (Leaves-refl w))

  server_config-IsAccounted :
      (p : ℕ) → KeepsAccounts {P = P} (server_config_access p (gets λ s. s.0))
  unfolding server_config_access
  server_config-IsAccounted p w =
      Leaves-IsAccounted w (server_config_access p (gets λ s. s.0) w).1 (
        locked-Preserves (λ v. v.server_configs) (λ v d. record v { server_configs = d }) (Leaves w)
          (λ k c c' v l s h.
            Leaves-same w v (record v { server_configs = insert k c' v.server_configs }) refl refl
              (omega arith) refl h)
          p (gets λ s. s.0) (λ t h. h) w (Leaves-refl w))

  -- The two results of a creation are stored.
  stored-IsAccounted :
      (a x b y : ℕ) (r : FfiResult) → KeepsAccounts {P = P} (do init a x; init b y; pure r)
  stored-IsAccounted a x b y r =
      >>=-Preserves IsAccounted (init a x) _ (leaving (init a x) (init-Leaves a x)) λ _.
        >>=-Preserves IsAccounted (init b y) _ (leaving (init b y) (init-Leaves b y)) λ _ w i. i

  new_endpoint-IsAccounted :
      (i : P.Endpoint) (w : World P) → IsAccounted w → IsAccounted (Endpoint.new_endpoint i w).1
  unfolding Endpoint.new_endpoint
  new_endpoint-IsAccounted i w =
      Leaves-IsAccounted w (Endpoint.new_endpoint i w).1
        (Leaves-same w w (Endpoint.new_endpoint i w).1 refl refl (omega arith) refl (Leaves-refl w))

  spared-IsAccounted :
      {A : Type 0} (e : EndpointImpl P)
      → e.connections ≡ []
      → e.connection_refs ≡ []
      → (x : Exit A) → KeepsAccounts (spared e x)
  spared-IsAccounted e c r (ok a) w i = i
  spared-IsAccounted e c r (err x) w i = drop_fresh-IsAccounted e w c r i
  spared-IsAccounted e c r (panic p) w i = drop_fresh-IsAccounted e w c r i
  spared-IsAccounted e c r hang w i = i
  spared-IsAccounted e c r undefined w i = i

  beside-IsAccounted :
      {A : Type 0} (e : EndpointImpl P) (m : M (World P) A)
      → e.connections ≡ []
      → e.connection_refs ≡ []
      → KeepsAccounts m
      → KeepsAccounts (beside e m)
  beside-IsAccounted e m c r k w i = let (x, w') = m w in spared-IsAccounted e c r x w' (k w i)

  create_client_body-IsAccounted :
      (handle id out : ℕ) → KeepsAccounts {P = P} (create_client_body handle id out)
  unfolding create_client_body Endpoint.new_endpoint configured set_default_client_config
  create_client_body-IsAccounted handle id out w i =
      >>=-Preserves IsAccounted (beside _ (client_config_access handle (gets λ s. s.0))) _
        (beside-IsAccounted _ (client_config_access handle (gets λ s. s.0)) refl refl
          (client_config-IsAccounted handle))
        (λ config.
          >>=-Preserves IsAccounted (new_endpoint_handle _) _
            (new_endpoint_handle-IsAccounted _ refl)
            λ p.
              >>=-Preserves IsAccounted (start_poller p) _ (start_poller-IsAccounted p) λ notifier.
                >>=-Preserves IsAccounted (endpoint_access p (set_poll_notifier notifier)) _
                  (set_poll_notifier-IsAccounted p notifier)
                  λ _. stored-IsAccounted id _ out p ok_result)
        (Endpoint.new_endpoint (P.new_endpoint none) w).1
        (new_endpoint-IsAccounted (P.new_endpoint none) w i)

  pub create_client_endpoint-IsAccounted :
      (handle id out : ℕ) → KeepsAccounts {P = P} (create_client_endpoint handle id out)
  unfolding create_client_endpoint
  create_client_endpoint-IsAccounted handle id out =
      safe_ffi-Preserves IsAccounted result-IsAccounted _ (create_client_body handle id out)
        (create_client_body-IsAccounted handle id out)

  server_result-IsAccounted :
      (auto_poll : Bool) (p : ℕ) → KeepsAccounts {P = P} (server_result auto_poll p)
  unfolding server_result
  server_result-IsAccounted false p = λ w i. i
  server_result-IsAccounted true p =
      >>=-Preserves IsAccounted (start_poller p) _ (start_poller-IsAccounted p) λ notifier.
        into_result-Preserves IsAccounted result-IsAccounted
          (endpoint_access p (set_poll_notifier notifier))
          (set_poll_notifier-IsAccounted p notifier)

  -- The endpoint that `EndpointImpl::new` made is boxed and stored.
  served-IsAccounted :
      (auto_poll : Bool) (id out : ℕ) (e : EndpointImpl P)
      → e.connection_refs ≡ []
      → KeepsAccounts (do
        p ← new_endpoint_handle e
        result ← server_result auto_poll p
        init id e.id
        init out p
        pure result)
  served-IsAccounted auto_poll id out e r =
      >>=-Preserves IsAccounted (new_endpoint_handle e) _ (new_endpoint_handle-IsAccounted e r) λ p.
        >>=-Preserves IsAccounted (server_result auto_poll p) _
          (server_result-IsAccounted auto_poll p) λ result. stored-IsAccounted id e.id out p result

  pub create_server_endpoint-IsAccounted :
      (auto_poll : Bool) (handle id out : ℕ)
      → KeepsAccounts {P = P} (create_server_endpoint auto_poll handle id out)
  unfolding create_server_endpoint Endpoint.new_endpoint
  create_server_endpoint-IsAccounted auto_poll handle id out =
      safe_ffi-Preserves IsAccounted result-IsAccounted _ _ (
        >>=-Preserves IsAccounted (server_config_access handle (gets λ s. s.0)) _
          (server_config-IsAccounted handle)
          λ config w i.
            served-IsAccounted auto_poll id out _ refl
              (Endpoint.new_endpoint (P.new_endpoint (some config)) w).1
              (new_endpoint-IsAccounted (P.new_endpoint (some config)) w i))
