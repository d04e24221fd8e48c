-- ===== src/Endpoint/Ids.antt =====
-- The ids of endpoints.
use quinn_ffi.Prelude.{◌+◌, ◌%◌, ◌≡◌, refl}
use quinn_ffi.Effect.{ok}
use quinn_ffi.Proto.{Proto}
use quinn_ffi.World.{World, EndpointImpl}
use quinn_ffi.Endpoint.{new_endpoint}

module _ {P : Proto} where
  -- Two endpoints that are created one after the other have the same id, one more than the counter
  -- modulo 256: the counter is read and never written.
  pub new_endpoint-same_id :
      (i j : P.Endpoint) (w : World P)
      → (e₁ : EndpointImpl P) × (w₁ : World P) × (e₂ : EndpointImpl P) × (w₂ : World P)
        × (new_endpoint i w ≡ (ok e₁, w₁))
        × (new_endpoint j w₁ ≡ (ok e₂, w₂))
        × (e₁.id ≡ (w.endpoint_id + 1) % 256)
        × (e₁.id ≡ e₂.id)
        × (w₂.endpoint_id ≡ w.endpoint_id)
  unfolding new_endpoint
  new_endpoint-same_id i j w = (_, _, _, _, refl, refl, refl, refl, refl)
